-- ===== src/Expression/Lines.antt =====
-- `CloseExpression` over the lines of a file.
use mathlib.Core.List.{append_assoc}
use front_server.Common.{
  ℕ, zero, suc, ◌+◌, ◌-◌, ◌≤◌, ◌<◌, ◌≡◌, ◌≢◌, refl, sym, ap, ◌∙◌, ◌⊎◌, inl, inr, true, false, none,
  some, List, [], ◌∷◌, ◌++◌, ◌==◌, Bool-cases, Option-cases, arith, length, length-append,
  get_elem?-append, get_elem?, get_or-get_elem?, get_elem?-of_drop, drop-of_drop, get_elem?-drop,
  drop, drop-append, Text, count,
}
use front_server.Common.Int.{ℤ, pos, negsuc, ◌+ℤ◌, sub_ℕ, leb_ℤ}
use front_server.Cleanse.{CleansedLines}
use front_server.Expression.{
  find_end, find_end_of_expression_in_line, Closing, surplus, close_lines, end_of, close_bracket,
  close_expression,
}
use front_server.Expression.Brackets.{
  Balanced, find_end-start, find_end-plain, find_end-end, find_end_last, find_end-Split,
  find_end_iff, Shuts, next, done,
}

positive : (z : ℤ) → leb_ℤ z (pos 0) ≡ false → (m : ℕ) × (z ≡ pos (suc m))
positive (pos zero) h = absurd (ground arith)
positive (pos (suc m)) h = (m, refl)
positive (negsuc n) h = absurd (ground arith)

sum_le : (n a b : ℕ) → leb_ℤ (pos (suc n) +ℤ sub_ℕ a b) (pos 0) ≡ true → suc n + a ≤ b
unfolding ◌+ℤ◌
sum_le n a b h = ground arith

difference : (a b : ℕ) → b < a → (m : ℕ) × (sub_ℕ a b ≡ pos (suc m))
difference a b h = (a - b - 1, ground arith)

module _ (startchar endchar : ℕ) (apart : startchar ≢ endchar) where
  find_end-end_none :
      (s : Text) (i n : ℕ)
      → find_end startchar endchar (endchar ∷ s) i (pos (suc n)) ≡ none
      → ((m : ℕ)
          → find_end startchar endchar s (i + 1) (pos (suc m)) ≡ none
          → count endchar s ≤ m + count startchar s)
      → count endchar s + 1 ≤ n + count startchar s
  find_end-end_none s i zero e later =
      absurd (ground (arith, find_end_last startchar endchar apart s i))
  find_end-end_none s i (suc m) e later =
      omega (arith, later m (sym (find_end-end startchar endchar apart s i m) ∙ e))

  -- A text that does not close the open brackets leaves at least one open.
  find_end-none :
      (s : Text) (i n : ℕ)
      → find_end startchar endchar s i (pos (suc n)) ≡ none
      → count endchar s ≤ n + count startchar s
  unfolding count
  find_end-none [] i n e = omega arith
  find_end-none (c ∷ s) i n e = elim (Bool-cases (c == startchar)) [
    | inl start ↦
        let same : c ≡ startchar = ground arith in
        let e' : find_end startchar endchar s (i + 1) (pos (suc (suc n))) ≡ none =
          sym (find_end-start startchar endchar apart s i (suc n)) ∙ rw same at e in
        ground (arith, find_end-none s (i + 1) (suc n) e')
    | inr other ↦ elim (Bool-cases (c == endchar)) [
      | inr plain ↦
          let p : c ≢ startchar = ground arith in
          let q : c ≢ endchar = ground arith in
          let e' : find_end startchar endchar s (i + 1) (pos (suc n)) ≡ none =
            sym (find_end-plain startchar endchar apart c s i (suc n) p q) ∙ e in
          ground (arith, find_end-none s (i + 1) n e')
      | inl end ↦
          let same : c ≡ endchar = ground arith in
          let shut : count endchar s + 1 ≤ n + count startchar s =
            find_end-end_none s i n (rw same at e) (λ m. find_end-none s (i + 1) m) in
          ground arith
    ]
  ]

  Shuts-last :
      {n : ℕ} {w : Text} → Shuts startchar endchar (suc n) w → (v : Text) × (w ≡ v ++ endchar ∷ [])
  Shuts-last (next {n = zero} {s = b} h done) = (b, refl)
  Shuts-last (next {n = suc n} {s = b} h k) =
      let (v, e) = Shuts-last k in
      (b ++ endchar ∷ v, rw e (sym (append_assoc b (endchar ∷ v) (endchar ∷ []))))

  -- A position that the search returns lies behind an end character of the text.
  find_end-some :
      (s : Text) (i n : ℕ) {k : ℕ}
      → find_end startchar endchar s i (pos (suc n)) ≡ some k
      → (m : ℕ) × (k ≡ i + m + 1) × (get_elem? s m ≡ some endchar)
  find_end-some s i n {k} e =
      let (w, rest, split, shuts, at) = find_end-Split startchar endchar apart s i n {k = k} e in
      let (v, last) = Shuts-last shuts in
      (
        length v,
        omega (arith, at, ap length last, length-append v (endchar ∷ [])),
        rw (split, last, append_assoc) (get_elem?-append v endchar rest),
      )

-- A position behind an end character of a line of the file.
abbrev pub EndsAt : ℕ → List Text → Closing → Type 0
EndsAt endchar lines r =
    (m : ℕ) × (r.position ≡ some (m + 1))
    × (get_elem? lines r.linenum ≡ some r.line)
    × (get_elem? r.line m ≡ some endchar)

-- Such a position, or none at all.
abbrev pub IsValid : ℕ → List Text → Closing → Type 0
IsValid endchar lines r =
    ((r.position ≡ none) × (r.linenum ≡ length lines)) ⊎ EndsAt endchar lines r

module _ (startchar endchar : ℕ) (apart : startchar ≢ endchar) where
  close_lines-IsValid :
      (lines rest : List Text) (line : Text) (linenum n : ℕ)
      → drop (suc linenum) lines ≡ rest
      → IsValid endchar lines
          (close_lines (length lines) startchar endchar rest line linenum (pos (suc n)))
  unfolding close_lines
  close_lines-IsValid lines [] line linenum n e = inl (refl, refl)
  close_lines-IsValid lines (following ∷ rest) line linenum n e =
      let next_line : linenum + 1 ≡ suc linenum = omega arith in
      elim (Bool-cases (leb_ℤ (pos (suc n) +ℤ surplus startchar endchar following) (pos 0))) [
        | inl closes ↦ elim (Option-cases (find_end startchar endchar following 0 (pos (suc n)))) [
          | inl failed ↦ absurd (
              omega (
                arith,
                sum_le n (count startchar following) (count endchar following) closes,
                find_end-none startchar endchar apart following 0 n failed,
              ))
          | inr (k, found) ↦
              let (m, at, char) =
                find_end-some startchar endchar apart following 0 n {k = k} found in
              rw (closes, next_line)
                (inr (
                  m,
                  unfold find_end_of_expression_in_line in found ∙ ap some (omega (arith, at)),
                  get_elem?-of_drop (suc linenum) lines e,
                  char,
                ))
        ]
        | inr open_ ↦
            let (m, same) = positive (pos (suc n) +ℤ surplus startchar endchar following) open_ in
            rw (open_, same, next_line)
              (close_lines-IsValid lines rest following (suc linenum) m
                (drop-of_drop (suc linenum) lines e))
      ]

-- The rest of a line from the place of one of its characters.
drop_at : (n : ℕ) (s : Text) {c : ℕ} → get_elem? s n ≡ some c → (t : Text) × (drop n s ≡ c ∷ t)
drop_at n [] e = cc
drop_at zero (x ∷ s) e = (s, ground arith)
drop_at (suc n) (x ∷ s) e = drop_at n s e

pub end_of-apart : (c : ℕ) {d : ℕ} → end_of c ≡ some d → c ≢ d
unfolding end_of
end_of-apart c e = ground arith

pub close_bracket-IsValid :
    (clean_lines : CleansedLines) (line : Text) (linenum startpos startchar endchar : ℕ)
    → startchar ≢ endchar
    → clean_lines.num_lines ≡ length clean_lines.elided
    → get_elem? clean_lines.elided linenum ≡ some line
    → get_elem? line startpos ≡ some startchar
    → IsValid endchar clean_lines.elided
        (close_bracket clean_lines line linenum startpos startchar endchar)
unfolding close_bracket find_end_of_expression_in_line
close_bracket-IsValid clean_lines line linenum startpos startchar endchar apart size at char =
    let (t, split) = drop_at startpos line char in
    let next_line : linenum + 1 ≡ suc linenum = omega arith in
    let inside : find_end startchar endchar (startchar ∷ t) startpos (pos 0)
        ≡ find_end startchar endchar t (startpos + 1) (pos 1) =
      find_end-start startchar endchar apart t startpos 0 in
    elim (Option-cases (find_end startchar endchar t (startpos + 1) (pos 1))) [
      | inl failed ↦
          let left : count endchar (startchar ∷ t) < count startchar (startchar ∷ t) =
            unfold count in
            ground (arith, find_end-none startchar endchar apart t (startpos + 1) 0 failed) in
          let (m, open_) = difference _ _ left in
          rw (close_bracket, split, inside, failed, split, size, open_, next_line)
            (close_lines-IsValid startchar endchar apart clean_lines.elided _ line linenum m refl)
      | inr (k, found) ↦
          let (m, e, last) =
            find_end-some startchar endchar apart t (startpos + 1) 0 {k = k} found in
          let shift : startpos + suc m ≡ startpos + 1 + m = omega arith in
          rw (close_bracket, split, inside, found)
            (inr (
              startpos + 1 + m,
              ap some e,
              at,
              sym (rw shift at (get_elem?-drop startpos line (suc m))) ∙ rw split last,
            ))
    ]

-- At a bracket of a line of the file, `CloseExpression` returns either the number of lines with no
-- position, or a line of the file and a position in it, just behind a bracket that closes the
-- kind of bracket that stands at the place. It never pairs a line with the position -1.
pub close_expression-IsValid :
    (clean_lines : CleansedLines) (linenum startpos startchar endchar : ℕ) (line : Text)
    → clean_lines.num_lines ≡ length clean_lines.elided
    → get_elem? clean_lines.elided linenum ≡ some line
    → get_elem? line startpos ≡ some startchar
    → end_of startchar ≡ some endchar
    → (r : Closing) × (close_expression clean_lines linenum startpos ≡ some r)
      × IsValid endchar clean_lines.elided r
unfolding close_expression
close_expression-IsValid clean_lines linenum startpos startchar endchar line size at char kind = (
  close_bracket clean_lines line linenum startpos startchar endchar,
  rw (
    close_expression,
    get_or-get_elem? clean_lines.elided linenum [] at,
    char,
    kind,
    get_or-get_elem? clean_lines.elided linenum [] at,
  ),
  close_bracket-IsValid clean_lines line linenum startpos startchar endchar
      (end_of-apart startchar kind) size at char,
)

-- If the text behind the bracket is balanced up to an end character of the same line, then
-- `CloseExpression` returns that line and the position behind that character.
pub close_expression-Balanced :
    (clean_lines : CleansedLines) (linenum startchar endchar : ℕ) (before b after : Text)
    → get_elem? clean_lines.elided linenum ≡ some (before ++ startchar ∷ (b ++ endchar ∷ after))
    → end_of startchar ≡ some endchar
    → Balanced startchar endchar b
    → close_expression clean_lines linenum (length before)
      ≡ some (record {
        line = before ++ startchar ∷ (b ++ endchar ∷ after);
        linenum = linenum;
        position = some (length before + length b + 2);
      })
unfolding close_expression close_bracket find_end_of_expression_in_line
close_expression-Balanced clean_lines linenum startchar endchar before b after at kind h =
    let apart = end_of-apart startchar kind in
    let found : find_end startchar endchar (startchar ∷ (b ++ endchar ∷ after)) (length before)
          (pos 0)
        ≡ some (length before + length b + 2) =
      find_end-start startchar endchar apart (b ++ endchar ∷ after) (length before) 0
      ∙ (find_end_iff startchar endchar apart (b ++ endchar ∷ after) (length before + 1)
            (length before + length b + 2)).1
          (b, after, refl, h, omega arith) in
    rw (
      close_expression,
      get_or-get_elem? clean_lines.elided linenum [] at,
      get_elem?-append before startchar (b ++ endchar ∷ after),
      kind,
      get_or-get_elem? clean_lines.elided linenum [] at,
      close_bracket,
      drop-append before (startchar ∷ (b ++ endchar ∷ after)),
      found,
      get_or-get_elem? clean_lines.elided linenum [] at,
    )
