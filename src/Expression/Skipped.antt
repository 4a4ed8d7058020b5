-- ===== src/Expression/Skipped.antt =====
-- Where `CloseExpression` misses the end of an expression on a later line.
use front_server.Common.{
  ℕ, ◌+◌, ◌<◌, ◌≡◌, ◌≢◌, refl, sym, ap, ◌∙◌, ◌⊎◌, inl, inr, none, some, List, [], ◌∷◌, ◌++◌,
  append-nil, Bool-cases, arith, length, get_elem?-append, get_elem?, get_or-get_elem?, drop,
  drop-append, Text, count,
}
use front_server.Common.Int.{ℤ, pos, ◌+ℤ◌, leb_ℤ}
use front_server.Cleanse.{CleansedLines}
use front_server.Expression.{
  find_end, find_end_of_expression_in_line, Closing, surplus, close_lines, end_of, close_bracket,
  close_expression,
}
use front_server.Expression.Brackets.{
  Balanced, nil, plain, nested, find_end-start, find_end-Balanced,
}
use front_server.Expression.Lines.{end_of-apart}

-- The result has no position, or lies behind a line.
abbrev pub IsBehind : ℕ → Closing → Type 0
IsBehind linenum r = (r.position ≡ none) ⊎ (linenum < r.linenum)

close_lines-IsBehind :
    (num_lines startchar endchar : ℕ) (rest : List Text) (line : Text) (linenum : ℕ) (n : ℤ)
    → IsBehind linenum (close_lines num_lines startchar endchar rest line linenum n)
unfolding close_lines
close_lines-IsBehind num_lines startchar endchar [] line linenum n = inl refl
close_lines-IsBehind num_lines startchar endchar (next ∷ rest) line linenum n =
    elim (Bool-cases (leb_ℤ (n +ℤ surplus startchar endchar next) (pos 0))) [
      | inl closes ↦ rw closes (inr (omega arith))
      | inr open_ ↦
          elim (close_lines-IsBehind num_lines startchar endchar rest next (linenum + 1)
            (n +ℤ surplus startchar endchar next)) [
              | inl missing ↦ rw open_ (inl missing)
              | inr later ↦ rw open_ (inr (omega arith))
            ]
    ]

module _ (startchar endchar : ℕ) (apart : startchar ≢ endchar) where
  count-append : (c : ℕ) (s t : Text) → count c (s ++ t) ≡ count c s + count c t
  unfolding count
  count-append c [] t = omega arith
  count-append c (a ∷ s) t = ground (arith, count-append c s t)

  -- A balanced text has as many brackets of the one kind as of the other.
  Balanced-count : {b : Text} → Balanced startchar endchar b → count endchar b ≡ count startchar b
  unfolding count
  Balanced-count nil = refl
  Balanced-count (plain c p q h) = ground (arith, Balanced-count h)
  Balanced-count (nested {s = s} {t = t} h k) = ground (
    arith,
    Balanced-count h,
    Balanced-count k,
    count-append startchar s (endchar ∷ t),
    count-append endchar s (endchar ∷ t),
    apart,
  )

  -- A bracket with a balanced text behind it stays open, and is the one that is surplus.
  open-Balanced :
      {b : Text} (i : ℕ)
      → Balanced startchar endchar b
      → find_end startchar endchar (startchar ∷ b) i (pos 0) ≡ none
  unfolding find_end
  open-Balanced {b} i h =
      find_end-start startchar endchar apart b i 0
      ∙ ap (λ s. find_end startchar endchar s (i + 1) (pos 1)) (sym (append-nil b))
      ∙ find_end-Balanced startchar endchar apart [] (i + 1) 0 h

  surplus-Balanced :
      {b : Text} → Balanced startchar endchar b → surplus startchar endchar (startchar ∷ b) ≡ pos 1
  unfolding count
  surplus-Balanced h = ground (arith, Balanced-count h, apart)

  close_lines-skips :
      (num_lines : ℕ) (following : Text) (rest : List Text) (line : Text) (linenum : ℕ)
      → count endchar following ≡ count startchar following
      → IsBehind
          (linenum + 1)
          (close_lines num_lines startchar endchar (following ∷ rest) line linenum (pos 1))
  unfolding close_lines ◌+ℤ◌
  close_lines-skips num_lines following rest line linenum e =
      let same : pos 1 +ℤ surplus startchar endchar following ≡ pos 1 = ground arith in
      rw same
        (close_lines-IsBehind num_lines startchar endchar rest following (linenum + 1) (pos 1))

-- A bracket with a balanced text behind it up to the end of its line, and a balanced text up to
-- an end character on the next line, is closed there. If that line has as many start characters as
-- end characters, `CloseExpression` still goes past it: it returns no position, or one on a line
-- behind it.
pub close_expression-skips :
    (clean_lines : CleansedLines) (linenum startchar endchar : ℕ) (before a b after : Text)
    (rest : List Text)
    → get_elem? clean_lines.elided linenum ≡ some (before ++ startchar ∷ a)
    → drop (linenum + 1) clean_lines.elided ≡ (b ++ endchar ∷ after) ∷ rest
    → end_of startchar ≡ some endchar
    → Balanced startchar endchar a
    → Balanced startchar endchar b
    → count endchar (b ++ endchar ∷ after) ≡ count startchar (b ++ endchar ∷ after)
    → (r : Closing) × (close_expression clean_lines linenum (length before) ≡ some r)
      × IsBehind (linenum + 1) r
unfolding close_expression close_bracket find_end_of_expression_in_line
close_expression-skips clean_lines linenum startchar endchar before a b after rest at next kind h k
      e =
    let apart = end_of-apart startchar kind in
    let line = get_or-get_elem? clean_lines.elided linenum [] at in
    let loop : Text → ℤ → Closing = λ text n.
      close_lines clean_lines.num_lines startchar endchar ((b ++ endchar ∷ after) ∷ rest) text
        linenum n in
    (
      close_lines clean_lines.num_lines startchar endchar ((b ++ endchar ∷ after) ∷ rest)
          (before ++ startchar ∷ a) linenum (pos 1),
      rw
          (
            close_expression,
            get_or-get_elem? clean_lines.elided linenum [] at,
            get_elem?-append before startchar a,
            kind,
            get_or-get_elem? clean_lines.elided linenum [] at,
            close_bracket,
            drop-append before (startchar ∷ a),
            open-Balanced startchar endchar apart (length before) h,
            next,
          )
          (ap
              (λ (text : Text).
                some (loop text (surplus startchar endchar (drop (length before) text))))
              line
            ∙ ap
                (λ (text : Text).
                  some (loop (before ++ startchar ∷ a) (surplus startchar endchar text)))
                (drop-append before (startchar ∷ a))
            ∙ ap (λ (n : ℤ). some (loop (before ++ startchar ∷ a) n))
                (surplus-Balanced startchar endchar apart h)),
      close_lines-skips startchar endchar apart clean_lines.num_lines (b ++ endchar ∷ after) rest
          (before ++ startchar ∷ a) linenum e,
    )
