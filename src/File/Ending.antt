-- ===== src/File/Ending.antt =====
-- `CheckForNewlineAtEOF` on the text of a file.
use front_server.Common.{
  ℕ, ◌-◌, ◌≡◌, refl, sym, ap, ◌∙◌, inl, inr, Bool, true, false, List, [], ◌∷◌, ◌++◌, ltb, ◌==◌,
  if◌then◌else◌, Bool-cases, arith, length, length-append, Text, codes, text_eq, split_on,
}
use front_server.Lint.{report_at}
use front_server.File.{last_but_one, check_for_newline_at_eof}

-- The text is empty, or its last character is a newline.
abbrev pub ends_line : Text → Bool
ends_line [] = true
ends_line (c ∷ []) = c == 10
ends_line (c ∷ d ∷ s) = ends_line (d ∷ s)

-- The lines of `ProcessFileData`, between its two markers.
abbrev pub marked : Text → Text → Text → List Text
marked first text last = first ∷ (split_on 10 text ++ last ∷ [])

abbrev last_line : Text → List Text → Text
last_line w [] = w
last_line w (v ∷ vs) = last_line v vs

last_but_one-append :
    (x w : Text) (ws : List Text) (last : Text)
    → last_but_one (x ∷ ((w ∷ ws) ++ last ∷ [])) ≡ last_line w ws
unfolding last_but_one
last_but_one-append x w [] last = refl
last_but_one-append x w (v ∷ ws) last = last_but_one-append w v ws last

-- The first line of a text and the others; the last one is empty exactly if the text ends a line.
record IsSplit (s w : Text) (ws : List Text) : Type 0 where
  lines : split_on 10 s ≡ w ∷ ws
  last : text_eq (last_line w ws) [] ≡ ends_line s
  single : ws ≡ [] → w ≡ s

ends_line-cons : (a : ℕ) (s : Text) → (a == 10) ≡ true → ends_line (a ∷ s) ≡ ends_line s
ends_line-cons a [] h = h
ends_line-cons a (c ∷ s) h = refl

last-cons :
    (a : ℕ) (s w : Text) (ws : List Text)
    → (a == 10) ≡ false
    → IsSplit s w ws
    → text_eq (last_line (a ∷ w) ws) [] ≡ ends_line (a ∷ s)
unfolding split_on text_eq
last-cons a [] w [] h i = sym h
last-cons a [] w (v ∷ vs) h i = absurd (ground (arith, i.lines))
last-cons a (c ∷ s) w [] h i = rw (i.single refl) at i.last
last-cons a (c ∷ s) w (v ∷ vs) h i = i.last

IsSplit-cases : (s : Text) → (w : Text) × (ws : List Text) × IsSplit s w ws
unfolding split_on text_eq
IsSplit-cases [] = ([], [], record { lines = refl; last = refl; single = λ _. refl })
IsSplit-cases (a ∷ s) =
    let (w, ws, i) = IsSplit-cases s in
    elim (Bool-cases (a == 10)) [
      | inl newline ↦ (
        [],
        w ∷ ws,
        record {
          lines = rw (newline, i.lines);
          last = i.last ∙ sym (ends_line-cons a s newline);
          single = λ e. absurd (ground arith);
        },
      )
      | inr other ↦ (
        a ∷ w,
        ws,
        record {
          lines = rw (other, i.lines);
          last = last-cons a s w ws other i;
          single = λ e. ap (◌∷◌ a) (i.single e);
        },
      )
    ]

-- `CheckForNewlineAtEOF` is silent exactly on a text that is empty or ends with a newline, and
-- otherwise makes one report, on the text's last line.
pub check_for_newline_at_eof-ends_line :
    (first text last : Text)
    → (check_for_newline_at_eof (marked first text last) ≡ (
        if ends_line text
        then []
        else report_at
            (length (split_on 10 text))
            (codes "whitespace/ending_newline")
            5
            (codes "Could not find a newline character at the end of the file.")
          ∷ []))
unfolding check_for_newline_at_eof
check_for_newline_at_eof-ends_line first text last =
    let (w, ws, i) = IsSplit-cases text in
    let e : last_but_one (marked first text last) ≡ last_line w ws =
      rw i.lines (last_but_one-append first w ws last) in
    let long : ltb (length (marked first text last)) 3 ≡ false =
      rw i.lines (ground (arith, length-append ws (last ∷ []))) in
    let n : length (marked first text last) - 2 ≡ length (split_on 10 text) =
      omega (arith, length-append (split_on 10 text) (last ∷ [])) in
    elim (Bool-cases (ends_line text)) [
      | inl ends ↦ rw (long, e, i.last, n, ends)
      | inr more ↦ rw (long, e, i.last, n, more)
    ]
