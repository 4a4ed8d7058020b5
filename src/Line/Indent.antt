-- ===== src/Line/Indent.antt =====
-- Indents, and the search for the line that is not blank before a line.
use front_server.Common.{
  ℕ, zero, suc, ◌-◌, ◌≤◌, ◌<◌, ◌≡◌, refl, inl, inr, true, false, Option, none, some, List, [], ◌∷◌,
  ◌==◌, Bool-cases, arith, All, take, drop, length, Text,
}
use front_server.Common.Regex.Laws.{Stops}
use front_server.Cleanse.{CleansedLines, line_at}
use front_server.Line.{
  is_blank_line, previous_non_blank, get_previous_non_blank_line, indent_length, bad_after,
  is_bad_indent,
}

indent_length-le : (s : Text) → indent_length s ≤ length s
unfolding indent_length
indent_length-le [] = omega arith
indent_length-le (c ∷ s) = ground (arith, indent_length-le s)

-- `IndentLength` counts the spaces that a line begins with, up to the first other character.
pub indent_length_lem :
    (s : Text)
    → All (λ c. c ≡ 32) (take (indent_length s) s)
      × Stops (λ c. c == 32) (drop (indent_length s) s)
      × (indent_length s ≤ length s)
unfolding indent_length
indent_length_lem [] = (tt, tt, omega arith)
indent_length_lem (c ∷ s) =
    let (spaces, stops, fits) = indent_length_lem s in
    elim (Bool-cases (c == 32)) [
      | inl space ↦ rw space ((ground arith, spaces), stops, omega arith)
      | inr other ↦ rw other (tt, other, omega arith)
    ]

-- A line that has the indent of the line before it is never found badly indented.
pub is_bad_indent-aligned :
    (n : ℕ) (line : Text) (linenum : ℕ) (raw_lines : List Text)
    → 0 < linenum
    → indent_length (line_at raw_lines (linenum - 1)) ≡ n
    → is_bad_indent n line linenum raw_lines ≡ false
unfolding is_bad_indent bad_after
is_bad_indent-aligned n line linenum raw_lines pos same =
    ground (arith, indent_length-le (line_at raw_lines (linenum - 1)))

-- The nearest line before the `n`-th that is not blank, and `none` if there is none.
abbrev pub IsNearest : List Text → ℕ → Option (Text × ℕ) → Type 0
IsNearest lines n none = (j : ℕ) → j < n → is_blank_line (line_at lines j) ≡ true
IsNearest lines n (some (line, j)) =
    (j < n)
    × (line ≡ line_at lines j)
    × (is_blank_line line ≡ false)
    × ((i : ℕ) → j < i → i < n → is_blank_line (line_at lines i) ≡ true)

previous_non_blank-IsNearest :
    (lines : List Text) (n : ℕ) → IsNearest lines n (previous_non_blank lines n)
unfolding previous_non_blank
previous_non_blank-IsNearest lines zero = λ j h. absurd (omega arith)
previous_non_blank-IsNearest lines (suc n) = elim (Bool-cases (is_blank_line (line_at lines n))) [
  | inl blank ↦
      rw blank (further blank (previous_non_blank lines n) (previous_non_blank-IsNearest lines n))
  | inr text ↦ rw text (omega arith, refl, text, λ i p q. absurd (omega arith))
]
  where
    last_blank :
        is_blank_line (line_at lines n) ≡ true
        → (i : ℕ) → (i < n → is_blank_line (line_at lines i) ≡ true)
        → i < suc n
        → is_blank_line (line_at lines i) ≡ true
    last_blank blank i earlier h = elim (Bool-cases (i == n)) [
      | inl same ↦ let e : i ≡ n = ground arith in rw e blank
      | inr other ↦ earlier (ground arith)
    ]

    further :
        is_blank_line (line_at lines n) ≡ true
        → (r : Option (Text × ℕ)) → IsNearest lines n r
        → IsNearest lines (suc n) r
    further blank none h = λ j p. last_blank blank j (h j) p
    further blank (some (line, j)) (p, same, text, between) =
        (omega arith, same, text, λ i lo hi. last_blank blank i (between i lo) hi)

-- `GetPreviousNonBlankLine` finds the nearest line before the given one that is not blank, with
-- its number, and nothing exactly if all the lines before are blank.
pub get_previous_non_blank_line-IsNearest :
    (clean_lines : CleansedLines) (linenum : ℕ)
    → IsNearest clean_lines.elided linenum (get_previous_non_blank_line clean_lines linenum)
unfolding get_previous_non_blank_line
get_previous_non_blank_line-IsNearest clean_lines linenum =
    previous_non_blank-IsNearest clean_lines.elided linenum
