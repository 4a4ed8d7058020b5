-- ===== src/Angles/Template.antt =====
-- Brackets that the search for a matching angle bracket goes past.
use front_server.Common.{
  ℕ, ◌≡◌, refl, ap, ◌∙◌, Bool, true, false, List, [], ◌∷◌, ◌++◌, append_assoc, arith, ◌==◌, Text,
}
use front_server.Cleanse.{CleansedLines}
use front_server.Angles.{
  next_marks, is_operator, decided, pop_mark, step, scan, scan_lines,
  find_next_matching_angle_bracket,
}

-- What may stand between an angle bracket and its match, or, for `false`, between a parenthesis or
-- square bracket and its match. Only there commas and semicolons may stand.
pub data Nested : Bool → Text → Type 0 where
  done : {angle : Bool} → Nested angle []
  other :
      {angle : Bool} {c : ℕ} {s : Text}
      → is_operator c ≡ false
      → Nested angle s
      → Nested angle (c ∷ s)
  comma : {s : Text} → Nested false s → Nested false (b',' ∷ s)
  semicolon : {s : Text} → Nested false s → Nested false (b';' ∷ s)
  template :
      {angle : Bool} {t s : Text}
      → Nested true t
      → Nested angle s
      → Nested angle (b'<' ∷ t ++ b'>' ∷ s)
  parentheses :
      {angle : Bool} {t s : Text}
      → Nested false t
      → Nested angle s
      → Nested angle (b'(' ∷ t ++ b')' ∷ s)
  brackets :
      {angle : Bool} {t s : Text}
      → Nested false t
      → Nested angle s
      → Nested angle (b'[' ∷ t ++ b']' ∷ s)

-- The kind of the mark at the top of the stack.
abbrev IsTop : Bool → ℕ → Type 0
IsTop true top = top ≡ b'<'
IsTop false top = (top == b'<') ≡ false

push-mark :
    (c : ℕ) (s : Text) (top : ℕ) (below : List ℕ)
    → is_operator c ≡ true
    → next_marks.opens c ≡ true
    → scan next_marks (c ∷ s) top below ≡ scan next_marks s c (top ∷ below)
unfolding scan step
push-mark c s top below e o = ground arith

scan-Nested :
    {angle : Bool} {t : Text}
    → Nested angle t
    → (rest : Text) (top : ℕ) (below : List ℕ) → IsTop angle top
    → scan next_marks (t ++ rest) top below ≡ scan next_marks rest top below
unfolding scan step next_marks is_operator pop_mark
scan-Nested done rest top below h = refl
scan-Nested (other {c = c} {s = s} e n) rest top below h =
    rw (scan, e) (scan-Nested n rest top below h)
scan-Nested (comma n) rest top below h = rw (scan, step, h) (scan-Nested n rest top below h)
scan-Nested (semicolon n) rest top below h = rw (scan, step, h) (scan-Nested n rest top below h)
scan-Nested (template {angle} {t} {s} n n') rest top below h =
    push-mark b'<' ((t ++ b'>' ∷ s) ++ rest) top below refl refl
    ∙ ap (λ (u : Text). scan next_marks u b'<' (top ∷ below)) (append_assoc t (b'>' ∷ s) rest)
    ∙ scan-Nested n (b'>' ∷ s ++ rest) b'<' (top ∷ below) refl
    ∙ scan-Nested n' rest top below h
scan-Nested (parentheses {angle} {t} {s} n n') rest top below h =
    push-mark b'(' ((t ++ b')' ∷ s) ++ rest) top below refl refl
    ∙ ap (λ (u : Text). scan next_marks u b'(' (top ∷ below)) (append_assoc t (b')' ∷ s) rest)
    ∙ scan-Nested n (b')' ∷ s ++ rest) b'(' (top ∷ below) refl
    ∙ scan-Nested n' rest top below h
scan-Nested (brackets {angle} {t} {s} n n') rest top below h =
    push-mark b'[' ((t ++ b']' ∷ s) ++ rest) top below refl refl
    ∙ ap (λ (u : Text). scan next_marks u b'[' (top ∷ below)) (append_assoc t (b']' ∷ s) rest)
    ∙ scan-Nested n (b']' ∷ s ++ rest) b'[' (top ∷ below) refl
    ∙ scan-Nested n' rest top below h

-- The marks that the search does not go past, and what each of them says.
pub data Decides : ℕ → Bool → Type 0 where
  by_match : Decides b'>' true
  by_comma : Decides b',' true
  by_parenthesis : Decides b')' false
  by_bracket : Decides b']' false
  by_semicolon : Decides b';' false

scan-Decides :
    {c : ℕ} {b : Bool} (rest : Text) → Decides c b → scan next_marks (c ∷ rest) b'<' [] ≡ decided b
unfolding scan step pop_mark next_marks is_operator
scan-Decides rest by_match = refl
scan-Decides rest by_comma = refl
scan-Decides rest by_parenthesis = refl
scan-Decides rest by_bracket = refl
scan-Decides rest by_semicolon = refl

-- Behind a `<` and a well-nested text, the first `>`, comma, closing bracket or semicolon of the same
-- level decides what `FindNextMatchingAngleBracket` returns: that a bracket matches for `>` and the
-- comma, and that none does for the others, whatever comes behind and on the next lines.
pub find_next_matching_angle_bracket-Nested :
    (clean_lines : CleansedLines) (linenum : ℕ) {t : Text} {c : ℕ} {b : Bool} (rest : Text)
    → Nested true t
    → Decides c b
    → find_next_matching_angle_bracket clean_lines linenum (t ++ c ∷ rest) ≡ b
unfolding find_next_matching_angle_bracket scan_lines
find_next_matching_angle_bracket-Nested clean_lines linenum {t} {c} rest n d =
    rw (scan_lines, scan-Nested n (c ∷ rest) b'<' [] refl, scan-Decides rest d)
