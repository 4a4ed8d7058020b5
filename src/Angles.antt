-- ===== src/Angles.antt =====
-- `FindNextMatchingAngleBracket` and `FindPreviousMatchingAngleBracket` of utils/tools/cpplint.py.
pub mod Template
mod Examples
use mathlib.Core.List.{reverse}
use front_server.Common.{
  ℕ, ◌+◌, Bool, true, false, ◌||◌, List, [], ◌∷◌, ◌==◌, if◌then◌else◌, take, drop, Text, codes,
}
use front_server.Common.Regex.{in_set}
use front_server.Cleanse.{CleansedLines}

-- The marks that one of the two functions looks for: the bracket it begins at and the one that
-- matches it, the marks that it pushes on its stack, and the marks that take one off again.
pub record Marks : Type 0 where
  pub own : ℕ
  pub match : ℕ
  pub opens : ℕ → Bool
  pub closes : ℕ → Bool

-- The marks of `FindNextMatchingAngleBracket`.
pub next_marks : Marks
unfolding in_set codes
next_marks = record {
  own = b'<';
  match = b'>';
  opens = in_set (codes "<([");
  closes = in_set (codes ")]");
}

-- The marks of `FindPreviousMatchingAngleBracket`.
pub previous_marks : Marks
unfolding in_set codes
previous_marks = record {
  own = b'>';
  match = b'<';
  opens = in_set (codes ">)]");
  closes = in_set (codes "([");
}

-- [<>(),;\[\]]
pub is_operator : ℕ → Bool
unfolding in_set codes
is_operator c = in_set (codes "<>(),;[]") c

-- What an operator leads to: the end of the search, or the stack with its top apart.
pub data Verdict : Type 0 where
  decided : Bool → Verdict
  pending : ℕ → List ℕ → Verdict

-- `nesting_stack.pop()`, with the test whether the stack is empty. A stack whose top is not the
-- bracket of the search has that bracket below.
pub pop_mark : List ℕ → Verdict
pop_mark [] = decided true
pop_mark (top ∷ below) = pending top below

-- The update of the stack for one operator.
pub step : Marks → ℕ → ℕ → List ℕ → Verdict
unfolding pop_mark
step m operator top below =
    if top == m.own
    then (if m.opens operator
        then pending operator (top ∷ below)
        else if operator == m.match
        then pop_mark below
        else if operator == b','
        then decided true
        else decided false)
    else if m.opens operator
    then pending operator (top ∷ below)
    else if m.closes operator
    then pop_mark below
    else pending top below

-- The rounds over one line: each goes on behind the next operator.
pub scan : Marks → Text → ℕ → List ℕ → Verdict
unfolding is_operator step
scan m [] top below = pending top below
scan m (c ∷ s) top below = elim (is_operator c) [
  | false ↦ scan m s top below
  | true ↦ elim (step m c top below) [
    | decided b ↦ decided b
    | pending top' below' ↦ scan m s top' below'
  ]
]

-- The loop over the lines; `exhausted` is the result behind the last of them.
pub scan_lines : Marks → Bool → List Text → ℕ → List ℕ → Bool
unfolding scan
scan_lines m exhausted [] top below = exhausted
scan_lines m exhausted (line ∷ lines) top below = elim (scan m line top below) [
  | decided b ↦ b
  | pending top' below' ↦ scan_lines m exhausted lines top' below'
]

-- `FindNextMatchingAngleBracket`
unfoldable pub find_next_matching_angle_bracket : CleansedLines → ℕ → Text → Bool
unfolding scan_lines next_marks
find_next_matching_angle_bracket clean_lines linenum init_suffix =
    scan_lines next_marks true (init_suffix ∷ drop (linenum + 1) clean_lines.elided) b'<' []

-- The lines from the one in front of the number up to the first, each from its end.
pub lines_before : List Text → ℕ → List Text
lines_before elided linenum = reverse_all (reverse (take linenum elided))
  where
    reverse_all : List Text → List Text
    reverse_all [] = []
    reverse_all (line ∷ lines) = reverse line ∷ reverse_all lines

-- `FindPreviousMatchingAngleBracket`, which reads each line from its end.
unfoldable pub find_previous_matching_angle_bracket : CleansedLines → ℕ → Text → Bool
unfolding scan_lines previous_marks lines_before
find_previous_matching_angle_bracket clean_lines linenum init_prefix =
    scan_lines previous_marks false (reverse init_prefix ∷ lines_before clean_lines.elided linenum)
      b'>' []
