-- ===== src/Inside.antt =====
-- `_GetTextInside` of utils/tools/cpplint.py: the text between a punctuation mark and the one that
-- closes it. Where the search for the start pattern ends is a parameter.
pub mod Matching
mod Examples
use front_server.Common.{
  ℕ, zero, suc, ◌+◌, ◌-◌, Bool, true, ◌||◌, Option, none, some, List, [], ◌∷◌, ◌==◌, if◌then◌else◌,
  take, drop, get_elem?, Text,
}

-- `matching_punctuation`
pub matching_punctuation : ℕ → Option ℕ
matching_punctuation c =
    if c == b'('
    then some b')'
    else if c == b'{'
    then some b'}'
    else if c == b'['
    then some b']'
    else none

-- `closing_punctuation`
pub closing_punctuation : ℕ → Bool
closing_punctuation c = c == b')' || c == b'}' || c == b']'

-- The loop over what is left of the text; the stack has its top first. The result is the position
-- at which the stack becomes empty, and `none` for the two returns of `None`.
pub close_punctuation : Text → List ℕ → ℕ → Option ℕ
unfolding matching_punctuation closing_punctuation
close_punctuation s [] position = some position
close_punctuation [] (top ∷ stack) position = none
close_punctuation (c ∷ s) (top ∷ stack) position =
    let shut = close_punctuation s stack (position + 1) in
    let passed = close_punctuation s (top ∷ stack) (position + 1) in
    let opened = λ (closer : ℕ). close_punctuation s (closer ∷ top ∷ stack) (position + 1) in
    if c == top
    then shut
    else if closing_punctuation c
    then none
    else elim (matching_punctuation c) [ none ↦ passed | some closer ↦ opened closer ]

-- The part behind the search, from the punctuation mark before `start_position` on.
pub text_from : Text → ℕ → ℕ → Option Text
unfolding close_punctuation
text_from text start_position closer =
    elim (close_punctuation (drop start_position text) (closer ∷ []) start_position) [
      | none ↦ none
      | some position ↦ some (take (position - 1 - start_position) (drop start_position text))
    ]

-- `_GetTextInside`, for the position behind the match of the start pattern, if there is one. The
-- outer `none` is a failed `assert`, the inner one is `None`.
unfoldable pub get_text_inside : Text → Option ℕ → Option (Option Text)
unfolding text_from
get_text_inside text none = some none
get_text_inside text (some zero) = none
get_text_inside text (some (suc n)) = elim (get_elem? text n) [
  | none ↦ none
  | some opener ↦ elim (matching_punctuation opener) [
    | none ↦ none
    | some closer ↦ some (text_from text (suc n) closer)
  ]
]

-- Unfolding this unfolds the functions of this module, for a run at a concrete input.
unfoldable pub inside_run : Unit {0}
unfolding matching_punctuation get_text_inside
inside_run = tt
