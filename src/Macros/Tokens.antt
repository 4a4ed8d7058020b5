-- ===== src/Macros/Tokens.antt =====
-- The macros that `CheckCheck` suggests.
use front_server.Common.{
  ◌≡◌, refl, Bool, true, some, List, [], ◌∷◌, inl, inr, Text, codes, text_eq, all, Bool-cases,
  contains,
}
use front_server.Common.{arith}
use front_server.Common.Regex.{is_some}
use front_server.Macros.{
  check_macros, find_macro, first_operator, operators, replaceable_check, check_replacement,
}

find_macro-all :
    (p : Text → Bool) (macros : List Text) (line : Text) {macro : Text}
    → all p macros ≡ true
    → find_macro macros line ≡ some macro
    → p macro ≡ true
unfolding find_macro
find_macro-all p [] line h e = cc
find_macro-all p (m ∷ macros) line {macro} h e = elim (Bool-cases (contains line m)) [
  | inl here ↦ ground (arith, h, e, here)
  | inr later ↦ find_macro-all p macros line {macro = macro} (ground (arith, h)) (rw later at e)
]

first_operator-all :
    (p : Text → Bool) (macro line : Text) (ops : List Text) {operator : Text}
    → all p ops ≡ true
    → first_operator macro line ops ≡ some operator
    → p operator ≡ true
unfolding first_operator
first_operator-all p macro line [] h e = cc
first_operator-all p macro line (o ∷ ops) {operator} h e =
    elim (Bool-cases (replaceable_check o macro line)) [
      | inl here ↦ ground (arith, h, e, here)
      | inr later ↦
          first_operator-all p macro line ops {operator = operator} (ground (arith, h))
            (rw later at e)
    ]

every_replacement :
    all
      (λ macro. all (λ operator. is_some (check_replacement macro operator)) operators)
      check_macros
    ≡ true
unfolding check_replacement codes text_eq
every_replacement = refl

-- For a macro and an operator that `CheckCheck` finds, `_CHECK_REPLACEMENT` has an entry: no
-- `KeyError` occurs.
pub check_replacement-found :
    (raw_line line : Text) {macro operator : Text}
    → find_macro check_macros raw_line ≡ some macro
    → first_operator macro line operators ≡ some operator
    → is_some (check_replacement macro operator) ≡ true
check_replacement-found raw_line line {macro} {operator} m o =
    first_operator-all (λ op. is_some (check_replacement macro op)) macro line operators
      {operator = operator}
      (find_macro-all (λ name. all (λ op. is_some (check_replacement name op)) operators)
        check_macros raw_line {macro = macro} every_replacement m)
      o
