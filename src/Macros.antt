-- ===== src/Macros.antt =====
-- `CheckCheck` with `ReplaceableCheck`, and `CheckAltTokens` of utils/tools/cpplint.py.
pub mod Tokens
mod Examples
use front_server.Common.{
  ℕ, Bool, true, false, ◌&&◌, ◌||◌, Option, none, some, List, [], ◌∷◌, ◌++◌, not, ◌==◌,
  if◌then◌else◌, Text, codes, text_eq, contains, map,
}
use front_server.Common.Regex.{
  Regex, bol, eol, star, plus, optional, group, space, dot, lit, chars, none_in, one_in, alt, ahead,
  all_of, any_of, finds, matches, last_group, sat,
}
use front_server.Common.Patterns.{digit, in_range, iterate}
use front_server.Lint.{Log, report_at}
use front_server.Cleanse.{CleansedLines, line_at}

-- `_CHECK_MACROS`
abbrev pub check_macros : List Text
check_macros =
    codes "DCHECK"
    ∷ codes "CHECK"
    ∷ codes "EXPECT_TRUE_M"
    ∷ codes "EXPECT_TRUE"
    ∷ codes "ASSERT_TRUE_M"
    ∷ codes "ASSERT_TRUE"
    ∷ codes "EXPECT_FALSE_M"
    ∷ codes "EXPECT_FALSE"
    ∷ codes "ASSERT_FALSE_M"
    ∷ codes "ASSERT_FALSE"
    ∷ []

-- The first macro that stands in the line.
pub find_macro : List Text → Text → Option Text
find_macro [] line = none
find_macro (macro ∷ macros) line =
    let rest = find_macro macros line in if contains line macro then some macro else rest

abbrev pub look_up : List (Text × Text) → Text → Option Text
look_up [] key = none
look_up ((k, v) ∷ d) key = if text_eq k key then some v else look_up d key

-- The names of the operators in the macros, and of their negations.
abbrev pub operator_names : List (Text × Text)
operator_names =
    (codes "==", codes "EQ")
    ∷ (codes "!=", codes "NE")
    ∷ (codes ">=", codes "GE")
    ∷ (codes ">", codes "GT")
    ∷ (codes "<=", codes "LE")
    ∷ (codes "<", codes "LT")
    ∷ []

abbrev pub inverse_names : List (Text × Text)
inverse_names =
    (codes "==", codes "NE")
    ∷ (codes "!=", codes "EQ")
    ∷ (codes ">=", codes "LT")
    ∷ (codes ">", codes "LE")
    ∷ (codes "<=", codes "GT")
    ∷ (codes "<", codes "GE")
    ∷ []

-- How the macros are replaced: what stands in front of and behind the name of the operator, and the
-- names.
pub replacement_shape : Text → Option (Text × Text × List (Text × Text))
replacement_shape macro =
    if text_eq macro (codes "DCHECK")
    then some (codes "DCHECK_", [], operator_names)
    else if text_eq macro (codes "CHECK")
    then some (codes "CHECK_", [], operator_names)
    else if text_eq macro (codes "EXPECT_TRUE")
    then some (codes "EXPECT_", [], operator_names)
    else if text_eq macro (codes "ASSERT_TRUE")
    then some (codes "ASSERT_", [], operator_names)
    else if text_eq macro (codes "EXPECT_TRUE_M")
    then some (codes "EXPECT_", codes "_M", operator_names)
    else if text_eq macro (codes "ASSERT_TRUE_M")
    then some (codes "ASSERT_", codes "_M", operator_names)
    else if text_eq macro (codes "EXPECT_FALSE")
    then some (codes "EXPECT_", [], inverse_names)
    else if text_eq macro (codes "ASSERT_FALSE")
    then some (codes "ASSERT_", [], inverse_names)
    else if text_eq macro (codes "EXPECT_FALSE_M")
    then some (codes "EXPECT_", codes "_M", inverse_names)
    else if text_eq macro (codes "ASSERT_FALSE_M")
    then some (codes "ASSERT_", codes "_M", inverse_names)
    else none

-- `_CHECK_REPLACEMENT[macro][operator]`, with `none` for a `KeyError`
pub check_replacement : Text → Text → Option Text
unfolding replacement_shape
check_replacement macro operator = elim (replacement_shape macro) [
  | none ↦ none
  | some (front, back, names) ↦ elim (look_up names operator) [
    | none ↦ none
    | some name ↦ some (front ++ name ++ back)
  ]
]

-- ([-+]?(\d+|0[xX][0-9a-fA-F]+)[lLuU]{0,3}|".*"|\'.*\')
match_constant : Regex
unfolding digit
match_constant = any_of (
    all_of (
      optional (one_in "-+")
      ∷ alt (plus digit) (
          all_of (
            lit "0"
            ∷ one_in "xX"
            ∷ plus (sat (λ c. in_range b'0' b'9' c || in_range b'a' b'f' c || in_range b'A' b'F' c))
            ∷ []))
      ∷ optional (one_in "lLuU")
      ∷ optional (one_in "lLuU")
      ∷ optional (one_in "lLuU")
      ∷ [])
    ∷ all_of (lit "\"" ∷ star dot ∷ lit "\"" ∷ [])
    ∷ all_of (lit "'" ∷ star dot ∷ lit "'" ∷ [])
    ∷ [])

-- `match_this`
match_this : Text → Text → Regex
unfolding match_constant
match_this operator macro = all_of (
    star space
    ∷ chars macro
    ∷ lit "("
    ∷ alt
        (all_of (
          star space ∷ match_constant ∷ star space ∷ chars operator ∷ none_in "<>" ∷ star dot ∷ []))
        (all_of (
          star dot
          ∷ none_in "<>"
          ∷ chars operator
          ∷ star space
          ∷ match_constant
          ∷ star space
          ∷ lit ")"
          ∷ []))
    ∷ [])

-- `ReplaceableCheck`
unfoldable pub replaceable_check : Text → Text → Text → Bool
unfolding match_this
replaceable_check operator macro line =
    matches (match_this operator macro) line
    && not (finds (any_of (lit "NULL" ∷ lit "&&" ∷ lit "||" ∷ [])) line)

-- The operators that `CheckCheck` tries in turn.
abbrev pub operators : List Text
operators = codes "==" ∷ codes "!=" ∷ codes ">=" ∷ codes ">" ∷ codes "<=" ∷ codes "<" ∷ []

pub first_operator : Text → Text → List Text → Option Text
unfolding replaceable_check
first_operator macro line [] = none
first_operator macro line (operator ∷ ops) =
    let rest = first_operator macro line ops in
    if replaceable_check operator macro line then some operator else rest

replacement_error : ℕ → Text → Text → Log
unfolding check_replacement
replacement_error linenum macro operator = elim (check_replacement macro operator) [
  | none ↦ []
  | some replacement ↦
      report_at linenum (codes "readability/check") 2 (
        codes "Consider using "
        ++ replacement
        ++ codes " instead of "
        ++ macro
        ++ codes "(a "
        ++ operator
        ++ codes " b)")
      ∷ []
]

-- `CheckCheck`. The `KeyError` of the dictionary cannot occur: `check_replacement` has an entry for
-- each macro and operator.
unfoldable pub check_check : CleansedLines → ℕ → Log
unfolding find_macro first_operator replacement_error
check_check clean_lines linenum =
    elim (find_macro check_macros (line_at clean_lines.raw_lines linenum)) [
      | none ↦ []
      | some macro ↦ elim (first_operator macro (line_at clean_lines.elided linenum) operators) [
        | none ↦ []
        | some operator ↦ replacement_error linenum macro operator
      ]
    ]

-- `_ALT_TOKEN_REPLACEMENT`
abbrev pub alt_token_replacement : List (Text × Text)
alt_token_replacement =
    (codes "and", codes "&&")
    ∷ (codes "bitor", codes "|")
    ∷ (codes "or", codes "||")
    ∷ (codes "xor", codes "^")
    ∷ (codes "compl", codes "~")
    ∷ (codes "bitand", codes "&")
    ∷ (codes "and_eq", codes "&=")
    ∷ (codes "or_eq", codes "|=")
    ∷ (codes "xor_eq", codes "^=")
    ∷ (codes "not", codes "!")
    ∷ (codes "not_eq", codes "!=")
    ∷ []

token_literals : List (Text × Text) → List Regex
token_literals [] = []
token_literals ((token, _) ∷ d) = chars token ∷ token_literals d

-- `_ALT_TOKEN_REPLACEMENT_PATTERN`. What follows a token tells the tokens apart, so the order of the
-- dictionary's keys does not matter.
alt_token_pattern : Regex
unfolding token_literals
alt_token_pattern = all_of (
    one_in " =()"
    ∷ group 1 (any_of (token_literals alt_token_replacement))
    ∷ ahead true (alt (one_in " (") eol)
    ∷ [])

alt_token_errors : ℕ → List (List (ℕ × Text)) → Log
unfolding last_group
alt_token_errors linenum [] = []
alt_token_errors linenum (groups ∷ ms) = elim (last_group 1 groups) [
  | none ↦ alt_token_errors linenum ms
  | some token ↦ elim (look_up alt_token_replacement token) [
    | none ↦ alt_token_errors linenum ms
    | some operator ↦
        report_at linenum (codes "readability/alt_tokens") 2
          (codes "Use operator " ++ operator ++ codes " instead of " ++ token)
        ∷ alt_token_errors linenum ms
  ]
]

-- `CheckAltTokens`
unfoldable pub check_alt_tokens : CleansedLines → ℕ → Log
unfolding alt_token_pattern alt_token_errors iterate
check_alt_tokens clean_lines linenum =
    let line = line_at clean_lines.elided linenum in
    if matches (all_of (bol ∷ star space ∷ lit "#" ∷ [])) line
    then []
    else if contains line (codes "/*") || contains line (codes "*/")
    then []
    else alt_token_errors linenum (iterate alt_token_pattern line)
