-- ===== src/Spacing/Parens.antt =====
-- The parts of `CheckSpacing` of utils/tools/cpplint.py about parentheses, and
-- `CheckSpacingForFunctionCall`.
use front_server.Common.{
  ℕ, ◌+◌, false, ◌&&◌, ◌||◌, none, some, List, [], ◌∷◌, ◌++◌, not, leb, ◌==◌, if◌then◌else◌, length,
  Text, codes, text_eq, is_space,
}
use front_server.Common.Regex.{
  Regex, bol, eol, boundary, star, plus, optional, group, space, word, dot, lit, none_in, one_in,
  alt, ahead, all_of, any_of, finds, search, group_of, Found, sat,
}
use front_server.Lint.{Log, report_at}
use front_server.Language.{function_type}

abbrev parens_error : ℕ → ℕ → Text → Log
parens_error linenum confidence message =
    report_at linenum (codes "whitespace/parens") confidence message ∷ []

-- (if\(|for\(|while\(|switch\() behind a space
keyword_parenthesis : Regex
keyword_parenthesis =
    all_of
      (lit " " ∷ group 1 (any_of (lit "if(" ∷ lit "for(" ∷ lit "while(" ∷ lit "switch(" ∷ [])) ∷ [])

check_keyword : ℕ → Text → Log
unfolding keyword_parenthesis
check_keyword linenum line = elim (search keyword_parenthesis line) [
  | none ↦ []
  | some m ↦ elim (group_of 1 m) [
    | none ↦ []
    | some head ↦ parens_error linenum 5 (codes "Missing space before ( in " ++ head)
  ]
]

-- \b(if|for|while|switch)\s*\(([ ]*)(.).*[^ ]+([ ]*)\)\s*{\s*$
control_head : Regex
control_head = all_of (
    boundary
    ∷ group 1 (any_of (lit "if" ∷ lit "for" ∷ lit "while" ∷ lit "switch" ∷ []))
    ∷ star space
    ∷ lit "("
    ∷ group 2 (star (lit " "))
    ∷ group 3 dot
    ∷ star dot
    ∷ plus (none_in " ")
    ∷ group 4 (star (lit " "))
    ∷ lit ")"
    ∷ star space
    ∷ lit "{"
    ∷ star space
    ∷ eol
    ∷ [])

-- \bfor\s*\(.*; \)
open_for : Regex
open_for = all_of (boundary ∷ lit "for" ∷ star space ∷ lit "(" ∷ star dot ∷ lit "; )" ∷ [])

-- The text of a group that took part in the match.
abbrev text_of : ℕ → Found → Text
text_of n m = elim (group_of n m) [ none ↦ [] | some t ↦ t ]

-- The comparison of the spaces inside the parentheses.
check_inside : ℕ → Text → Found → Log
unfolding open_for
check_inside linenum line m =
    let before = length (text_of 2 m) in
    let behind = length (text_of 4 m) in
    (if before == behind
        || (text_eq (text_of 3 m) (codes ";") && before == 1 + behind)
        || (before == 0 && finds open_for line)
      then []
      else parens_error linenum 5 (codes "Mismatching spaces inside () in " ++ text_of 1 m))
    ++ (if leb before 1
        then []
        else parens_error linenum 5
            (codes "Should have zero or one spaces inside ( and ) in " ++ text_of 1 m))

-- The checks of `if`, `for`, `while` and `switch`.
unfoldable pub check_parentheses : ℕ → Text → Log
unfolding check_keyword control_head check_inside
check_parentheses linenum line =
    check_keyword linenum line
    ++ (elim (search control_head line) [ none ↦ [] | some m ↦ check_inside linenum line m ])

-- \bKEYWORD\s*\((.*)\)\s*END
control_flow : Regex → Regex → Regex
control_flow keyword end = all_of (
    boundary
    ∷ keyword
    ∷ star space
    ∷ lit "("
    ∷ group 1 (star dot)
    ∷ lit ")"
    ∷ star space
    ∷ end
    ∷ [])

-- The text inside the parentheses for the first of the patterns that is found, or the whole line.
find_call : List Regex → Text → Text
find_call [] line = line
find_call (pattern ∷ patterns) line =
    let rest = find_call patterns line in
    elim (search pattern line) [
      | none ↦ rest
      | some m ↦ elim (group_of 1 m) [ none ↦ rest | some inside ↦ inside ]
    ]

-- `fncall`
unfoldable pub function_call : Text → Text
unfolding find_call control_flow
function_call line =
    find_call
      (control_flow (lit "if") (lit "{")
        ∷ control_flow (lit "for") (lit "{")
        ∷ control_flow (lit "while") (one_in "{;")
        ∷ control_flow (lit "switch") (lit "{")
        ∷ [])
      line

-- \b(if|for|while|switch|return|new|delete|catch)\b
control_word : Regex
control_word = all_of (
    boundary
    ∷ any_of (
        lit "if"
        ∷ lit "for"
        ∷ lit "while"
        ∷ lit "switch"
        ∷ lit "return"
        ∷ lit "new"
        ∷ lit "delete"
        ∷ lit "catch"
        ∷ [])
    ∷ boundary
    ∷ [])

-- \([^)]+\)\([^)]*(\)|,$) behind a space
function_pointer : Regex
function_pointer = all_of (
    lit " ("
    ∷ plus (none_in ")")
    ∷ lit ")("
    ∷ star (none_in ")")
    ∷ alt (lit ")") (all_of (lit "," ∷ eol ∷ []))
    ∷ [])

-- \([^)]+\)\[[^\]]+\] behind a space
array_pointer : Regex
array_pointer =
    all_of (lit " (" ∷ plus (none_in ")") ∷ lit ")[" ∷ plus (none_in "]") ∷ lit "]" ∷ [])

-- \w\s*\(\s(?!\s*\\$)
space_in_call : Regex
space_in_call = all_of (
    word
    ∷ star space
    ∷ lit "("
    ∷ space
    ∷ ahead false (all_of (star space ∷ lit "\\" ∷ eol ∷ []))
    ∷ [])

-- \(\s+(?!(\s*\\)|\()
space_behind : Regex
space_behind =
    all_of (
      lit "(" ∷ plus space ∷ ahead false (alt (all_of (star space ∷ lit "\\" ∷ [])) (lit "(")) ∷ [])

-- #\s*define|typedef
definition : Regex
definition = alt (all_of (lit "#" ∷ star space ∷ lit "define" ∷ [])) (lit "typedef")

-- \w\s+\((\w+::)?\*\w+\)\(
pointer_declaration : Regex
pointer_declaration = all_of (
    word
    ∷ plus space
    ∷ lit "("
    ∷ optional (all_of (plus word ∷ lit "::" ∷ []))
    ∷ lit "*"
    ∷ plus word
    ∷ lit ")("
    ∷ [])

-- [^)]\s+\)\s*[^{\s]
space_before_end : Regex
unfolding is_space
space_before_end = all_of (
    none_in ")"
    ∷ plus space
    ∷ lit ")"
    ∷ star space
    ∷ sat (λ c. not (c == b'{') && not (is_space c))
    ∷ [])

check_call : ℕ → Text → Log
unfolding space_in_call space_behind definition pointer_declaration space_before_end
check_call linenum fncall =
    (if finds space_in_call fncall
      then parens_error linenum 4 (codes "Extra space after ( in function call")
      else if finds space_behind fncall
      then parens_error linenum 2 (codes "Extra space after (")
      else [])
    ++ (if finds (all_of (word ∷ plus space ∷ lit "(" ∷ [])) fncall
          && not (finds definition fncall)
          && not (finds pointer_declaration fncall)
        then parens_error linenum 4 (codes "Extra space before ( in function call")
        else [])
    ++ (if finds space_before_end fncall
          && not (finds (all_of (bol ∷ plus space ∷ lit ")" ∷ [])) fncall)
        then parens_error linenum 2 (codes "Extra space before )")
        else [])

-- `CheckSpacingForFunctionCall`
unfoldable pub check_function_call : ℕ → Text → Log
unfolding function_call control_word function_pointer function_type array_pointer check_call
check_function_call linenum line =
    let fncall = function_call line in
    if finds control_word fncall
      || finds function_pointer fncall
      || finds function_type fncall
      || finds array_pointer fncall
    then []
    else check_call linenum fncall
