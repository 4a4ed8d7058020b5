-- ===== src/Spacing/Operators.antt =====
-- The parts of `CheckSpacing` of utils/tools/cpplint.py about operators.
use front_server.Common.{
  ℕ, Bool, false, ◌&&◌, ◌||◌, Option, none, some, [], ◌∷◌, ◌++◌, not, ◌==◌, if◌then◌else◌, all,
  Text, codes, replace, is_space,
}
use front_server.Common.Regex.{
  Regex, bol, eol, boundary, star, optional, group, space, dot, lit, none_in, alt, all_of, any_of,
  finds, matches, search, group_of, Found, sat, in_set, is_word, is_some,
}
use front_server.Common.Patterns.{in_range}
use front_server.Lint.{Log, report_at}
use front_server.Cleanse.{CleansedLines}
use front_server.Angles.{find_next_matching_angle_bracket, find_previous_matching_angle_bracket}

-- operator(==|!=|<|<<|<=|>=|>>|>)\(
unfoldable pub operator_method : Regex
operator_method = all_of (
    lit "operator"
    ∷ any_of
        (lit "==" ∷ lit "!=" ∷ lit "<" ∷ lit "<<" ∷ lit "<=" ∷ lit ">=" ∷ lit ">>" ∷ lit ">" ∷ [])
    ∷ lit "("
    ∷ [])

-- [\w.]
operand : Regex
operand = sat (λ c. is_word c || c == b'.')

missing_around : ℕ → ℕ → Text → Log
missing_around linenum confidence operator =
    report_at linenum (codes "whitespace/operators") confidence
      (codes "Missing spaces around " ++ operator)
    ∷ []

-- The checks of `=`.
check_assignment : ℕ → Text → Log
unfolding operand missing_around
check_assignment linenum line =
    (if finds (all_of (space ∷ lit "=" ∷ operand ∷ [])) line
        || finds (all_of (operand ∷ lit "=" ∷ space ∷ [])) line
      then missing_around linenum 4 (codes "=")
      else [])
    ++ (if finds (all_of (operand ∷ lit "=" ∷ operand ∷ [])) line
          && not (finds (all_of (boundary ∷ alt (lit "if") (lit "while") ∷ lit " " ∷ [])) line)
        then missing_around linenum 4 (codes "=")
        else [])

-- [^<>=!\s]
near : Regex
unfolding in_set is_space
near = sat (λ c. not (in_set (codes "<>=!") c) && not (is_space c))

-- (==|!=|<=|>=)
comparison : Regex
comparison = group 1 (any_of (lit "==" ∷ lit "!=" ∷ lit "<=" ∷ lit ">=" ∷ []))

-- ([^>]|->)*$
no_closing : Regex
no_closing = all_of (star (alt (none_in ">") (lit "->")) ∷ eol ∷ [])

-- `a or b`, for two searches
abbrev or_search : Option Found → Option Found → Option Found
or_search (some m) other = some m
or_search none other = other

-- The match for an operator that lacks spaces.
comparison_found : Text → Option Found
unfolding near comparison no_closing
comparison_found line =
    let compared = or_search (search (all_of (near ∷ comparison ∷ near ∷ [])) line) (
      or_search (search (all_of (space ∷ comparison ∷ near ∷ [])) line)
        (search (all_of (near ∷ comparison ∷ space ∷ [])) line)) in
    let less =
      or_search (search (all_of (near ∷ group 1 (lit "<") ∷ near ∷ no_closing ∷ [])) line) (
        or_search
          (search (all_of (none_in "<>=!" ∷ space ∷ group 1 (lit "<") ∷ near ∷ no_closing ∷ []))
            line)
          (search (all_of (near ∷ group 1 (lit "<") ∷ space ∷ none_in "<>=!" ∷ no_closing ∷ []))
            line)) in
    if is_some compared
    then compared
    else if finds (all_of (lit "<" ∷ star (none_in "<") ∷ lit "," ∷ star space ∷ eol ∷ [])) line
    then none
    else less

check_comparison : ℕ → Text → Log
unfolding comparison_found missing_around
check_comparison linenum line = elim (comparison_found line) [
  | none ↦ []
  | some m ↦ elim (group_of 1 m) [ none ↦ [] | some operator ↦ missing_around linenum 3 operator ]
]

-- \S
visible : Regex
unfolding is_space
visible = sat (λ c. not (is_space c))

-- (\S)(?:L|UL|ULL|l|ul|ull)?<<(\S)
shift_left : Regex
unfolding visible
shift_left = all_of (
    group 1 visible
    ∷ optional (any_of (lit "L" ∷ lit "UL" ∷ lit "ULL" ∷ lit "l" ∷ lit "ul" ∷ lit "ull" ∷ []))
    ∷ lit "<<"
    ∷ group 2 visible
    ∷ [])

abbrev is_digit : Option Text → Bool
is_digit none = false
is_digit (some t) = all (in_range b'0' b'9') t

-- The match of a `<<` that is no shift of one number by another.
shift_found : Text → Bool
unfolding shift_left
shift_found line = elim (search shift_left line) [
  | none ↦ false
  | some m ↦ not (is_digit (group_of 1 m) && is_digit (group_of 2 m))
]

-- [^\s<]<([^\s=<].*)
less_than : Regex
unfolding in_set is_space
less_than = all_of (
    sat (λ c. not (is_space c) && not (c == b'<'))
    ∷ lit "<"
    ∷ group 1 (all_of (sat (λ c. not (is_space c) && not (in_set (codes "=<") c)) ∷ star dot ∷ []))
    ∷ [])

-- ^(.*[^\s>])>[^\s=>]
greater_than : Regex
unfolding in_set is_space
greater_than = all_of (
    bol
    ∷ group 1 (all_of (star dot ∷ sat (λ c. not (is_space c) && not (c == b'>')) ∷ []))
    ∷ lit ">"
    ∷ sat (λ c. not (is_space c) && not (in_set (codes "=>") c))
    ∷ [])

-- The text of group 1 of a search.
abbrev first_group : Option Found → Option Text
first_group none = none
first_group (some m) = group_of 1 m

-- The checks of `<` and `>` that may be brackets.
check_angles : CleansedLines → ℕ → Text → Log
unfolding less_than greater_than missing_around find_next_matching_angle_bracket
    find_previous_matching_angle_bracket
check_angles clean_lines linenum line =
    let reduced_line = replace (codes "->") [] line in
    (elim (first_group (search less_than reduced_line)) [
      | none ↦ []
      | some suffix ↦
          if find_next_matching_angle_bracket clean_lines linenum suffix
          then []
          else missing_around linenum 3 (codes "<")
    ])
    ++ (elim (first_group (search greater_than reduced_line)) [
      | none ↦ []
      | some prefix ↦
          if find_previous_matching_angle_bracket clean_lines linenum prefix
          then []
          else missing_around linenum 3 (codes ">")
    ])

-- The checks of binary operators.
unfoldable pub check_operators : CleansedLines → ℕ → Text → Log
unfolding check_assignment check_comparison shift_found check_angles missing_around
check_operators clean_lines linenum line =
    check_assignment linenum line
    ++ check_comparison linenum line
    ++ (if shift_found line
        then missing_around linenum 3 (codes "<<")
        else if matches (all_of (lit "#" ∷ star dot ∷ lit "include" ∷ [])) line
        then []
        else check_angles clean_lines linenum line)
    ++ (if finds
          (all_of
            (lit ">>" ∷ sat (λ c. in_range b'a' b'z' c || in_range b'A' b'Z' c || c == b'_') ∷ []))
          line
        then missing_around linenum 3 (codes ">>")
        else [])

-- (!\s|~\s|[\s]--[\s;]|[\s]\+\+[\s;])
unary_operator : Regex
unary_operator = group 1 (
    any_of (
      all_of (lit "!" ∷ space ∷ [])
      ∷ all_of (lit "~" ∷ space ∷ [])
      ∷ all_of (space ∷ lit "--" ∷ alt space (lit ";") ∷ [])
      ∷ all_of (space ∷ lit "++" ∷ alt space (lit ";") ∷ [])
      ∷ []))

-- The check of unary operators.
unfoldable pub check_unary : ℕ → Text → Log
unfolding unary_operator
check_unary linenum line = elim (first_group (search unary_operator line)) [
  | none ↦ []
  | some operator ↦
      report_at linenum (codes "whitespace/operators") 4
        (codes "Extra space for operator " ++ operator)
      ∷ []
]
