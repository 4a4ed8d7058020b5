-- ===== src/Language/Casts.antt =====
-- The parts of `CheckLanguage` of utils/tools/cpplint.py about casts.
use front_server.Common.{
  ℕ, ◌-◌, Bool, true, false, ◌&&◌, ◌||◌, none, some, [], ◌∷◌, ◌++◌, not, ◌==◌, if◌then◌else◌, Text,
  codes, text_eq, contains, ends_with, is_space,
}
use front_server.Common.Regex.{
  Regex, bol, eol, boundary, group, star, plus, optional, space, word, dot, lit, none_in, sat,
  is_word, alt, all_of, any_of, finds, matches, search, match, group_of, Found, is_some,
}
use front_server.Common.Patterns.{digit}
use front_server.Lint.{Log, report_at, report_if}
use front_server.Cleanse.{CleansedLines, line_at}

-- (\bnew\s+)?\b(int|float|double|bool|char|int32|uint32|int64|uint64)\([^)]
conversion : Regex
conversion = all_of (
    optional (group 1 (all_of (boundary ∷ lit "new" ∷ plus space ∷ [])))
    ∷ boundary
    ∷ group 2 (
        any_of (
          lit "int"
          ∷ lit "float"
          ∷ lit "double"
          ∷ lit "bool"
          ∷ lit "char"
          ∷ lit "int32"
          ∷ lit "uint32"
          ∷ lit "int64"
          ∷ lit "uint64"
          ∷ []))
    ∷ lit "("
    ∷ none_in ")"
    ∷ [])

-- ^\s*MOCK_(CONST_)?METHOD\d+(_T)?\(
mock_method : Regex
mock_method = all_of (
    bol
    ∷ star space
    ∷ lit "MOCK_"
    ∷ optional (lit "CONST_")
    ∷ lit "METHOD"
    ∷ plus digit
    ∷ optional (lit "_T")
    ∷ lit "("
    ∷ [])

-- ^\s*MockCallback<.*>
mock_callback : Regex
mock_callback = all_of (bol ∷ star space ∷ lit "MockCallback<" ∷ star dot ∷ lit ">" ∷ [])

-- ^\s*MOCK_(CONST_)?METHOD\d+(_T)?\(\S+,\s*$
mock_begins : Regex
unfolding mock_method is_space
mock_begins =
    all_of (mock_method ∷ plus (sat (λ c. not (is_space c))) ∷ lit "," ∷ star space ∷ eol ∷ [])

conversion_error : CleansedLines → ℕ → Text → Found → Log
unfolding mock_method mock_callback mock_begins
conversion_error clean_lines linenum line m = elim (group_of 2 m) [
  | none ↦ []
  | some type ↦
      report_if
        (not (is_some (group_of 1 m))
          && not (matches mock_method line || matches mock_callback line)
          && (linenum == 0 || not (matches mock_begins (line_at clean_lines.elided (linenum - 1)))))
        (report_at linenum (codes "readability/casting") 4 (
          codes "Using deprecated casting style.  Use static_cast<"
          ++ type
          ++ codes ">(...) instead"))
]

unfoldable pub check_conversions : CleansedLines → ℕ → Text → Log
unfolding conversion conversion_error
check_conversions clean_lines linenum line = elim (search conversion line) [
  | none ↦ []
  | some m ↦ conversion_error clean_lines linenum line m
]

-- .*sizeof\s*$
ends_in_sizeof : Regex
ends_in_sizeof = all_of (star dot ∷ lit "sizeof" ∷ star space ∷ eol ∷ [])

-- \s*(\)|=|(const)?\s*(;|\{|throw\(\)|>))
function_behind : Regex
function_behind = all_of (
    star space
    ∷ group 1 (
        any_of (
          lit ")"
          ∷ lit "="
          ∷ all_of (
              optional (group 2 (lit "const"))
              ∷ star space
              ∷ group 3 (any_of (lit ";" ∷ lit "{" ∷ lit "throw()" ∷ lit ">" ∷ []))
              ∷ [])
          ∷ []))
    ∷ [])

-- <(.+,)?[ \w]+ \([^)]*(\)|,$)(,.+)?>
unfoldable pub function_type : Regex
function_type = all_of (
    lit "<"
    ∷ optional (all_of (plus dot ∷ lit "," ∷ []))
    ∷ plus (sat (λ c. c == 32 || is_word c))
    ∷ lit " ("
    ∷ star (none_in ")")
    ∷ alt (lit ")") (all_of (lit "," ∷ eol ∷ []))
    ∷ optional (all_of (lit "," ∷ plus dot ∷ []))
    ∷ lit ">"
    ∷ [])

-- \(\w+\)\s*({|$)
named_parameter : Regex
named_parameter = all_of (lit "(" ∷ plus word ∷ lit ")" ∷ star space ∷ alt (lit "{") eol ∷ [])

-- The test of the third group and of the raw line.
parameter_unnamed : Found → Text → Bool
parameter_unnamed m raw_line = elim (group_of 3 m) [
  | none ↦ true
  | some mark ↦
      text_eq mark (codes ";")
      || (not (contains raw_line (codes "MockCallback<"))
          && not (contains raw_line (codes "typeid("))
          && not (contains raw_line (codes "/*")))
]

cast_error : ℕ → Text → Text → Bool × Log
cast_error linenum cast_type type = (
  true,
  report_at linenum (codes "readability/casting") 4 (
        codes "Using C-style cast.  Use "
        ++ cast_type
        ++ codes "<"
        ++ type
        ++ codes ">(...) instead")
      ∷ [],
)

-- The rest of `CheckCStyleCast`, for the match of its pattern. Each pattern begins with the
-- parenthesis in front of its group 1, so the text up to that parenthesis is the one in front of the
-- match. The result `None` is `false`.
unfoldable pub cast_found : ℕ → Text → Text → Text → Found → Bool × Log
unfolding ends_in_sizeof function_behind parameter_unnamed function_type named_parameter cast_error
cast_found linenum line raw_line cast_type m =
    if matches ends_in_sizeof m.before
    then (
      true,
      report_at linenum (codes "runtime/sizeof") 1
            (codes "Using sizeof(type).  Use sizeof(varname) instead if possible")
          ∷ [],
    )
    else if ends_with m.before (codes " operator++") || ends_with m.before (codes " operator--")
    then (false, [])
    else elim (match function_behind m.after) [
      | some f ↦ (
        true,
        report_if (parameter_unnamed f raw_line) (
            report_at linenum (codes "readability/function") 3
              (codes "All parameters should be named in a function")),
      )
      | none ↦
          if finds function_type line || finds named_parameter line
          then (false, [])
          else elim (group_of 1 m) [
            | none ↦ (false, [])
            | some type ↦ cast_error linenum cast_type type
          ]
    ]

-- `CheckCStyleCast`
unfoldable pub check_c_style_cast : ℕ → Text → Text → Text → Regex → Bool × Log
unfolding cast_found
check_c_style_cast linenum line raw_line cast_type pattern = elim (search pattern line) [
  | none ↦ (false, [])
  | some m ↦ cast_found linenum line raw_line cast_type m
]

-- int|float|double|bool|char|u?int(16|32|64)_t
pub basic_type : Regex
basic_type = any_of (
    lit "int"
    ∷ lit "float"
    ∷ lit "double"
    ∷ lit "bool"
    ∷ lit "char"
    ∷ all_of (
        optional (lit "u")
        ∷ lit "int"
        ∷ any_of (lit "16" ∷ lit "32" ∷ lit "64" ∷ [])
        ∷ lit "_t"
        ∷ [])
    ∷ [])

-- \((int|float|double|bool|char|u?int(16|32|64)_t)\)
static_pattern : Regex
unfolding basic_type
static_pattern = all_of (lit "(" ∷ group 1 basic_type ∷ lit ")" ∷ [])

-- \((char\s?\*+\s?)\)\s*"
const_pattern : Regex
const_pattern = all_of (
    lit "("
    ∷ group 1 (all_of (lit "char" ∷ optional space ∷ plus (lit "*") ∷ optional space ∷ []))
    ∷ lit ")"
    ∷ star space
    ∷ lit "\""
    ∷ [])

-- \((\w+\s?\*+\s?)\)
pointer_pattern : Regex
pointer_pattern = all_of (
    lit "("
    ∷ group 1 (all_of (plus word ∷ optional space ∷ plus (lit "*") ∷ optional space ∷ []))
    ∷ lit ")"
    ∷ [])

-- The calls of `CheckCStyleCast`.
unfoldable pub check_casts : ℕ → Text → Text → Log
unfolding check_c_style_cast static_pattern const_pattern pointer_pattern
check_casts linenum line raw_line =
    let (_, static_log) =
      check_c_style_cast linenum line raw_line (codes "static_cast") static_pattern in
    let (is_const, const_log) =
      check_c_style_cast linenum line raw_line (codes "const_cast") const_pattern in
    let (_, pointer_log) =
      check_c_style_cast linenum line raw_line (codes "reinterpret_cast") pointer_pattern in
    static_log ++ const_log ++ (if is_const then [] else pointer_log)

-- sizeof\s*(int|float|double|bool|char|u?int(16|32|64)_t)
size_of_type : Regex
unfolding basic_type
size_of_type = all_of (lit "sizeof" ∷ star space ∷ group 1 basic_type ∷ [])

-- `CheckSizeOf`, for its one pattern
unfoldable pub check_size_of : ℕ → Text → Log
unfolding size_of_type
check_size_of linenum line = elim (search size_of_type line) [
  | none ↦ []
  | some m ↦ report_if (matches (all_of (lit "sizeof" ∷ star space ∷ [])) (m.matched ++ m.after)) (
      report_at linenum (codes "runtime/sizeof") 1
        (codes "Using sizeof type.  Use sizeof(varname) instead if possible"))
]

-- (&\([^)]+\)[\w(])|(&(static|dynamic|reinterpret)_cast\b)
cast_address : Regex
cast_address =
    alt (all_of (lit "&(" ∷ plus (none_in ")") ∷ lit ")" ∷ sat (λ c. is_word c || c == b'(') ∷ []))
      (all_of (
        lit "&"
        ∷ any_of (lit "static" ∷ lit "dynamic" ∷ lit "reinterpret" ∷ [])
        ∷ lit "_cast"
        ∷ boundary
        ∷ []))

unfoldable pub check_cast_address : ℕ → Text → Log
unfolding cast_address
check_cast_address linenum line = report_if (finds cast_address line) (
    report_at linenum (codes "runtime/casting") 0 (
      codes "Are you taking an address of a cast?  "
      ++ codes "This is dangerous: could be a temp var.  "
      ++ codes "Take the address before doing the cast, rather than after"))
