-- ===== src/Language/Calls.antt =====
-- The parts of `CheckLanguage` of utils/tools/cpplint.py about calls of C functions, operators and
-- braces.
use front_server.Common.{
  ℕ, ◌+◌, ◌&&◌, ◌||◌, Option, none, some, [], ◌∷◌, ◌++◌, not, length, Text, codes, text_eq,
}
use front_server.Common.Regex.{
  Regex, bol, eol, boundary, group, star, plus, optional, space, lit, none_in, sat, is_word, in_set,
  all_of, any_of, finds, matches, search, group_of, Found,
}
use front_server.Common.Patterns.{digit, in_range, any_case}
use front_server.Lint.{Log, report_at, report_if}
use front_server.Inside.{get_text_inside}

-- snprintf\s*\(([^,]*),\s*([0-9]*)\s*,
snprintf : Regex
unfolding digit
snprintf = all_of (
    lit "snprintf"
    ∷ star space
    ∷ lit "("
    ∷ group 1 (star (none_in ","))
    ∷ lit ","
    ∷ star space
    ∷ group 2 (star digit)
    ∷ star space
    ∷ lit ","
    ∷ [])

-- The two groups of a match, if both took part.
abbrev two_groups : Option Found → Option (Text × Text)
two_groups none = none
two_groups (some m) = elim (group_of 1 m) [
  | none ↦ none
  | some a ↦ elim (group_of 2 m) [ none ↦ none | some b ↦ some (a, b) ]
]

unfoldable pub check_snprintf : ℕ → Text → Log
unfolding snprintf
check_snprintf linenum line = elim (two_groups (search snprintf line)) [
  | none ↦ []
  | some (buffer, size) ↦ report_if (not (text_eq size (codes "0"))) (
      report_at linenum (codes "runtime/printf") 3 (
        codes "If you can, use sizeof("
        ++ buffer
        ++ codes ") instead of "
        ++ size
        ++ codes " as the 2nd arg to snprintf."))
]

-- \b(strcpy|strcat)\b
copy_call : Regex
copy_call = all_of (boundary ∷ group 1 (any_of (lit "strcpy" ∷ lit "strcat" ∷ [])) ∷ boundary ∷ [])

copy_error : ℕ → Text → Log
unfolding copy_call
copy_error linenum line = elim (search copy_call line) [
  | none ↦ []
  | some m ↦ elim (group_of 1 m) [
    | none ↦ []
    | some name ↦
        report_at linenum (codes "runtime/printf") 4
          (codes "Almost always, snprintf is better than " ++ name)
        ∷ []
  ]
]

unfoldable pub check_old_calls : ℕ → Text → Log
unfolding copy_error
check_old_calls linenum line =
    report_if (finds (all_of (boundary ∷ lit "sprintf" ∷ boundary ∷ [])) line) (
      report_at linenum (codes "runtime/printf") 5
        (codes "Never use sprintf.  Use snprintf instead."))
    ++ copy_error linenum line
    ++ report_if (finds (all_of (boundary ∷ lit "sscanf" ∷ boundary ∷ [])) line) (
        report_at linenum (codes "runtime/printf") 1
          (codes "sscanf can be ok, but is slow and can overflow buffers."))

-- \boperator\s*&\s*\(\s*\)
unary_ampersand : Regex
unary_ampersand = all_of (
    boundary
    ∷ lit "operator"
    ∷ star space
    ∷ lit "&"
    ∷ star space
    ∷ lit "("
    ∷ star space
    ∷ lit ")"
    ∷ [])

unfoldable pub check_operator : ℕ → Text → Log
unfolding unary_ampersand
check_operator linenum line = report_if (finds unary_ampersand line) (
    report_at linenum (codes "runtime/operator") 4
      (codes "Unary operator& is dangerous.  Do not use it."))

-- \}\s*if\s*\(
braced_if : Regex
braced_if = all_of (lit "}" ∷ star space ∷ lit "if" ∷ star space ∷ lit "(" ∷ [])

unfoldable pub check_braced_if : ℕ → Text → Log
unfolding braced_if
check_braced_if linenum line = report_if (finds braced_if line) (
    report_at linenum (codes "readability/braces") 4
      (codes "Did you mean \"else if\"? If not, start a new line for \"if\"."))

-- (?i)\b(string)?printf\s*\(
printf_call : Regex
unfolding any_case
printf_call = all_of (
    boundary
    ∷ group 1 (all_of (optional (any_case "string") ∷ any_case "printf" ∷ []))
    ∷ star space
    ∷ lit "("
    ∷ [])

-- ([\w.\->()]+)$
plain_argument : Regex
plain_argument = all_of (plus (sat (λ c. is_word c || in_set (codes ".->()") c)) ∷ eol ∷ [])

format_error : ℕ → Text → Text → Log
unfolding plain_argument
format_error linenum name argument =
    report_if (matches plain_argument argument && not (text_eq argument (codes "__VA_ARGS__"))) (
      report_at linenum (codes "runtime/printf") 4 (
        codes "Potential format string bug. Do "
        ++ name
        ++ codes "(\"%s\", "
        ++ argument
        ++ codes ") instead."))

-- The check of `printf(foo)`. A match of `plain_argument` is the whole argument. `none` is the failed
-- `assert` of `_GetTextInside`.
unfoldable pub check_format : ℕ → Text → Option Log
unfolding printf_call get_text_inside format_error
check_format linenum line = elim (search printf_call line) [
  | none ↦ some []
  | some m ↦ elim (get_text_inside line (some (length m.before + length m.matched))) [
    | none ↦ none
    | some none ↦ some []
    | some (some argument) ↦ elim (group_of 1 m) [
      | none ↦ some []
      | some name ↦ some (format_error linenum name argument)
    ]
  ]
]

-- memset\s*\(([^,]*),\s*([^,]*),\s*0\s*\)
memset_zero : Regex
memset_zero = all_of (
    lit "memset"
    ∷ star space
    ∷ lit "("
    ∷ group 1 (star (none_in ","))
    ∷ lit ","
    ∷ star space
    ∷ group 2 (star (none_in ","))
    ∷ lit ","
    ∷ star space
    ∷ lit "0"
    ∷ star space
    ∷ lit ")"
    ∷ [])

-- ^''|-?[0-9]+|0x[0-9A-Fa-f]$
constant_value : Regex
unfolding digit
constant_value = any_of (
    all_of (bol ∷ lit "''" ∷ [])
    ∷ all_of (optional (lit "-") ∷ plus digit ∷ [])
    ∷ all_of (
        lit "0x"
        ∷ sat (λ c. in_range b'0' b'9' c || in_range b'A' b'F' c || in_range b'a' b'f' c)
        ∷ eol
        ∷ [])
    ∷ [])

unfoldable pub check_memset : ℕ → Text → Log
unfolding memset_zero constant_value
check_memset linenum line = elim (two_groups (search memset_zero line)) [
  | none ↦ []
  | some (buffer, value) ↦ report_if (not (matches constant_value value)) (
      report_at linenum (codes "runtime/memset") 4
        (codes "Did you mean \"memset(" ++ buffer ++ codes ", 0, " ++ value ++ codes ")\"?"))
]
