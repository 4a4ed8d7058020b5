-- ===== src/Language/Types.antt =====
-- The parts of `CheckLanguage` of utils/tools/cpplint.py about types, classes and
-- namespaces.
use front_server.Common.{
  ℕ, ◌+◌, Bool, false, ◌&&◌, ◌||◌, Option, none, some, [], ◌∷◌, ◌++◌, not, ltb, if◌then◌else◌, Text,
  codes, ends_with, is_space,
}
use front_server.Common.Regex.{
  Regex, bol, eol, boundary, group, star, plus, optional, space, dot, lit, none_in, sat, back,
  is_word, in_set, alt, ahead, all_of, any_of, finds, matches, search, match, group_of,
}
use front_server.Common.Patterns.{letter_or}
use front_server.Lint.{Log, report_at, report_if}
use front_server.Cleanse.{CleansedLines, line_at}

-- ((?:|static +)(?:|const +))string +([a-zA-Z0-9_:]+)\b(.*)
string_global : Regex
unfolding letter_or
string_global = all_of (
    group 1 (
      all_of (
        optional (all_of (lit "static" ∷ plus (lit " ") ∷ []))
        ∷ optional (all_of (lit "const" ∷ plus (lit " ") ∷ []))
        ∷ []))
    ∷ lit "string"
    ∷ plus (lit " ")
    ∷ group 2 (plus (letter_or "0123456789_:"))
    ∷ boundary
    ∷ group 3 (star dot)
    ∷ [])

-- \s*(<.*>)?(::[a-zA-Z0-9_]+)?\s*\(([^"]|$)
string_function : Regex
unfolding letter_or
string_function = all_of (
    star space
    ∷ optional (all_of (lit "<" ∷ star dot ∷ lit ">" ∷ []))
    ∷ optional (all_of (lit "::" ∷ plus (letter_or "0123456789_") ∷ []))
    ∷ star space
    ∷ lit "("
    ∷ alt (none_in "\"") eol
    ∷ [])

string_error : ℕ → Option Text → Option Text → Option Text → Log
unfolding string_function
string_error linenum (some head) (some name) (some rest) =
    report_if (not (matches string_function rest)) (
      report_at linenum (codes "runtime/string") 4 (
        codes "For a static/global string constant, use a C style string instead: \""
        ++ head
        ++ codes "char "
        ++ name
        ++ codes "[]\"."))
string_error linenum _ _ _ = []

-- The optional words of the pattern are each fixed by the character they begin with, so the order in
-- which the code tries them does not matter.
unfoldable pub check_strings : ℕ → Text → Log
unfolding string_global string_error
check_strings linenum line = elim (match string_global line) [
  | none ↦ []
  | some m ↦ string_error linenum (group_of 1 m) (group_of 2 m) (group_of 3 m)
]

unfoldable pub check_rtti : Bool → ℕ → Text → Log
check_rtti is_test linenum line =
    report_if (finds (all_of (boundary ∷ lit "dynamic_cast<" ∷ [])) line && not is_test) (
      report_at linenum (codes "runtime/rtti") 3 (
        codes "Be careful to dynamic_cast<>. If you need to cast within a class "
        ++ codes "hierarchy, use static_cast<> to upcast. We suggest don't use 'RTTI.'"
        ++ codes "if virtual function is enough."))

-- \b([A-Za-z0-9_]*_)\(\1\)
own_init : Regex
unfolding letter_or
own_init = all_of (
    boundary
    ∷ group 1 (all_of (star (letter_or "0123456789_") ∷ lit "_" ∷ []))
    ∷ lit "("
    ∷ back 1
    ∷ lit ")"
    ∷ [])

unfoldable pub check_own_init : ℕ → Text → Log
unfolding own_init
check_own_init linenum line = report_if (finds own_init line) (
    report_at linenum (codes "runtime/init") 4
      (codes "You seem to be initializing a member variable with itself."))

-- \b(short|long(?! +double)|long long)\b
c_integer : Regex
c_integer = all_of (
    boundary
    ∷ group 1 (
        any_of (
          lit "short"
          ∷ all_of (lit "long" ∷ ahead false (all_of (plus (lit " ") ∷ lit "double" ∷ [])) ∷ [])
          ∷ lit "long long"
          ∷ []))
    ∷ boundary
    ∷ [])

unfoldable pub check_int_types : ℕ → Text → Log
unfolding c_integer
check_int_types linenum line =
    if finds (all_of (boundary ∷ lit "short port" ∷ boundary ∷ [])) line
    then report_if
        (not (finds (all_of (boundary ∷ lit "unsigned short port" ∷ boundary ∷ [])) line))
        (report_at linenum (codes "runtime/int") 4
          (codes "Use \"unsigned short\" for ports, not \"short\""))
    else elim (search c_integer line) [
      | none ↦ []
      | some m ↦ elim (group_of 1 m) [
        | none ↦ []
        | some type ↦
            report_at linenum (codes "runtime/int") 4
              (codes "Use int16_t/int64_t/etc, rather than the C type " ++ type)
            ∷ []
      ]
    ]

-- ^\s*using namespace\b
using_namespace : Regex
using_namespace = all_of (bol ∷ star space ∷ lit "using namespace" ∷ boundary ∷ [])

unfoldable pub check_using : Bool → ℕ → Text → Log
unfolding using_namespace
check_using is_header linenum line = report_if (finds using_namespace line && is_header) (
    report_at linenum (codes "build/namespaces") 5
      (codes "Do not use namespace using-directives.  " ++ codes "Use using-declarations instead."))

-- \s*(DISALLOW_(EVIL_CONSTRUCTORS|COPY_AND_ASSIGN|IMPLICIT_CONSTRUCTORS))\(.*\);$
disallow_line : Regex
disallow_line = all_of (
    star space
    ∷ group 1 (
        all_of (
          lit "DISALLOW_"
          ∷ any_of
              (lit "EVIL_CONSTRUCTORS" ∷ lit "COPY_AND_ASSIGN" ∷ lit "IMPLICIT_CONSTRUCTORS" ∷ [])
          ∷ []))
    ∷ lit "("
    ∷ star dot
    ∷ lit ");"
    ∷ eol
    ∷ [])

-- ^\s*}[\w\*,\s]*;
class_closed : Regex
class_closed = all_of (
    bol
    ∷ star space
    ∷ lit "}"
    ∷ star (sat (λ c. is_word c || in_set (codes "*,") c || is_space c))
    ∷ lit ";"
    ∷ [])

disallow_error : CleansedLines → ℕ → Option Text → Log
unfolding class_closed is_space
disallow_error clean_lines linenum none = []
disallow_error clean_lines linenum (some macro) =
    report_if
      (ltb (linenum + 1) clean_lines.num_lines
        && not (finds class_closed (line_at clean_lines.elided (linenum + 1))))
      (report_at linenum (codes "readability/constructors") 3
        (macro ++ codes " should be the last thing in the class"))

unfoldable pub check_disallow_last : CleansedLines → ℕ → Text → Log
unfolding disallow_line disallow_error
check_disallow_last clean_lines linenum line = elim (match disallow_line line) [
  | none ↦ []
  | some m ↦ disallow_error clean_lines linenum (group_of 1 m)
]

-- \bnamespace\s*{
unnamed_namespace : Regex
unnamed_namespace = all_of (boundary ∷ lit "namespace" ∷ star space ∷ lit "{" ∷ [])

unfoldable pub check_unnamed_namespace : Bool → ℕ → Text → Log
unfolding unnamed_namespace
check_unnamed_namespace is_header linenum line =
    report_if (is_header && finds unnamed_namespace line && not (ends_with line (codes "\\"))) (
      report_at linenum (codes "build/namespaces") 4 (
        codes "Do not use unnamed namespaces in header files.  See "
        ++ codes "http://google-styleguide.googlecode.com/svn/trunk/cppguide.xml#Namespaces"
        ++ codes " for more information."))
