-- ===== src/Constructs.antt =====
-- `CheckForNonStandardConstructs` of utils/tools/cpplint.py.
mod Examples
use front_server.Common.{
  ℕ, Bool, true, false, ◌&&◌, ◌||◌, Option, none, some, List, [], ◌∷◌, ◌++◌, not, ◌==◌,
  if◌then◌else◌, Text, codes, text_eq, replace, strip, is_space,
}
use front_server.Common.Regex.{
  Regex, bol, eol, boundary, star, plus, optional, group, space, word, dot, lit, chars, none_in,
  one_in, alt, all_of, any_of, finds, matches, match, group_of, sat, in_set,
}
use front_server.Common.Patterns.{digit, split_by}
use front_server.Lint.{Log, report_at, report_if}
use front_server.Cleanse.{CleansedLines, line_at}
use front_server.Nesting.{Stack, ClassInfo, class_block, block, namespace_block}

-- printf\s*\(.*".*%[-+ ]?\d*q
quad_format : Regex
unfolding digit
quad_format = all_of (
    lit "printf"
    ∷ star space
    ∷ lit "("
    ∷ star dot
    ∷ lit "\""
    ∷ star dot
    ∷ lit "%"
    ∷ optional (one_in "-+ ")
    ∷ star digit
    ∷ lit "q"
    ∷ [])

-- printf\s*\(.*".*%\d+\$
numbered_format : Regex
unfolding digit
numbered_format = all_of (
    lit "printf"
    ∷ star space
    ∷ lit "("
    ∷ star dot
    ∷ lit "\""
    ∷ star dot
    ∷ lit "%"
    ∷ plus digit
    ∷ lit "$"
    ∷ [])

-- ("|\').*\\(%|\[|\(|{)
undefined_escape : Regex
undefined_escape = all_of (one_in "\"'" ∷ star dot ∷ lit "\\" ∷ one_in "%[({" ∷ [])

-- \b(const|...|u?int64)\s+(auto|register|static|extern|typedef)\b
storage_behind : Regex
storage_behind = all_of (
    boundary
    ∷ any_of (
        lit "const"
        ∷ lit "volatile"
        ∷ lit "void"
        ∷ lit "char"
        ∷ lit "short"
        ∷ lit "int"
        ∷ lit "long"
        ∷ lit "float"
        ∷ lit "double"
        ∷ lit "signed"
        ∷ lit "unsigned"
        ∷ lit "schar"
        ∷ all_of (
            optional (lit "u")
            ∷ lit "int"
            ∷ any_of (lit "8" ∷ lit "16" ∷ lit "32" ∷ lit "64" ∷ [])
            ∷ [])
        ∷ [])
    ∷ plus space
    ∷ any_of (lit "auto" ∷ lit "register" ∷ lit "static" ∷ lit "extern" ∷ lit "typedef" ∷ [])
    ∷ boundary
    ∷ [])

-- \s*#\s*endif\s*[^/\s]+
endif_text : Regex
unfolding is_space
endif_text = all_of (
    star space
    ∷ lit "#"
    ∷ star space
    ∷ lit "endif"
    ∷ star space
    ∷ plus (sat (λ c. not (c == b'/') && not (is_space c)))
    ∷ [])

-- \s*class\s+(\w+\s*::\s*)+\w+\s*;
inner_declaration : Regex
inner_declaration = all_of (
    star space
    ∷ lit "class"
    ∷ plus space
    ∷ plus (all_of (plus word ∷ star space ∷ lit "::" ∷ star space ∷ []))
    ∷ plus word
    ∷ star space
    ∷ lit ";"
    ∷ [])

-- (\w+|[+-]?\d+(\.\d*)?)\s*(<|>)\?=?\s*(\w+|[+-]?\d+)(\.\d*)?
extremum_operator : Regex
unfolding digit
extremum_operator = all_of (
    alt (plus word) (
      all_of
        (optional (one_in "+-") ∷ plus digit ∷ optional (all_of (lit "." ∷ star digit ∷ [])) ∷ []))
    ∷ star space
    ∷ one_in "<>"
    ∷ lit "?"
    ∷ optional (lit "=")
    ∷ star space
    ∷ alt (plus word) (all_of (optional (one_in "+-") ∷ plus digit ∷ []))
    ∷ optional (all_of (lit "." ∷ star digit ∷ []))
    ∷ [])

-- ^\s*const\s*string\s*&\s*\w+\s*;
string_member : Regex
string_member = all_of (
    bol
    ∷ star space
    ∷ lit "const"
    ∷ star space
    ∷ lit "string"
    ∷ star space
    ∷ lit "&"
    ∷ star space
    ∷ plus word
    ∷ star space
    ∷ lit ";"
    ∷ [])

-- The part of `CheckForNonStandardConstructs` about the line alone.
pub check_line_constructs : CleansedLines → ℕ → Log
unfolding quad_format numbered_format undefined_escape storage_behind endif_text inner_declaration
    extremum_operator string_member
check_line_constructs clean_lines linenum =
    let with_strings = line_at clean_lines.lines linenum in
    let line = line_at clean_lines.elided linenum in
    report_if (finds quad_format with_strings) (
      report_at linenum (codes "runtime/printf_format") 3
        (codes "%q in format strings is deprecated.  Use %ll instead."))
    ++ report_if (finds numbered_format with_strings) (
        report_at linenum (codes "runtime/printf_format") 2
          (codes "%N$ formats are unconventional.  Try rewriting to avoid them."))
    ++ report_if (finds undefined_escape (replace (codes "\\\\") [] with_strings)) (
        report_at linenum (codes "build/printf_format") 3
          (codes "%, [, (, and { are undefined character escapes.  Unescape them."))
    ++ report_if (finds storage_behind line) (
        report_at linenum (codes "build/storage_class") 5
          (codes "Storage class (static, extern, typedef, etc) should be first."))
    ++ report_if (matches endif_text line) (
        report_at linenum (codes "build/endif_comment") 5
          (codes "Uncommented text after #endif is non-standard.  Use a comment."))
    ++ report_if (matches inner_declaration line) (
        report_at linenum (codes "build/forward_decl") 5
          (codes "Inner-style forward declarations are invalid.  Remove this line."))
    ++ report_if (finds extremum_operator line) (
        report_at linenum (codes "build/deprecated") 3
          (codes ">? and <? (max and min) operators are non-standard and deprecated."))
    ++ report_if (finds string_member line) (
        report_at linenum (codes "runtime/member_string_references") 2 (
          codes "const string& members are dangerous. It is much better to use "
          ++ codes "alternatives, such as pointers or simple constants."))

-- The innermost class on the stack whose head is complete: its name.
pub open_class : Stack → Option Text
open_class [] = none
open_class (b ∷ stack) =
    let outer = open_class stack in
    elim b.kind [
      | class_block c ↦ if b.seen_open_brace then some c.name else none
      | namespace_block _ ↦ outer
      | block ↦ outer
    ]

abbrev last_text : List Text → Text
last_text [] = []
last_text (t ∷ []) = t
last_text (t ∷ u ∷ ts) = last_text (u ∷ ts)

-- `classinfo.name.split('::')[-1]`
pub base_class_name : Text → Text
unfolding split_by
base_class_name name = last_text (split_by (lit "::") name)

-- \s+(?:inline\s+)?NAME\s*\(([^,()]+)\)
one_argument : Text → Regex
one_argument name = all_of (
    plus space
    ∷ optional (all_of (lit "inline" ∷ plus space ∷ []))
    ∷ chars name
    ∷ star space
    ∷ lit "("
    ∷ group 1 (plus (none_in ",()"))
    ∷ lit ")"
    ∷ [])

-- (const\s+)?NAME\s*(?:<\w+>\s*)?&
copy_argument : Text → Regex
copy_argument name = all_of (
    optional (all_of (lit "const" ∷ plus space ∷ []))
    ∷ chars name
    ∷ star space
    ∷ optional (all_of (lit "<" ∷ plus word ∷ lit ">" ∷ star space ∷ []))
    ∷ lit "&"
    ∷ [])

-- The test for constructors with one argument.
pub check_explicit : Text → Text → ℕ → Log
unfolding one_argument copy_argument
check_explicit name line linenum = elim (match (one_argument name) line) [
  | none ↦ []
  | some m ↦ elim (group_of 1 m) [
    | none ↦ []
    | some args ↦
        report_if
          (not (text_eq args (codes "void")) && not (matches (copy_argument name) (strip args)))
          (report_at linenum (codes "runtime/explicit") 5
            (codes "Single-argument constructors should be marked explicit."))
  ]
]

-- `CheckForNonStandardConstructs`
unfoldable pub check_for_non_standard_constructs : CleansedLines → ℕ → Stack → Log
unfolding check_line_constructs open_class base_class_name check_explicit
check_for_non_standard_constructs clean_lines linenum stack =
    check_line_constructs clean_lines linenum ++ (elim (open_class stack) [
      | none ↦ []
      | some name ↦
          check_explicit (base_class_name name) (line_at clean_lines.elided linenum) linenum
    ])
