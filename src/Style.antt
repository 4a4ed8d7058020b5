-- ===== src/Style.antt =====
-- `CheckStyle` of utils/tools/cpplint.py, with `GetLineWidth`. Python's table of Unicode and the
-- variable of `GetHeaderGuardCPPVariable` are parameters.
mod Examples
use front_server.Common.{
  ℕ, zero, suc, ◌+◌, Bool, true, false, ◌&&◌, ◌||◌, Option, none, some, List, [], ◌∷◌, ◌++◌, not,
  ltb, ◌==◌, if◌then◌else◌, take, Text, codes, text_eq, starts_with, contains, count, is_space,
  length,
}
use mathlib.Core.List.{reverse}
use front_server.Common.Regex.{
  Regex, bol, eol, star, plus, optional, space, word, dot, lit, any_of, all_of, finds, matches, sat,
}
use front_server.Common.Patterns.{digit}
use front_server.Lint.{Log, report_at, report_if}
use front_server.Cleanse.{CleansedLines, line_at}
use front_server.Line.{
  indent_length, is_bad_indent, get_previous_non_blank_line, check_access, check_section_spacing,
}
use front_server.Blocks.{check_braces, check_empty_loop_body}
use front_server.Nesting.{Stack, innermost_class}
use front_server.Macros.{check_check, check_alt_tokens}
use front_server.Spacing.{check_spacing}

-- What `unicodedata` says of characters: the normal form of a text, and for a character whether it
-- is wide or full, and whether it combines with the one before.
pub record Unicode : Type 0 where
  pub normalize : Text → Text
  pub is_wide : ℕ → Bool
  pub is_combining : ℕ → Bool

-- The loop of `GetLineWidth`.
pub width_of : Unicode → Text → ℕ
width_of u [] = 0
width_of u (c ∷ s) = (if u.is_wide c then 2 else if u.is_combining c then 0 else 1) + width_of u s

-- `GetLineWidth`, for a Unicode string, which the lines of a decoded file are
unfoldable pub get_line_width : Unicode → Text → ℕ
unfolding width_of
get_line_width u line = width_of u (u.normalize line)

-- `line and line[-1].isspace()`
abbrev ends_in_space : Text → Bool
ends_in_space line = elim (reverse line) [ [] ↦ false | c ∷ _ ↦ is_space c ]

-- ^\s*[\w]+\s*:\s*$
label : Regex
label = all_of (bol ∷ star space ∷ plus word ∷ star space ∷ lit ":" ∷ star space ∷ eol ∷ [])

-- public|private|protected|default\s*:
known_label : Regex
known_label = any_of (
    lit "public"
    ∷ lit "private"
    ∷ lit "protected"
    ∷ all_of (lit "default" ∷ star space ∷ lit ":" ∷ [])
    ∷ [])

-- The checks of the white space in a line.
pub check_layout : Text → ℕ → List Text → Log
unfolding indent_length is_bad_indent label known_label
check_layout line linenum raw_lines =
    let initial_spaces = indent_length line in
    report_if (contains line (codes "\t"))
      (report_at linenum (codes "whitespace/tab") 1 (codes "Tab found; better to use spaces"))
    ++ report_if (ends_in_space line) (
        report_at linenum (codes "whitespace/end_of_line") 4
          (codes "Line ends in whitespace.  Consider deleting these extra spaces."))
    ++ report_if (is_bad_indent initial_spaces line linenum raw_lines) (
        report_at linenum (codes "whitespace/indent") 3
          (codes "Weird number of spaces at line-start. Are you using a 4-space indent?"))
    ++ report_if
        (not (initial_spaces == 0)
          && not (text_eq (take 2 line) (codes "//"))
          && finds label line
          && not (finds known_label line))
        (report_at linenum (codes "whitespace/labels") 4
          (codes "Labels should always be not indented."))

-- The line belongs to the header guard of the variable, in a header.
pub is_header_guard : Bool → Text → Text → Bool
is_header_guard is_header cppvar line =
    is_header
    && (starts_with line (codes "#ifndef " ++ cppvar)
        || starts_with line (codes "#define " ++ cppvar)
        || starts_with line (codes "#endif // " ++ cppvar))

-- ^\s*//.*(ftp|http(s?)|ms-help)://\S*$
url_comment : Regex
unfolding is_space
url_comment = all_of (
    bol
    ∷ star space
    ∷ lit "//"
    ∷ star dot
    ∷ any_of (lit "ftp" ∷ all_of (lit "http" ∷ optional (lit "s") ∷ []) ∷ lit "ms-help" ∷ [])
    ∷ lit "://"
    ∷ star (sat (λ c. not (is_space c)))
    ∷ eol
    ∷ [])

-- ^// \$Id:.*#[0-9]+ \$$
id_comment : Regex
unfolding digit
id_comment = all_of (bol ∷ lit "// $Id:" ∷ star dot ∷ lit "#" ∷ plus digit ∷ lit " $" ∷ eol ∷ [])

-- The lines that may be long.
pub may_be_long : Bool → Text → Text → Bool
unfolding is_header_guard url_comment id_comment
may_be_long is_header cppvar line =
    starts_with line (codes "#include")
    || is_header_guard is_header cppvar line
    || matches url_comment line
    || matches id_comment line
    || starts_with line (codes "#if")
    || starts_with line (codes "#elif")

-- The check of the width of a line that may not be long.
pub check_width : ℕ → ℕ → Log
check_width line_width linenum =
    if ltb 80 line_width
    then report_at linenum (codes "whitespace/line_length") 4
        (codes "Lines should very rarely be longer than 80 characters")
      ∷ []
    else if ltb 100 line_width
    then report_at linenum (codes "whitespace/line_length") 2
        (codes "Lines should be <= 100 characters long")
      ∷ []
    else []

-- The text that `GetPreviousNonBlankLine` returns.
abbrev previous_text : Option (Text × ℕ) → Text
previous_text none = []
previous_text (some (line, _)) = line

-- The check for more than one command.
pub check_commands : CleansedLines → ℕ → Log
unfolding get_previous_non_blank_line
check_commands clean_lines linenum =
    let cleansed_line = line_at clean_lines.elided linenum in
    let previous = previous_text (get_previous_non_blank_line clean_lines linenum) in
    report_if
      (ltb 1 (count b';' cleansed_line)
        && not (contains cleansed_line (codes "for"))
        && (not (contains previous (codes "for")) || contains previous (codes ";"))
        && not (
            (contains cleansed_line (codes "case ") || contains cleansed_line (codes "default:"))
            && contains cleansed_line (codes "break;")))
      (report_at linenum (codes "whitespace/newline") 4
        (codes "More than one command on the same line"))

-- `CheckSectionSpacing` for the innermost class, if there is one.
check_class_spacing : CleansedLines → ℕ → Stack → Log
unfolding innermost_class check_section_spacing
check_class_spacing clean_lines linenum stack = elim (innermost_class stack) [
  | none ↦ []
  | some c ↦ check_section_spacing clean_lines c linenum
]

-- `CheckStyle`; `none` is a loop of `CheckBraces` that does not end.
unfoldable pub check_style : Unicode → Text → Bool → CleansedLines → ℕ → Stack → Option Log
unfolding check_layout may_be_long get_line_width check_width check_commands check_braces
    check_empty_loop_body check_access check_spacing check_check check_alt_tokens
    check_class_spacing
check_style u cppvar is_header clean_lines linenum stack =
    let line = line_at clean_lines.raw_lines linenum in
    elim (check_braces clean_lines linenum) [
      | none ↦ none
      | some braces_log ↦ some (
          check_layout line linenum clean_lines.raw_lines
          ++ (if may_be_long is_header cppvar line
              then []
              else check_width (get_line_width u line) linenum)
          ++ check_commands clean_lines linenum
          ++ braces_log
          ++ check_empty_loop_body clean_lines linenum
          ++ check_access clean_lines linenum stack
          ++ check_spacing clean_lines linenum stack
          ++ check_check clean_lines linenum
          ++ check_alt_tokens clean_lines linenum
          ++ check_class_spacing clean_lines linenum stack)
    ]
