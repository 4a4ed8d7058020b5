-- ===== src/Spacing.antt =====
-- `CheckSpacing` and `CheckSpacingForFunctionCall` of utils/tools/cpplint.py: Spacing/Blank has the
-- blank lines and comments, Spacing/Operators the operators, Spacing/Parens the parentheses.
mod Blank
mod Operators
mod Parens
mod Marks
pub mod Start
unfoldable pub use Blank.*
unfoldable pub use Operators.*
unfoldable pub use Parens.*
unfoldable pub use Marks.*
mod Examples
use front_server.Common.{ℕ, List, [], ◌∷◌, ◌++◌, Text, codes, if◌then◌else◌, not, ◌&&◌}
use front_server.Common.Regex.{substitute}
use front_server.Lint.{Log}
use front_server.Cleanse.{CleansedLines, line_at}
use front_server.Nesting.{Stack, in_namespace_body}
use front_server.Line.{is_blank_line}

-- `CheckSpacing`
unfoldable pub check_spacing : CleansedLines → ℕ → Stack → Log
unfolding is_blank_line check_blank_line check_line_comment operator_method check_operators
    check_unary check_parentheses check_separators check_function_call check_marks in_namespace_body
check_spacing clean_lines linenum stack =
    let raw_line = line_at clean_lines.raw_lines linenum in
    let line =
      substitute operator_method (codes "operator\\(") (line_at clean_lines.elided linenum) in
    (if is_blank_line raw_line && not (in_namespace_body stack)
      then check_blank_line clean_lines linenum
      else [])
    ++ check_line_comment raw_line linenum
    ++ check_operators clean_lines linenum line
    ++ check_unary linenum line
    ++ check_parentheses linenum line
    ++ check_separators linenum line
    ++ check_function_call linenum line
    ++ check_marks linenum line
