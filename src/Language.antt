-- ===== src/Language.antt =====
-- The checks of the language in utils/tools/cpplint.py: `CheckLanguage` with `CheckCStyleCast` and
-- `CheckSizeOf`, and `CheckMakePairUsesDeduction`.
mod References
mod Casts
mod Calls
mod Types
mod Arrays
unfoldable pub use References.*
unfoldable pub use Casts.*
unfoldable pub use Calls.*
unfoldable pub use Types.*
unfoldable pub use Arrays.*
pub mod Directives
mod Examples
use front_server.Common.{
  ℕ, suc, ◌-◌, Bool, true, false, ◌&&◌, ◌||◌, Option, none, some, List, [], ◌∷◌, ◌++◌, not, ltb,
  ◌==◌, if◌then◌else◌, length, Text, codes, text_eq,
}
use front_server.Common.Regex.{Regex, boundary, star, lit, space, all_of, finds}
use front_server.Lint.{Log, report_at, report_if}
use front_server.Cleanse.{CleansedLines, line_at, include_regex}
use front_server.Include.{IncludeState, condition_directive}
use front_server.Include.Headers.{is_test_filename}
use front_server.Include.Line.{check_include_line}

-- The part of `CheckLanguage` behind the includes and directives; `none` is the failed `assert` of
-- `_GetTextInside`.
pub check_code : Text → Bool → CleansedLines → ℕ → Option Log
unfolding check_references check_conversions check_casts check_size_of check_cast_address
    check_strings check_rtti check_own_init check_int_types check_snprintf check_old_calls
    check_operator check_braced_if check_format check_memset check_using check_arrays
    check_disallow_last check_unnamed_namespace is_test_filename
check_code filename is_header clean_lines linenum =
    let line = line_at clean_lines.elided linenum in
    let raw_line = line_at clean_lines.raw_lines linenum in
    elim (check_format linenum line) [
      | none ↦ none
      | some format_log ↦ some (
          check_references linenum line
          ++ check_conversions clean_lines linenum line
          ++ check_casts linenum line raw_line
          ++ check_size_of linenum line
          ++ check_cast_address linenum line
          ++ check_strings linenum line
          ++ check_rtti (is_test_filename filename) linenum line
          ++ check_own_init linenum line
          ++ check_int_types linenum line
          ++ check_snprintf linenum line
          ++ check_old_calls linenum line
          ++ check_operator linenum line
          ++ check_braced_if linenum line
          ++ format_log
          ++ check_memset linenum line
          ++ check_using is_header linenum line
          ++ check_arrays linenum line
          ++ check_disallow_last clean_lines linenum line
          ++ check_unnamed_namespace is_header linenum line)
    ]

-- The line holds an include or a conditional directive.
pub is_include_line : Text → Bool
unfolding include_regex condition_directive
is_include_line line = finds include_regex line || finds condition_directive line

-- `CheckLanguage`; `none` is an `IndexError` or a failed `assert`.
unfoldable pub check_language :
    Text → Text → Bool → CleansedLines → ℕ → IncludeState → Option (IncludeState × Log)
unfolding is_include_line check_include_line check_code
check_language repository_name filename is_header clean_lines linenum include_state =
    let line = line_at clean_lines.elided linenum in
    if text_eq line []
    then some (include_state, [])
    else if is_include_line line
    then check_include_line repository_name filename (line_at clean_lines.lines linenum) linenum
        include_state
    else elim (check_code filename is_header clean_lines linenum) [
      | none ↦ none
      | some log ↦ some (include_state, log)
    ]

-- `_RE_PATTERN_EXPLICIT_MAKEPAIR`: \bmake_pair\s*<
explicit_make_pair : Regex
explicit_make_pair = all_of (boundary ∷ lit "make_pair" ∷ star space ∷ lit "<" ∷ [])

-- `CheckMakePairUsesDeduction`
unfoldable pub check_make_pair_uses_deduction : CleansedLines → ℕ → Log
unfolding explicit_make_pair
check_make_pair_uses_deduction clean_lines linenum =
    report_if (finds explicit_make_pair (line_at clean_lines.raw_lines linenum)) (
      report_at linenum (codes "build/explicit_make_pair") 4 (
        codes "For C++11-compatibility, omit template arguments from make_pair"
        ++ codes " OR use pair directly OR if appropriate, construct a pair directly"))
