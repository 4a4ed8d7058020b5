-- ===== src/Driver.antt =====
-- What utils/tools/cpplint.py sets up before it checks files: `ParseArguments`, behind `getopt`,
-- and `ParseGlobalNolintSuppressions`.
pub mod Options
pub mod Global
pub mod Counting
mod Examples
use front_server.Common.{
  ℕ, ◌+◌, Bool, true, false, not, ◌&&◌, Option, none, some, List, [], ◌∷◌, ◌++◌, if◌then◌else◌,
  Text, codes, text_eq, one_of, starts_with, ends_with,
}
use front_server.Common.Regex.{
  Regex, boundary, group, star, none_in, space, lit, optional, all_of, finds, search, Found,
  group_of,
}
use front_server.Lint.Categories.{error_categories}
use front_server.Lint.{
  Log, Lint, report_at, run_log, inner, CppLintState, set_output_format, set_verbose_level,
  set_filters, set_counting_style, set_quiet,
}

-- An option that `getopt` returns with its value; `verbose` has the value of `int(val)`, with `none`
-- for its `ValueError`, and is taken not to be negative.
pub data Setting : Type 0 where
  help quiet : Setting
  output filter counting : Text → Setting
  verbose : Option ℕ → Setting

-- How `ParseArguments` leaves the program: by `PrintUsage`, with its message, by
-- `PrintCategories`, or by the `ValueError` of `SetFilters` or `int`.
pub data Leaving : Type 0 where
  usage : Option Text → Leaving
  categories : Leaving
  value_error : Text → Leaving

pub data Result {ℓ} (A : Type ℓ) : Type ℓ where
  ok : A → Result A
  leave : Leaving → Result A

-- The local variables of `ParseArguments`.
pub record Chosen : Type 0 where
  pub verbosity : ℕ
  pub output_format : Text
  pub filters : Text
  pub counting_style : Text
  pub is_quiet : Bool

-- The loop of `ParseArguments` over the options.
pub choose : List Setting → Chosen → Result Chosen
choose [] c = ok c
choose (help ∷ opts) c = leave (usage none)
choose (output val ∷ opts) c =
    let rest = choose opts (record c { output_format = val }) in
    if one_of (codes "emacs" ∷ codes "vs7" ∷ []) val
    then rest
    else leave (usage (some (codes "The only allowed output formats are emacs and vs7.")))
choose (verbose none ∷ opts) c = leave (value_error (codes "invalid literal for int()"))
choose (verbose (some val) ∷ opts) c = choose opts (record c { verbosity = val })
choose (filter val ∷ opts) c =
    let rest = choose opts (record c { filters = val }) in
    if text_eq val [] then leave categories else rest
choose (counting val ∷ opts) c =
    let rest = choose opts (record c { counting_style = val }) in
    if one_of (codes "total" ∷ codes "toplevel" ∷ codes "detailed" ∷ []) val
    then rest
    else leave (usage (some (codes "Valid counting options are total, toplevel, and detailed")))
choose (quiet ∷ opts) c = choose opts (record c { is_quiet = true })

-- The calls of the setters at the end of `ParseArguments`.
pub configure : Chosen → CppLintState → Result CppLintState
unfolding set_output_format set_verbose_level set_filters set_counting_style set_quiet
configure c s =
    let formatted = set_output_format c.output_format s in
    let (levelled, _) = set_verbose_level c.verbosity formatted in
    let (filtered, failure) = set_filters c.filters levelled in
    elim failure [
      | some message ↦ leave (value_error message)
      | none ↦ ok (set_quiet c.is_quiet (set_counting_style c.counting_style filtered))
    ]

-- `ParseArguments`, for the options and the other arguments that `getopt` returns: the state of
-- the program behind it, which returns the other arguments.
unfoldable pub parse_arguments : List Setting → List Text → CppLintState → Result CppLintState
unfolding choose configure
parse_arguments opts filenames s =
    elim (choose opts (record {
      verbosity = s.verbose_level;
      output_format = s.output_format;
      filters = [];
      counting_style = [];
      is_quiet = false;
    })) [
      | leave l ↦ leave l
      | ok c ↦ elim filenames [
        | [] ↦ leave (usage (some (codes "No files were specified.")))
        | _ ∷ _ ↦ configure c s
      ]
    ]

-- //\s*GLOBAL_NOLINT
global_mark : Regex
global_mark = all_of (lit "/" ∷ lit "/" ∷ star space ∷ lit "GLOBAL_NOLINT" ∷ [])

-- `_RE_SUPPRESSION_GLOBAL`: \bGLOBAL_NOLINT\b(\([^)]*\))?
suppression_global : Regex
suppression_global = all_of (
    boundary
    ∷ lit "GLOBAL_NOLINT"
    ∷ boundary
    ∷ optional (group 1 (all_of (lit "(" ∷ star (none_in ")") ∷ lit ")" ∷ [])))
    ∷ [])

-- What `ParseGlobalNolintSuppressions` takes a line for: no mark, or one that names no category,
-- that suppresses all, or that names a category, which may be unknown.
pub data Mark : Type 0 where
  unmarked everything : Mark
  known unknown : Text → Mark

pub mark_of_group : Option Text → Mark
mark_of_group none = everything
mark_of_group (some category) =
    if text_eq category (codes "(*)")
    then everything
    else if starts_with category (codes "(") && ends_with category (codes ")")
    then (if one_of error_categories (inner category)
        then known (inner category)
        else unknown (inner category))
    else unmarked

pub mark_of : Text → Mark
unfolding global_mark suppression_global mark_of_group
mark_of line =
    if finds global_mark line
    then elim (search suppression_global line) [
      | none ↦ unmarked
      | some m ↦ mark_of_group (group_of 1 m)
    ]
    else unmarked

-- The loop of `ParseGlobalNolintSuppressions` from the line with number `linenum` on: the filters
-- that it appends, and its error, which ends it.
unfoldable pub global_filters : ℕ → List Mark → List Text × Log
global_filters linenum [] = ([], [])
global_filters linenum (unmarked ∷ marks) = global_filters (linenum + 1) marks
global_filters linenum (everything ∷ marks) = ([], [])
global_filters linenum (known category ∷ marks) =
    let (filters, log) = global_filters (linenum + 1) marks in
    ((codes "-" ++ category) ∷ filters, log)
global_filters linenum (unknown category ∷ marks) = (
  [],
  report_at linenum (codes "readability/nolint") 5
        (codes "Unknown GLOBAL_NOLINT category/type: " ++ category)
      ∷ [],
)

pub append_filters : List Text → Lint → Lint
append_filters filters l =
    let s = l.state in record l { state = record s { filters = s.filters ++ filters } }

unfoldable pub marks_of : List Text → List Mark
unfolding mark_of
marks_of [] = []
marks_of (line ∷ lines) = mark_of line ∷ marks_of lines

-- `ParseGlobalNolintSuppressions`; `none` is the failed `assert` of `_ShouldPrintError`.
unfoldable pub parse_global_nolint_suppressions : Bool → Text → List Text → Lint → Option Lint
unfolding global_filters append_filters marks_of
parse_global_nolint_suppressions tty filename lines l =
    let (filters, log) = global_filters 0 (marks_of lines) in
    run_log tty filename log (append_filters filters l)
