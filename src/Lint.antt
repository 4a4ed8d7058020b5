-- ===== src/Lint.antt =====
-- The module-wide state of utils/tools/cpplint.py: the settings and counters of `_CppLintState`,
-- the NOLINT suppressions, and the error handler `Error` that reads and writes both.
pub mod Categories
pub mod Filters
pub mod Counts
pub mod Written
pub mod Target
pub mod Suppressions
mod Examples
use Categories.{error_categories, default_filters}
use front_server.Common.{
  ℕ, ◌+◌, ◌-◌, Bool, true, false, not, ◌&&◌, ◌||◌, Option, none, some, List, [], ◌∷◌, ◌++◌, ltb,
  ◌==◌, if◌then◌else◌, any, all, take, drop, length, get_or, Text, codes, text_eq, one_of,
  starts_with, ends_with, strip, split_on, show,
}
use front_server.Common.Regex.{
  Regex, boundary, group, seq, star, none_in, lit, optional, all_of, search, Found, group_of,
}

-- What a check passes to `error`, without the file's name, which is the same in all its calls.
pub record Report : Type 0 where
  pub linenum : ℕ
  pub category : Text
  pub confidence : ℕ
  pub message : Text

-- A check's effects, in order: a call of `error`, or
-- `_error_suppressions.setdefault(category, set()).add(linenum)`.
pub data Event : Type 0 where
  report : Report → Event
  suppress : Option Text → ℕ → Event

abbrev pub Log : Type 0
Log = List Event

abbrev pub report_at : ℕ → Text → ℕ → Text → Event
report_at linenum category confidence message =
    report (record {
      linenum = linenum;
      category = category;
      confidence = confidence;
      message = message;
    })

abbrev pub report_if : Bool → Event → Log
report_if b e = if b then e ∷ [] else []

-- `_error_suppressions`: the key `none` is Python's `None`, for all categories.
abbrev pub Suppressions : Type 0
Suppressions = List (Option Text × List ℕ)

pub key_eq : Option Text → Option Text → Bool
key_eq none none = true
key_eq (some a) (some b) = text_eq a b
key_eq _ _ = false

-- `_error_suppressions.get(key, set())`
pub lines_for : Option Text → Suppressions → List ℕ
lines_for key [] = []
lines_for key ((k, ls) ∷ m) = if key_eq k key then ls else lines_for key m

-- `_error_suppressions.setdefault(key, set()).add(linenum)`
pub add_suppression : Option Text → ℕ → Suppressions → Suppressions
add_suppression key linenum [] = (key, linenum ∷ []) ∷ []
add_suppression key linenum ((k, ls) ∷ m) =
    if key_eq k key then (k, linenum ∷ ls) ∷ m else (k, ls) ∷ add_suppression key linenum m

-- `IsErrorSuppressedByNolint`
pub is_error_suppressed_by_nolint : Text → ℕ → Suppressions → Bool
is_error_suppressed_by_nolint category linenum m =
    any (◌==◌ linenum) (lines_for (some category) m) || any (◌==◌ linenum) (lines_for none m)

-- `_RE_SUPPRESSION`: \bNOLINT\b(\([^)]*\))?
suppression_regex : Regex
suppression_regex = all_of (
    boundary
    ∷ lit "NOLINT"
    ∷ boundary
    ∷ optional (group 1 (all_of (lit "(" ∷ star (none_in ")") ∷ lit ")" ∷ [])))
    ∷ [])

-- The group of the NOLINT comment of a line: `none` without a comment, and `some none` without
-- a category.
pub nolint_category : Text → Option (Option Text)
unfolding suppression_regex
nolint_category raw_line = elim (search suppression_regex raw_line) [
  | none ↦ none
  | some m ↦ some (group_of 1 m)
]

-- `s[1:-1]`
abbrev pub inner : Text → Text
inner s = take (length s - 2) (drop 1 s)

-- A comment that stands alone suppresses the next line.
abbrev pub nolint_target : Text → ℕ → ℕ
nolint_target raw_line linenum =
    if starts_with (strip raw_line) (codes "// NOLINT") then linenum + 1 else linenum

-- The events for the group of a NOLINT comment.
pub nolint_events : Option Text → ℕ → Log
nolint_events none linenum = suppress none linenum ∷ []
nolint_events (some category) linenum =
    if text_eq category (codes "(*)")
    then suppress none linenum ∷ []
    else if starts_with category (codes "(") && ends_with category (codes ")")
    then (if one_of error_categories (inner category)
        then suppress (some (inner category)) linenum ∷ []
        else report_at linenum (codes "readability/nolint") 5
            (codes "Unknown NOLINT error category: " ++ inner category)
          ∷ [])
    else []

-- `ParseNolintSuppressions`
unfoldable pub parse_nolint_suppressions : Text → ℕ → Log
parse_nolint_suppressions raw_line linenum = elim (nolint_category raw_line) [
  | none ↦ []
  | some category ↦ nolint_events category (nolint_target raw_line linenum)
]

-- `_CppLintState`. Its class has no dictionary of its own beside these fields.
pub record CppLintState : Type 0 where
  pub verbose_level : ℕ
  pub error_count : ℕ
  pub filters : List Text
  pub counting : Text
  pub errors_by_category : List (Text × ℕ)
  pub quiet : Bool
  pub output_format : Text

-- `_CppLintState.__init__`
pub init_state : CppLintState
init_state = record {
  verbose_level = 1;
  error_count = 0;
  filters = default_filters;
  counting = codes "total";
  errors_by_category = [];
  quiet = false;
  output_format = codes "emacs";
}

unfoldable pub set_output_format : Text → CppLintState → CppLintState
set_output_format f s = record s { output_format = f }

-- `SetVerboseLevel` returns the previous level.
unfoldable pub set_verbose_level : ℕ → CppLintState → CppLintState × ℕ
set_verbose_level level s = (record s { verbose_level = level }, s.verbose_level)

unfoldable pub set_counting_style : Text → CppLintState → CppLintState
set_counting_style c s = record s { counting = c }

unfoldable pub set_quiet : Bool → CppLintState → CppLintState
set_quiet q s = record s { quiet = q }

-- The first loop of `SetFilters`: what it appends.
clean_filters : List Text → List Text
clean_filters [] = []
clean_filters (f ∷ fs) =
    if text_eq (strip f) [] then clean_filters fs else strip f ∷ clean_filters fs

pub has_sign : Text → Bool
has_sign f = starts_with f (codes "+") || starts_with f (codes "-")

-- The second loop of `SetFilters`: the message of the `ValueError` for the first bad filter.
bad_filter : List Text → Option Text
unfolding has_sign
bad_filter [] = none
bad_filter (f ∷ fs) =
    if not (has_sign f)
    then some
        (codes "Every filter in --filters must start with + or - (" ++ f ++ codes " does not)")
    else bad_filter fs

-- `SetFilters`: the new state, which an exception leaves behind too, and the exception's message.
unfoldable pub set_filters : Text → CppLintState → CppLintState × Option Text
unfolding clean_filters bad_filter
set_filters text s =
    let new = default_filters ++ clean_filters (split_on b',' text) in
    (record s { filters = new }, bad_filter new)

-- `ResetErrorCounts`
unfoldable pub reset_error_counts : CppLintState → CppLintState
reset_error_counts s = record s { error_count = 0; errors_by_category = [] }

-- `if category not in d: d[category] = 0` and `d[category] += 1`
pub bump : Text → List (Text × ℕ) → List (Text × ℕ)
bump category [] = (category, 1) ∷ []
bump category ((c, n) ∷ d) = if text_eq c category then (c, n + 1) ∷ d else (c, n) ∷ bump category d

pub counts_categories : Text → Bool
counts_categories counting = one_of (codes "toplevel" ∷ codes "detailed" ∷ []) counting

-- The key under which an error is counted.
pub count_key : Text → Text → Text
count_key counting category =
    if text_eq counting (codes "detailed") then category else get_or (split_on b'/' category) 0 []

-- `IncrementErrorCount`
pub increment_error_count : Text → CppLintState → CppLintState
unfolding bump counts_categories count_key
increment_error_count category s =
    let counted = record s { error_count = s.error_count + 1 } in
    if counts_categories s.counting
    then record counted {
      errors_by_category = bump (count_key s.counting category) s.errors_by_category;
    }
    else counted

-- What `PrintErrorCounts` writes. The order of Python's dictionary is that of insertion here.
category_lines : List (Text × ℕ) → List Text
category_lines [] = []
category_lines ((c, n) ∷ d) =
    (codes "Category '" ++ c ++ codes "' errors found: " ++ show n ++ codes "\n") ∷ category_lines d

unfoldable pub print_error_counts : CppLintState → List Text
unfolding category_lines
print_error_counts s =
    category_lines s.errors_by_category
    ++ (if s.quiet
        then []
        else (codes "Total errors found: " ++ show s.error_count ++ codes "\n") ∷ [])

-- The globals, and what has been written to stderr.
pub record Lint : Type 0 where
  pub suppressions : Suppressions
  pub state : CppLintState
  pub written : List Text

-- `ResetNolintSuppressions`
unfoldable pub reset_nolint_suppressions : Lint → Lint
reset_nolint_suppressions l = record l { suppressions = [] }

-- The loop of `_ShouldPrintError` over the filters; `none` is the failed `assert`.
pub filter_loop : Text → Bool → List Text → Option Bool
filter_loop category is_filtered [] = some is_filtered
filter_loop category is_filtered (f ∷ fs) =
    let covers = starts_with category (drop 1 f) in
    let minus = filter_loop category (if covers then true else is_filtered) fs in
    let plus = filter_loop category (if covers then false else is_filtered) fs in
    if starts_with f (codes "-") then minus else if starts_with f (codes "+") then plus else none

-- `_ShouldPrintError`
pub should_print_error : Text → ℕ → ℕ → Lint → Option Bool
should_print_error category confidence linenum l =
    if is_error_suppressed_by_nolint category linenum l.suppressions
    then some false
    else if ltb confidence l.state.verbose_level
    then some false
    else elim (filter_loop category false l.state.filters) [
      | none ↦ none
      | some is_filtered ↦ some (not is_filtered)
    ]

-- The line that `Error` writes; the flag says that stderr is a terminal on a posix system.
pub error_line : Bool → Text → Text → Report → Text
error_line tty format filename r =
    let tail =
      r.message ++ codes "  [" ++ r.category ++ codes "] [" ++ show r.confidence ++ codes "]" in
    if text_eq format (codes "vs7")
    then filename ++ codes "(" ++ show r.linenum ++ codes "):  " ++ tail ++ codes "\n"
    else if tty
    then 27
      ∷ (codes "[1;31m"
          ++ filename
          ++ codes ":"
          ++ show r.linenum
          ++ codes ":  "
          ++ tail
          ++ 27 ∷ codes "[m\n")
    else filename ++ codes ":" ++ show r.linenum ++ codes ":  " ++ tail ++ codes "\n"

-- `Error`; `none` is the failed `assert` of `_ShouldPrintError`.
unfoldable pub error : Bool → Text → Report → Lint → Option Lint
error tty filename r l = elim (should_print_error r.category r.confidence r.linenum l) [
  | none ↦ none
  | some false ↦ some l
  | some true ↦ some (record l {
    state = increment_error_count r.category l.state;
    written = l.written ++ error_line tty l.state.output_format filename r ∷ [];
  })
]

pub apply : Bool → Text → Event → Lint → Option Lint
apply tty filename (report r) l = error tty filename r l
apply tty filename (suppress key linenum) l =
    some (record l { suppressions = add_suppression key linenum l.suppressions })

-- The effects of a check on the globals.
unfoldable pub run_log : Bool → Text → Log → Lint → Option Lint
run_log tty filename [] l = some l
run_log tty filename (e ∷ es) l = elim (apply tty filename e l) [
  | none ↦ none
  | some l' ↦ run_log tty filename es l'
]

-- Unfolding this unfolds the functions of this module, for a run at a concrete input.
unfoldable pub lint_run : Unit {0}
unfolding nolint_events nolint_category filter_loop lines_for key_eq is_error_suppressed_by_nolint
    error_line should_print_error increment_error_count error add_suppression apply run_log
    parse_nolint_suppressions
lint_run = tt
