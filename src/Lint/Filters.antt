-- ===== src/Lint/Filters.antt =====
-- Which errors `_ShouldPrintError` lets through, and the guard of `SetFilters` that it relies on.
use front_server.Common.{
  ℕ, ◌≡◌, refl, ◌∙◌, ◌↔◌, Bool, true, false, not, ◌&&◌, Option, none, some, List, [], ◌∷◌, ◌++◌,
  ltb, if◌then◌else◌, arith, drop, All, Text, codes, starts_with,
}
use front_server.Lint.{
  Log, suppress, add_suppression, Report, CppLintState, Lint, has_sign, bad_filter, set_filters,
  filter_loop, should_print_error, is_error_suppressed_by_nolint, increment_error_count, error_line,
  error, report, apply, run_log,
}

-- The filter covers the category.
abbrev pub covers : Text → Text → Bool
covers category f = starts_with category (drop 1 f)

-- The last filter that covers the category.
abbrev pub last_cover : Text → List Text → Option Text
last_cover category [] = none
last_cover category (f ∷ fs) = elim (last_cover category fs) [
  | some g ↦ some g
  | none ↦ if covers category f then some f else none
]

abbrev pub HasSigns : List Text → Type 0
HasSigns = All (λ f. has_sign f ≡ true)

-- A category is filtered out if the last filter that covers it has a minus.
abbrev pub filtered_out : Bool → Option Text → Bool
filtered_out start none = start
filtered_out start (some f) = starts_with f (codes "-")

filter_loop-last_cover :
    (category : Text) (start : Bool) (fs : List Text)
    → HasSigns fs
    → filter_loop category start fs ≡ some (filtered_out start (last_cover category fs))
unfolding filter_loop has_sign
filter_loop-last_cover category start [] h = refl
filter_loop-last_cover category start (f ∷ fs) h = ground (
  arith,
  filter_loop-last_cover category start fs h.1,
  filter_loop-last_cover category true fs h.1,
  filter_loop-last_cover category false fs h.1,
)

-- The verdict on an error: printed unless a NOLINT comment suppresses it, its confidence is below
-- the verbosity, or the last filter that covers its category has a minus.
abbrev pub verdict : Text → ℕ → ℕ → Lint → Bool
verdict category confidence linenum l =
    not (is_error_suppressed_by_nolint category linenum l.suppressions)
    && not (ltb confidence l.state.verbose_level)
    && not (filtered_out false (last_cover category l.state.filters))

-- With a sign on every filter, `_ShouldPrintError` fails no assertion, and prints an error exactly
-- if no NOLINT comment suppresses it, its confidence reaches the verbosity, and the last filter
-- that covers its category, if there is one, has no minus.
pub should_print_error-verdict :
    (category : Text) (confidence linenum : ℕ) (l : Lint)
    → HasSigns l.state.filters
    → should_print_error category confidence linenum l
      ≡ some (verdict category confidence linenum l)
unfolding should_print_error
should_print_error-verdict category confidence linenum l h =
    ground (arith, filter_loop-last_cover category false l.state.filters h)

bad_filter-HasSigns : (fs : List Text) → bad_filter fs ≡ none → HasSigns fs
unfolding bad_filter
bad_filter-HasSigns [] e = tt
bad_filter-HasSigns (f ∷ fs) e = ground (arith, bad_filter-HasSigns fs)

HasSigns-bad_filter : (fs : List Text) → HasSigns fs → bad_filter fs ≡ none
unfolding bad_filter
HasSigns-bad_filter [] e = refl
HasSigns-bad_filter (f ∷ fs) e = ground (arith, HasSigns-bad_filter fs)

-- `SetFilters` raises no `ValueError` exactly if every filter that it leaves behind, default or
-- given, starts with a sign.
pub set_filters-HasSigns :
    (text : Text) (s : CppLintState)
    → ((set_filters text s).1 ≡ none) ↔ HasSigns (set_filters text s).0.filters
unfolding set_filters
set_filters-HasSigns text s = (
  bad_filter-HasSigns (set_filters text s).0.filters,
  HasSigns-bad_filter (set_filters text s).0.filters,
)

-- What `Error` does on a verdict: count the error and write its line, or nothing.
abbrev pub logged : Bool → Bool → Text → Report → Lint → Lint
logged printed tty filename r l =
    if printed
    then record l {
      state = increment_error_count r.category l.state;
      written = l.written ++ error_line tty l.state.output_format filename r ∷ [];
    }
    else l

pub error-HasSigns :
    (tty : Bool) (filename : Text) (r : Report) (l : Lint)
    → HasSigns l.state.filters
    → error tty filename r l
      ≡ some (logged (verdict r.category r.confidence r.linenum l) tty filename r l)
unfolding error
error-HasSigns tty filename r l h =
    ground (arith, should_print_error-verdict r.category r.confidence r.linenum l h)

-- If `SetFilters` raised nothing and the filters are still those that it set, `Error` never fails
-- the assertion of `_ShouldPrintError`: it counts the error and writes its line exactly if the
-- verdict is to print it, and otherwise leaves all globals alone.
pub error-set_filters :
    (text : Text) (s : CppLintState) (tty : Bool) (filename : Text) (r : Report) (l : Lint)
    → (set_filters text s).1 ≡ none
    → l.state.filters ≡ (set_filters text s).0.filters
    → error tty filename r l
      ≡ some (logged (verdict r.category r.confidence r.linenum l) tty filename r l)
error-set_filters text s tty filename r l e same =
    error-HasSigns tty filename r l (rw same ((set_filters-HasSigns text s).0 e))

pub logged-filters :
    (printed tty : Bool) (filename : Text) (r : Report) (l : Lint)
    → (logged printed tty filename r l).state.filters ≡ l.state.filters
unfolding increment_error_count
logged-filters printed tty filename r l = ground arith

pub minus-has_sign : (f : Text) → starts_with f (codes "-") ≡ true → has_sign f ≡ true
unfolding has_sign
minus-has_sign f h = ground (arith, h)

pub set_filters-keeps :
    (text : Text) (s : CppLintState)
    → (set_filters text s).0 ≡ record s { filters = (set_filters text s).0.filters }
unfolding set_filters
set_filters-keeps text s = refl

-- With a sign on every filter, every log of a check runs to its end: no report in it fails the
-- assertion of `_ShouldPrintError`, whatever was reported or suppressed before it, and the filters
-- are left alone.
pub run_log-HasSigns :
    (tty : Bool) (filename : Text) (log : Log) (l : Lint)
    → HasSigns l.state.filters
    → (l' : Lint) × (run_log tty filename log l ≡ some l') × (l'.state.filters ≡ l.state.filters)
unfolding run_log apply
run_log-HasSigns tty filename [] l h = (l, refl, refl)
run_log-HasSigns tty filename (suppress key linenum ∷ log) l h =
    run_log-HasSigns tty filename log
      (record l { suppressions = add_suppression key linenum l.suppressions }) h
run_log-HasSigns tty filename (report r ∷ log) l h =
    let m : Lint = logged (verdict r.category r.confidence r.linenum l) tty filename r l in
    let same : m.state.filters ≡ l.state.filters =
      logged-filters (verdict r.category r.confidence r.linenum l) tty filename r l in
    let (l', runs, kept) = run_log-HasSigns tty filename log m (rw same h) in
    (l', ground (arith, error-HasSigns tty filename r l h, runs), kept ∙ same)
