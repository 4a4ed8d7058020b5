-- ===== src/Lint/Examples.antt =====
-- Runs of the error handling, and the theorems of its modules at concrete inputs.
use front_server.Common.{
  is_space, ◌+◌, ◌≡◌, refl, inl, true, false, ◌&&◌, ◌||◌, none, some, [], ◌∷◌, ◌++◌, ◌==◌, codes,
  text_eq, one_of, show, text_run,
}
use front_server.Common.Regex.{regex_run}
use front_server.Lint.Categories.{error_categories}
use front_server.Lint.{
  suppress, report, Report, Log, report_at, CppLintState, init_state, reset_error_counts,
  print_error_counts, reset_nolint_suppressions, Lint, key_eq, has_sign, run_log, error,
  set_filters, should_print_error, is_error_suppressed_by_nolint, increment_error_count,
  counts_categories, count_key, bump, error_line, apply, lines_for, filter_loop, nolint_category,
  nolint_target, parse_nolint_suppressions,
}
use front_server.Lint.Filters.{
  HasSigns, verdict, logged, should_print_error-verdict, error-set_filters,
}
use front_server.Lint.Target.{Target, alone}
use front_server.Lint.Counts.{IsTallied, run_log-IsTallied}
use front_server.Lint.Suppressions.{parse_nolint_suppressions-all, parse_nolint_suppressions-one}

abbrev counting_state : CppLintState
counting_state = record {
  verbose_level = 1;
  error_count = 0;
  filters = codes "-build" ∷ codes "+build/include" ∷ [];
  counting = codes "toplevel";
  errors_by_category = [];
  quiet = false;
  output_format = codes "emacs";
}

abbrev started : Lint
started = record { suppressions = (none, 9 ∷ []) ∷ []; state = counting_state; written = [] }

abbrev one_report : Log
one_report = report_at 3 (codes "build/include") 5 (codes "m") ∷ []

abbrev reported : Lint
reported = record started {
  state = record counting_state { error_count = 1; errors_by_category = (codes "build", 1) ∷ [] };
  written = codes "f.cc:3:  m  [build/include] [5]\n" ∷ [];
}

reported_once : run_log false (codes "f.cc") one_report started ≡ some reported
unfolding run_log apply error should_print_error is_error_suppressed_by_nolint lines_for key_eq
    filter_loop increment_error_count counts_categories count_key bump error_line show text_run
reported_once = refl

filtered : should_print_error (codes "build/class") 5 3 started ≡ some false
unfolding should_print_error is_error_suppressed_by_nolint lines_for key_eq filter_loop text_run
filtered = refl

named_category :
    nolint_category (codes "f();  // NOLINT(build/class)")
    ≡ some (some (codes "(" ++ codes "build/class" ++ codes ")"))
unfolding nolint_category text_run regex_run
named_category = refl

started-HasSigns : HasSigns started.state.filters
unfolding has_sign text_run
started-HasSigns = (refl, (refl, tt))

should_print_error-verdict_example :
    should_print_error (codes "build/include") 5 3 started
    ≡ some (verdict (codes "build/include") 5 3 started)
should_print_error-verdict_example =
    should_print_error-verdict (codes "build/include") 5 3 started started-HasSigns

abbrev filtering : Lint
filtering = record started { state = (set_filters (codes "-build") counting_state).0 }

filters_set : (set_filters (codes "-build") counting_state).1 ≡ none
unfolding set_filters text_run has_sign
filters_set = refl

abbrev class_report : Report
class_report = record {
  linenum = 4;
  category = codes "build/class";
  confidence = 5;
  message = codes "m";
}

error-set_filters_example :
    error false (codes "f.cc") class_report filtering
    ≡ some (
        logged
          (verdict (codes "build/class") 5 4 filtering)
          false
          (codes "f.cc")
          class_report
          filtering)
error-set_filters_example =
    error-set_filters (codes "-build") counting_state false (codes "f.cc") class_report filtering
      filters_set refl

counts_toplevel : IsTallied started.state
unfolding counts_categories text_run
counts_toplevel = (refl, refl)

run_log-IsTallied_example : IsTallied reported.state
run_log-IsTallied_example =
    run_log-IsTallied false (codes "f.cc") one_report started {l' = reported} reported_once
      counts_toplevel

all_categories : nolint_category (codes "  // NOLINT") ≡ some none
unfolding nolint_category text_run regex_run
all_categories = refl

stands_alone : Target (codes "  // NOLINT") 1
unfolding codes is_space
stands_alone = alone (codes "  ") [] refl refl

parse_nolint_suppressions-all_example :
    (l' : Lint) × (run_log false
        (codes "f.cc")
        (parse_nolint_suppressions (codes "  // NOLINT") 5)
        started
      ≡ some l')
    × (is_error_suppressed_by_nolint (codes "build/class") 6 l'.suppressions ≡ (
        6 == 5 + 1 || is_error_suppressed_by_nolint (codes "build/class") 6 started.suppressions))
parse_nolint_suppressions-all_example =
    parse_nolint_suppressions-all false (codes "f.cc") (codes "  // NOLINT") 5 started
      (codes "build/class") 6 (inl all_categories) stands_alone

class_is_known : one_of error_categories (codes "build/class") ≡ true
unfolding text_run
class_is_known = refl

parse_nolint_suppressions-one_example :
    (l' : Lint) × (run_log false
        (codes "f.cc")
        (parse_nolint_suppressions (codes "f();  // NOLINT(build/class)") 5)
        started
      ≡ some l')
    × (is_error_suppressed_by_nolint (codes "build/include") 5 l'.suppressions ≡ (
        (5 == nolint_target (codes "f();  // NOLINT(build/class)") 5
          && text_eq (codes "build/class") (codes "build/include"))
        || is_error_suppressed_by_nolint (codes "build/include") 5 started.suppressions))
parse_nolint_suppressions-one_example =
    parse_nolint_suppressions-one false (codes "f.cc") (codes "f();  // NOLINT(build/class)") 5
      started (codes "build/class") (codes "build/include") 5 named_category class_is_known

counts_printed :
    print_error_counts reported.state
    ≡ codes "Category 'build' errors found: 1\n" ∷ codes "Total errors found: 1\n" ∷ []
unfolding print_error_counts show text_run
counts_printed = refl

counts_reset : reset_error_counts reported.state ≡ counting_state
unfolding reset_error_counts
counts_reset = refl

suppressions_reset : reset_nolint_suppressions started ≡ record started { suppressions = [] }
unfolding reset_nolint_suppressions
suppressions_reset = refl

default_filter_covers :
    should_print_error (codes "readability/streams") 5 3 (record started { state = init_state })
    ≡ some false
unfolding should_print_error is_error_suppressed_by_nolint lines_for key_eq filter_loop init_state
    text_run
default_filter_covers = refl

abbrev two_events : Log
two_events = suppress none 3 ∷ report class_report ∷ []
