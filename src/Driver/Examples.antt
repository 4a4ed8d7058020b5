-- ===== src/Driver/Examples.antt =====
-- Runs of the set-up, and the theorems of its modules at concrete inputs.
use front_server.Common.{
  ◌≡◌, ◌≢◌, refl, true, false, some, List, [], ◌∷◌, ◌++◌, All, Text, codes, one_of, text_run,
}
use front_server.Common.Regex.{regex_run}
use front_server.Lint.{CppLintState, Lint, run_log, set_filters, should_print_error}
use front_server.Lint.Filters.{HasSigns}
use front_server.Driver.{
  Setting, output, counting, verbose, ok, parse_arguments, parse_global_nolint_suppressions,
  marks_of,
}
use front_server.Driver.Options.{IsConfigured, parse_arguments-IsConfigured}
use front_server.Driver.Global.{
  names, Silences, parse_global_nolint_suppressions-HasSigns,
  parse_global_nolint_suppressions-silences,
}

abbrev start : CppLintState
start = record {
  verbose_level = 1;
  error_count = 0;
  filters = [];
  counting = codes "total";
  errors_by_category = [];
  quiet = false;
  output_format = codes "emacs";
}

abbrev arguments : List Setting
arguments = verbose (some 3) ∷ counting (codes "detailed") ∷ output (codes "vs7") ∷ []

abbrev configured : CppLintState
configured = record {
  verbose_level = 3;
  error_count = 0;
  filters = (set_filters [] start).0.filters;
  counting = codes "detailed";
  errors_by_category = [];
  quiet = false;
  output_format = codes "vs7";
}

abbrev global_file : List Text
global_file = codes "int x;" ∷ codes "// GLOBAL_NOLINT(build/class)" ∷ []

arguments_parsed : parse_arguments arguments (codes "a.cc" ∷ []) start ≡ ok configured
unfolding parse_arguments set_filters text_run regex_run
arguments_parsed = refl

emacs_is_known : one_of (codes "emacs" ∷ codes "vs7" ∷ []) start.output_format ≡ true
unfolding text_run
emacs_is_known = refl

parse_arguments-IsConfigured_example :
    ((codes "a.cc" ∷ []) ≢ [])
    × IsConfigured configured
    × (configured.error_count ≡ 0)
    × (configured.errors_by_category ≡ [])
parse_arguments-IsConfigured_example =
    parse_arguments-IsConfigured arguments (codes "a.cc" ∷ []) start {t = configured} emacs_is_known
      arguments_parsed

abbrev running : Lint
running = record { suppressions = []; state = start; written = [] }

abbrev silenced : Lint
silenced = record running { state = record start { filters = codes "-build/class" ∷ [] } }

global_parsed :
    parse_global_nolint_suppressions false (codes "a.cc") global_file running ≡ some silenced
unfolding parse_global_nolint_suppressions run_log text_run regex_run
global_parsed = refl

class_is_named : names (codes "build/class") (marks_of global_file) ≡ true
unfolding marks_of text_run regex_run
class_is_named = refl

parse_global_nolint_suppressions-HasSigns_example :
    (l' : Lint) × (added : List Text) × (parse_global_nolint_suppressions false
        (codes "a.cc")
        global_file
        running
      ≡ some l')
    × (l'.state.filters ≡ running.state.filters ++ added)
    × All Silences added
    × HasSigns l'.state.filters
parse_global_nolint_suppressions-HasSigns_example =
    parse_global_nolint_suppressions-HasSigns false (codes "a.cc") global_file running tt

-- The state while the next file is checked: the filters are still there.
abbrev next_file : Lint
next_file = record silenced { suppressions = []; written = codes "b.cc:1:  m\n" ∷ [] }

parse_global_nolint_suppressions-silences_example :
    should_print_error (codes "build/class") 5 3 next_file ≡ some false
parse_global_nolint_suppressions-silences_example =
    parse_global_nolint_suppressions-silences false (codes "a.cc") global_file running next_file
      {l' = silenced} (codes "build/class") 5 3 tt class_is_named global_parsed refl
