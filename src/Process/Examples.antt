-- ===== src/Process/Examples.antt =====
-- Runs of the program, and the theorems of the modules at concrete inputs.
use mathlib.Core.Path.{subst}
use front_server.Common.{
  ap, ltb, arith, List, [], ◌∷◌, ◌++◌, ◌≡◌, ◌≢◌, refl, All, any, Text, Option, codes, true, false,
  none, some, if◌then◌else◌, text_eq, text_run, without_last, ends_with,
}
use front_server.Common.Int.{◌+ℤ◌}
use front_server.Common.Regex.{regex_run, is_some}
use front_server.Common.Patterns.{shape_run}
use front_server.Nesting.Patterns.{pattern_run}
use front_server.Lint.{Lint, lint_run, reset_error_counts, print_error_counts}
use front_server.Lint.Written.{Accounts}
use front_server.Lint.Categories.{default_filters}
use front_server.Missing.{file_extension, is_header_file_extension}
use front_server.Include.{include_run}
use front_server.Blocks.{blocks_run}
use front_server.Cleanse.{cleanse_run}
use front_server.Inside.{inside_run}
use front_server.Driver.{quiet, parse_arguments, global_filters, marks_of}
use front_server.Process.{Host, main, exits, process_files, process_file_data, strip_returns}
use front_server.Process.{check_file, read_lines, first_marker, last_marker}
use front_server.Process.Counting.{process_files-Accounts}
use front_server.Process.Isolation.{process_file_data-suppressions}
use front_server.Process.Ends.{ChecksEnd, main-exits}
use front_server.Process.Reading.{strip_returns_lem}

abbrev text_of_file : Text → Option Text
text_of_file filename =
    if text_eq filename (codes "a.cc")
    then some (codes "// Copyright\nint f(void) {\n  return sizeof(int);\n}\n")
    else none

abbrev host : Host
host = record {
  repository_name = λ filename. filename;
  full_name = λ filename. filename;
  guard_variable = λ filename. codes "A_H";
  files = λ filename. none;
  utf8 = text_of_file;
  gbk = text_of_file;
  stdin = none;
  year = 2014;
  unicode = record { normalize = λ t. t; is_wide = λ c. false; is_combining = λ c. false };
  compile = λ pattern. none;
  tty = false;
  crlf = false;
}

abbrev fresh : Lint
fresh = record {
  suppressions = [];
  state = record {
    verbose_level = 1;
    error_count = 0;
    filters = [];
    counting = codes "total";
    errors_by_category = [];
    quiet = false;
    output_format = codes "emacs";
  };
  written = [];
}

abbrev size_line : Text
size_line =
    codes "a.cc:3:  Using sizeof(type).  Use sizeof(varname) instead if possible"
    ++ codes "  [runtime/sizeof] [1]\n"

checked : main host (some (quiet ∷ [], codes "a.cc" ∷ [])) fresh ≡ exits 1 (size_line ∷ [])
unfolding main lint_run include_run blocks_run cleanse_run inside_run text_run regex_run shape_run
    pattern_run ◌+ℤ◌ without_last
checked = refl

usage_exit : main host (some ([], [])) fresh ≢ exits 0 []
unfolding main
usage_exit = cc

strip_returns_lem_example :
    All
      (λ line. ends_with line (13 ∷ []) ≡ false)
      (strip_returns ((b'a' ∷ 13 ∷ []) ∷ (b'b' ∷ []) ∷ [])).0
    × ((strip_returns ((b'a' ∷ 13 ∷ []) ∷ (b'b' ∷ []) ∷ [])).1
        ≡ any (λ line. ends_with line (13 ∷ [])) ((b'a' ∷ 13 ∷ []) ∷ (b'b' ∷ []) ∷ []))
strip_returns_lem_example = strip_returns_lem ((b'a' ∷ 13 ∷ []) ∷ (b'b' ∷ []) ∷ [])

abbrev marked_lines : List Text
marked_lines = codes "int a;  // GLOBAL_NOLINT(whitespace/tab)" ∷ codes "" ∷ []

process_file_data-suppressions_example :
    process_file_data host
      (codes "b.cc")
      (codes "cc")
      marked_lines
      (record fresh { suppressions = (none, 1 ∷ []) ∷ [] })
    ≡ process_file_data host (codes "b.cc") (codes "cc") marked_lines fresh
unfolding global_filters marks_of text_run regex_run
process_file_data-suppressions_example =
    process_file_data-suppressions host (codes "b.cc") (codes "cc") marked_lines fresh
      ((none, 1 ∷ []) ∷ []) refl

abbrev hushed : Lint
hushed = record fresh { state = record fresh.state { quiet = true } }

abbrev counted : Lint
counted = record hushed {
  state = record hushed.state { error_count = 1 };
  written = size_line ∷ [];
}

process_files-Accounts_example : Accounts hushed counted
unfolding process_files lint_run include_run blocks_run cleanse_run inside_run text_run regex_run
    shape_run pattern_run ◌+ℤ◌ without_last
process_files-Accounts_example =
    process_files-Accounts host (codes "a.cc" ∷ []) hushed {n = counted} refl

abbrev some_or_nil : Option (List Text) → List Text
some_or_nil none = []
some_or_nil (some lines) = lines

checks_end : ChecksEnd host (codes "a.cc")
unfolding check_file read_lines lint_run include_run blocks_run cleanse_run inside_run text_run
    regex_run shape_run pattern_run ◌+ℤ◌ without_last file_extension is_header_file_extension
    strip_returns
checks_end verbose_level lines e failed =
    let done : is_some (
          check_file host (codes "a.cc") false verbose_level (
            first_marker ∷ (strip_returns (some_or_nil (read_lines host (codes "a.cc")))).0
            ++ last_marker ∷ []))
        ≡ true =
      refl in
    let ended =
      subst
        (λ (ls : List Text).
          is_some (
            check_file host (codes "a.cc") false verbose_level
              (first_marker ∷ (strip_returns ls).0 ++ last_marker ∷ []))
          ≡ true)
        (ap some_or_nil e) done in
    absurd (ground (arith, ended, failed))

main-exits_example :
    (l' : Lint) × (process_files host (codes "a.cc" ∷ []) (record hushed {
      state = reset_error_counts (record hushed.state { filters = default_filters; counting = [] });
    })
      ≡ some l')
    × (main host (some (quiet ∷ [], codes "a.cc" ∷ [])) fresh
        ≡ exits
            (if ltb 0 l'.state.error_count then 1 else 0)
            (l'.written ++ print_error_counts l'.state))
unfolding parse_arguments reset_error_counts text_run
main-exits_example =
    main-exits host (quiet ∷ []) (codes "a.cc" ∷ []) fresh
      {state = record hushed.state { filters = default_filters; counting = [] }} refl refl
      (checks_end, tt)
