-- ===== src/Missing/Examples.antt =====
-- Runs of the check of missing includes, and the theorems of its modules at concrete inputs.
use front_server.Common.{
  List, [], ◌∷◌, ◌≡◌, refl, All, map, none, some, if◌then◌else◌, text_eq, codes, true, false,
  text_run, without_last,
}
use front_server.Common.Regex.{regex_run}
use front_server.Cleanse.{CleansedLines}
use front_server.Lint.{report_at}
use front_server.Missing.{
  Files, Need, missing_error, check_for_include_what_you_use, is_header_file, is_source_file,
  bare_header,
}
use front_server.Missing.Once.{IsOnce, IsUnmet, check_for_include_what_you_use-IsOnce}

-- The header of the module, with its line ends.
abbrev files : Files
files filename =
    if text_eq filename (codes "/r/d/a.h")
    then some (codes "#include <map>\n" ∷ codes "\n" ∷ [])
    else none

abbrev clean_lines : CleansedLines
clean_lines = record {
  elided =
      codes ""
      ∷ codes "map<int, string> a;"
      ∷ codes "std::vector<int> b;"
      ∷ codes "vector<int> c = std::max(d, e);"
      ∷ [];
  lines = [];
  raw_lines = [];
  num_lines = 4;
}

asks :
    check_for_include_what_you_use files
      (codes "/r/d/a_flymake.cc")
      (codes "d/a.cc")
      clean_lines
      (codes "d/a.h" ∷ codes "algorithm" ∷ [])
    ≡ report_at 1 (codes "build/include_what_you_use") 4 (codes "Add #include <string> for string")
      ∷ report_at 3
          (codes "build/include_what_you_use")
          4
          (codes "Add #include <vector> for vector<>")
      ∷ []
unfolding check_for_include_what_you_use missing_error bare_header text_run regex_run without_last
asks = refl

extensions : (is_header_file (codes "a.b.hpp") ≡ true) × (is_source_file (codes "h") ≡ false)
unfolding is_header_file is_source_file text_run
extensions = (refl, refl)

check_for_include_what_you_use-IsOnce_example :
    (needs : List Need) × (check_for_include_what_you_use files
        (codes "/r/d/a.h")
        (codes "d/a.h")
        clean_lines
        (codes "map" ∷ [])
      ≡ map missing_error needs)
    × IsOnce needs
    × All (IsUnmet (codes "map" ∷ [])) needs
check_for_include_what_you_use-IsOnce_example =
    check_for_include_what_you_use-IsOnce files (codes "/r/d/a.h") (codes "d/a.h") clean_lines
      (codes "map" ∷ [])
