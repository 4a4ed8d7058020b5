-- ===== src/Function/Examples.antt =====
-- Runs of the count of lines, and the theorems of its modules at concrete inputs.
use front_server.Common.{
  ◌≡◌, refl, ℕ, ◌*◌, ◌^◌, ◌≤◌, ◌<◌, min, ◌⊎◌, true, false, List, [], ◌∷◌, codes, text_run,
}
use front_server.Common.Regex.{regex_run}
use front_server.Lint.{Report, report}
use front_server.Cleanse.{CleansedLines}
use front_server.Function.{
  init_function, check_for_function_lengths, FunctionState, FunctionLine, begins, declares, ends,
  counts, blank, base_trigger, check, apply_line, function_line,
}
use front_server.Function.Level.{check-level}
use front_server.Function.Body.{run_lines, apply_line-ends}

abbrev source : CleansedLines
source = record {
  elided = [];
  lines =
      codes "int f(int a,"
      ∷ codes "      int b) {"
      ∷ codes "  return a;"
      ∷ codes ""
      ∷ codes "}"
      ∷ codes "int g();"
      ∷ [];
  raw_lines = [];
  num_lines = 6;
}

source_lines :
    (function_line source 0 ≡ begins (codes "f()"))
    × (function_line source 2 ≡ counts)
    × (function_line source 3 ≡ blank)
    × (function_line source 4 ≡ ends)
    × (function_line source 5 ≡ declares)
unfolding function_line text_run regex_run
source_lines = (refl, refl, refl, refl, refl)

abbrev long : FunctionState
long = record { in_a_function = true; lines_in_function = 2100; current_function = codes "f()" }

check-level_example :
    let trigger = base_trigger (codes "f()") * 2 ^ 1 in
    ((2100 ≤ trigger) × (check 1 9 long ≡ []))
    ⊎ ((trigger < 2100)
        × ((r : Report) × (check 1 9 long ≡ report r ∷ [])
            × (r.linenum ≡ 9)
            × (min 1 5 ≤ r.confidence)
            × (r.confidence ≤ 5)))
check-level_example = check-level 1 9 long

abbrev body : List (ℕ × FunctionLine)
body = (1, counts) ∷ (2, declares) ∷ (3, counts) ∷ (4, blank) ∷ []

apply_line-ends_example :
    apply_line 1 5 ends (run_lines 1 ((0, begins (codes "f()")) ∷ body) long).0 ≡ (
      record { in_a_function = false; lines_in_function = 2; current_function = codes "f()" },
      check 1 5
          (record { in_a_function = true; lines_in_function = 2; current_function = codes "f()" }),
    )
apply_line-ends_example =
    apply_line-ends 1 0 5 (codes "f()") body long (refl, (refl, (refl, (refl, tt))))

counted :
    check_for_function_lengths 1 source 0 init_function
    ≡ (record { in_a_function = true; lines_in_function = 0; current_function = codes "f()" }, [])
unfolding check_for_function_lengths init_function text_run regex_run
counted = refl
