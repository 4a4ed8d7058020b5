-- ===== src/Spacing/Examples.antt =====
-- Runs of the check of spacing, and the theorems of its modules at concrete inputs.
use front_server.Common.{
  List, [], ◌∷◌, ◌≡◌, ◌≢◌, refl, sym, ◌∙◌, arith, split_last, Text, codes, true, some, text_run,
  ltb, find, ◌-◌,
}
use front_server.Common.Regex.{regex_run}
use front_server.Common.Patterns.{shape_run}
use front_server.Common.Int.{◌+ℤ◌}
use front_server.Cleanse.{CleansedLines, line_at}
use front_server.Lint.{report_at}
use front_server.Spacing.{check_spacing, check_block_start, check_operators}
use front_server.Spacing.Start.{check_block_start-extern}

abbrev plain_line : Text → CleansedLines
plain_line line = record {
  elided = line ∷ [];
  lines = line ∷ [];
  raw_lines = line ∷ [];
  num_lines = 1;
}

spaced : check_spacing (plain_line (codes "f(a, b);")) 0 [] ≡ []
unfolding check_spacing text_run regex_run shape_run ◌+ℤ◌
spaced = refl

operators :
    check_operators (plain_line (codes "a=1;")) 0 (codes "a=1;")
    ≡ report_at 0 (codes "whitespace/operators") 4 (codes "Missing spaces around =") ∷ []
unfolding check_operators text_run regex_run shape_run
operators = refl

abbrev below_extern : List Text
below_extern = [] ∷ codes "extern \"C\"" ∷ codes "f() {" ∷ [] ∷ []

loud_start :
    check_block_start below_extern 3 (codes "f() {")
    ≡ report_at 3
        (codes "whitespace/blank_line")
        2
        (codes "Blank line at the start of a code block.  Is this needed?")
      ∷ []
unfolding check_block_start split_last text_run regex_run shape_run
loud_start = refl

below_extern-loud : check_block_start below_extern 3 (codes "f() {") ≢ []
below_extern-loud equal = absurd (ground (arith, sym loud_start ∙ equal))

check_block_start-extern_example :
    (ltb 2 3 ≡ true) × (find (line_at below_extern (3 - 2)) (codes "extern \"C\"") ≡ some 0)
check_block_start-extern_example =
    check_block_start-extern below_extern 3 (codes "f() {") below_extern-loud
