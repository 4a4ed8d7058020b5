-- ===== src/Macros/Examples.antt =====
-- Runs of the checks of macros and of alternative tokens.
use front_server.Common.{[], ◌∷◌, ◌≡◌, refl, Text, codes, text_run}
use front_server.Common.Regex.{regex_run}
use front_server.Common.Patterns.{shape_run}
use front_server.Cleanse.{CleansedLines}
use front_server.Lint.{report_at}
use front_server.Macros.{check_check, check_alt_tokens, replaceable_check}

abbrev one_line : Text → CleansedLines
one_line line = record {
  elided = line ∷ [];
  lines = line ∷ [];
  raw_lines = line ∷ [];
  num_lines = 1;
}

suggested :
    check_check (one_line (codes "  EXPECT_FALSE_M(x <= 42UL)")) 0
    ≡ report_at 0
        (codes "readability/check")
        2
        (codes "Consider using EXPECT_GT_M instead of EXPECT_FALSE_M(a <= b)")
      ∷ []
unfolding check_check replaceable_check text_run regex_run shape_run
suggested = refl

not_suggested : check_check (one_line (codes "CHECK(x == y || z == 1)")) 0 ≡ []
unfolding check_check text_run regex_run shape_run
not_suggested = refl

tokens :
    check_alt_tokens (one_line (codes "if (a and b or (not c))")) 0
    ≡ report_at 0 (codes "readability/alt_tokens") 2 (codes "Use operator && instead of and")
      ∷ report_at 0 (codes "readability/alt_tokens") 2 (codes "Use operator || instead of or")
      ∷ report_at 0 (codes "readability/alt_tokens") 2 (codes "Use operator ! instead of not")
      ∷ []
unfolding check_alt_tokens text_run regex_run shape_run
tokens = refl
