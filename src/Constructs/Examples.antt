-- ===== src/Constructs/Examples.antt =====
-- Runs of the check of constructs that are not standard.
use front_server.Common.{[], ◌∷◌, ◌≡◌, refl, Text, codes, true, text_run}
use front_server.Common.Int.{pos}
use front_server.Common.Regex.{regex_run}
use front_server.Common.Patterns.{shape_run}
use front_server.Cleanse.{CleansedLines}
use front_server.Lint.{report_at}
use front_server.Nesting.{Stack, class_block, no_asm}
use front_server.Constructs.{check_for_non_standard_constructs}

abbrev one_line : Text → CleansedLines
one_line line = record {
  elided = line ∷ [];
  lines = line ∷ [];
  raw_lines = line ∷ [];
  num_lines = 1;
}

abbrev in_class : Stack
in_class =
    record {
      seen_open_brace = true;
      open_parentheses = pos 0;
      inline_asm = no_asm;
      kind = class_block (record {
        name = codes "N::A";
        starting_linenum = 0;
        is_derived = true;
        access = codes "public";
        last_line = 9;
      });
    }
    ∷ []

constructor :
    check_for_non_standard_constructs (one_line (codes "  A(int const static b);")) 0 in_class
    ≡ report_at 0
        (codes "build/storage_class")
        5
        (codes "Storage class (static, extern, typedef, etc) should be first.")
      ∷ report_at 0
          (codes "runtime/explicit")
          5
          (codes "Single-argument constructors should be marked explicit.")
      ∷ []
unfolding check_for_non_standard_constructs text_run regex_run shape_run
constructor = refl

copy_constructor :
    check_for_non_standard_constructs (one_line (codes "  A(const A& b);")) 0 in_class ≡ []
unfolding check_for_non_standard_constructs text_run regex_run shape_run
copy_constructor = refl
