-- ===== src/Style/Examples.antt =====
-- Runs of the check of style.
use front_server.Common.{[], ◌∷◌, ◌≡◌, refl, codes, true, some, text_run, ◌==◌}
use front_server.Common.Regex.{regex_run}
use front_server.Common.Patterns.{shape_run}
use front_server.Common.Int.{◌+ℤ◌}
use front_server.Cleanse.{CleansedLines}
use front_server.Blocks.{blocks_run}
use front_server.Lint.{report_at}
use front_server.Style.{Unicode, check_style, get_line_width}

abbrev unicode : Unicode
unicode = record { normalize = λ t. t; is_wide = λ c. c == 20013; is_combining = λ c. c == 769 }

width : get_line_width unicode (b'a' ∷ 769 ∷ 20013 ∷ []) ≡ 3
unfolding get_line_width
width = refl

abbrev label_lines : CleansedLines
label_lines = record {
  elided = codes "" ∷ codes "  label: " ∷ [];
  lines = codes "" ∷ codes "  label: " ∷ [];
  raw_lines = codes "" ∷ codes "  label: " ∷ [];
  num_lines = 2;
}

labels :
    check_style unicode (codes "A_H") true label_lines 1 []
    ≡ some (
        report_at 1
          (codes "whitespace/end_of_line")
          4
          (codes "Line ends in whitespace.  Consider deleting these extra spaces.")
        ∷ report_at 1 (codes "whitespace/labels") 4 (codes "Labels should always be not indented.")
        ∷ [])
unfolding check_style blocks_run text_run regex_run shape_run ◌+ℤ◌
labels = refl
