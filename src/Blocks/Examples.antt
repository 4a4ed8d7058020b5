-- ===== src/Blocks/Examples.antt =====
-- Runs of the checks of blocks, and the theorems of its modules at concrete inputs.
use front_server.Common.{
  ◌≡◌, ◌≢◌, refl, ℕ, zero, suc, ◌<◌, true, none, some, List, [], ◌∷◌, ◌++◌, All, arith,
  if◌then◌else◌, length, Text, codes, starts_with, text_run,
}
use front_server.Common.Int.{◌+ℤ◌}
use front_server.Common.Regex.{matches, regex_run}
use front_server.Lint.{report_at}
use front_server.Cleanse.{CleansedLines, line_at}
use front_server.Expression.{close_expression}
use front_server.Expression.Brackets.{Balanced, nil, plain, nested}
use front_server.Line.{is_blank_line, get_previous_non_blank_line}
use front_server.Blocks.{indented_block, join_lines, check_braces, loop_head, check_empty_loop_body}
use front_server.Blocks.Join.{join_lines-enough, join_lines-blank}
use front_server.Blocks.Loops.{check_empty_loop_body-Balanced}

abbrev lines_of : List Text → CleansedLines
lines_of ls = record { elided = ls; lines = ls; raw_lines = ls; num_lines = length ls }

abbrev array_lines : CleansedLines
array_lines = lines_of (codes "int x;" ∷ codes "int a[] =" ∷ codes "" ∷ codes "  {1};" ∷ [])

array_joined : join_lines 9 array_lines (codes "  {1};") (some 3) ≡ some (codes "int a[] =  {1};")
unfolding join_lines text_run regex_run get_previous_non_blank_line
array_joined = refl

join_lines-enough_example :
    join_lines 5 array_lines (codes "  {1};") (some 3) ≡ some (codes "int a[] =  {1};")
join_lines-enough_example =
    join_lines-enough array_lines 3 9 3 (codes "  {1};") {r = codes "int a[] =  {1};"} (omega arith)
      array_joined

abbrev block_first : CleansedLines
block_first = lines_of (codes "" ∷ codes "  {};" ∷ [])

is_block : matches indented_block (codes "  {};") ≡ true
unfolding indented_block text_run regex_run
is_block = refl

empty_is_blank : is_blank_line [] ≡ true
unfolding is_blank_line
empty_is_blank = refl

blank_before : (j : ℕ) → j < 1 → is_blank_line (line_at block_first.elided j) ≡ true
unfolding codes
blank_before zero h = empty_is_blank
blank_before (suc j) h = absurd (omega arith)

join_lines-blank_example : join_lines 100 block_first (codes "  {};") (some 1) ≡ none
join_lines-blank_example = join_lines-blank block_first 1 (codes "  {};") is_block blank_before 100

else_reported :
    check_braces (lines_of (codes "if (a) {" ∷ codes "  b;" ∷ codes "} else c;" ∷ [])) 2
    ≡ some (
        report_at 2
          (codes "readability/braces")
          5
          (codes "If an else has a brace on one side, it should have it on both")
        ∷ report_at 2
            (codes "whitespace/newline")
            4
            (codes "Else clause should never be on same line as else (use 2 lines)")
        ∷ [])
unfolding check_braces text_run regex_run get_previous_non_blank_line
else_reported = refl

abbrev loop_lines : CleansedLines
loop_lines = lines_of ((codes "  while " ++ b'(' ∷ (codes "f()" ++ b')' ∷ codes ";")) ∷ [])

empty_loop_reported :
    check_empty_loop_body loop_lines 0
    ≡ report_at 0
        (codes "whitespace/empty_loop_body")
        5
        (codes "Empty loop bodies should use {} or continue")
      ∷ []
unfolding check_empty_loop_body loop_head close_expression text_run regex_run ◌+ℤ◌
empty_loop_reported = refl

is_loop : matches loop_head (codes "  while " ++ b'(' ∷ (codes "f()" ++ b')' ∷ codes ";")) ≡ true
unfolding loop_head text_run regex_run
is_loop = refl

head_is_free : All (λ c. c ≢ b'(') (codes "  while ")
unfolding codes
head_is_free = (
  omega arith,
  (
    omega arith,
    (omega arith, (omega arith, (omega arith, (omega arith, (omega arith, (omega arith, tt)))))),
  ),
)

condition-Balanced : Balanced b'(' b')' (codes "f()")
unfolding codes
condition-Balanced = plain b'f' (omega arith) (omega arith) (nested nil nil)

check_empty_loop_body-Balanced_example : check_empty_loop_body loop_lines 0 ≡ (
    if starts_with (codes ";") (codes ";")
    then report_at 0
        (codes "whitespace/empty_loop_body")
        5
        (codes "Empty loop bodies should use {} or continue")
      ∷ []
    else [])
check_empty_loop_body-Balanced_example =
    check_empty_loop_body-Balanced loop_lines 0 (codes "  while ") (codes "f()") (codes ";") refl
      is_loop head_is_free condition-Balanced
