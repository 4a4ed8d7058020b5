-- ===== src/Blocks/Loops.antt =====
-- `CheckEmptyLoopBody` on a loop whose head ends on its line.
use front_server.Common.{
  ℕ, ◌+◌, ◌≡◌, ◌≢◌, refl, sym, ap, ◌∙◌, true, some, [], ◌∷◌, ◌++◌, if◌then◌else◌, arith, length,
  length-append, get_elem?, drop, drop-append, append_assoc, All, Text, codes, find, starts_with,
  get_or-get_elem?,
}
use front_server.Common.Regex.{matches}
use front_server.Lint.{report_at}
use front_server.Cleanse.{CleansedLines}
use front_server.Expression.{end_of}
use front_server.Expression.Brackets.{Balanced}
use front_server.Expression.Lines.{close_expression-Balanced}
use front_server.Blocks.{loop_head, check_body, check_empty_loop_body}

find_first :
    (before rest : Text)
    → All (λ c. c ≢ b'(') before
    → find (before ++ b'(' ∷ rest) (codes "(") ≡ some (length before)
unfolding find starts_with codes
find_first [] rest h = refl
find_first (c ∷ before) rest h = ground (arith, find_first before rest h.1, h.0)

-- A loop whose first parenthesis is closed on its line, behind a balanced text, is reported
-- exactly if a semicolon stands directly behind the closing parenthesis.
pub check_empty_loop_body-Balanced :
    (clean_lines : CleansedLines) (linenum : ℕ) (before b after : Text)
    → get_elem? clean_lines.elided linenum ≡ some (before ++ b'(' ∷ (b ++ b')' ∷ after))
    → matches loop_head (before ++ b'(' ∷ (b ++ b')' ∷ after)) ≡ true
    → All (λ c. c ≢ b'(') before
    → Balanced b'(' b')' b
    → check_empty_loop_body clean_lines linenum ≡ (
        if starts_with after (codes ";")
        then report_at linenum
            (codes "whitespace/empty_loop_body")
            5
            (codes "Empty loop bodies should use {} or continue")
          ∷ []
        else [])
unfolding check_empty_loop_body check_body
check_empty_loop_body-Balanced clean_lines linenum before b after at head free h =
    let closed =
      close_expression-Balanced clean_lines linenum b'(' b')' before b after at
        (unfold end_of in refl) h in
    rw
      (
        get_or-get_elem? clean_lines.elided linenum [] at,
        head,
        find_first before (b ++ b')' ∷ after) free,
        closed,
        behind before b after,
      )
      refl
  where
    behind :
        (before b after : Text)
        → drop (length before + length b + 2) (before ++ b'(' ∷ (b ++ b')' ∷ after)) ≡ after
    behind before b after =
        let e : length before + length b + 2 ≡ length (before ++ b'(' ∷ (b ++ b')' ∷ [])) =
          omega
            (arith, length-append before (b'(' ∷ (b ++ b')' ∷ [])), length-append b (b')' ∷ [])) in
        let split : before ++ b'(' ∷ (b ++ b')' ∷ after)
            ≡ (before ++ b'(' ∷ (b ++ b')' ∷ [])) ++ after =
          sym (
            append_assoc before (b'(' ∷ (b ++ b')' ∷ [])) after
            ∙ ap (λ (v : Text). before ++ b'(' ∷ v) (append_assoc b (b')' ∷ []) after)) in
        rw (e, split) (drop-append (before ++ b'(' ∷ (b ++ b')' ∷ [])) after)
