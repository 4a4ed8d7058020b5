-- ===== src/Blocks.antt =====
-- `CheckBraces` and `CheckEmptyLoopBody` of utils/tools/cpplint.py.
pub mod Join
pub mod Loops
mod Examples
use front_server.Common.{
  ℕ, zero, suc, ◌+◌, Bool, true, false, not, ◌&&◌, ◌||◌, Option, none, some, List, [], ◌∷◌, ◌++◌,
  ltb, ◌==◌, if◌then◌else◌, drop, Text, codes, find, contains, count, starts_with, is_space,
}
use front_server.Common.Regex.{
  Regex, bol, eol, boundary, group, star, plus, space, dot, lit, alt, none_in, one_in, sat, is_word,
  all_of, any_of, matches, finds,
}
use front_server.Lint.{Log, report_at}
use front_server.Cleanse.{CleansedLines, line_at}
use front_server.Expression.{Closing, close_expression}
use front_server.Line.{get_previous_non_blank_line}

abbrev blanks : Regex
blanks = star space

-- \s*{\s*$
lone_brace : Regex
lone_brace = all_of (blanks ∷ lit "{" ∷ blanks ∷ eol ∷ [])

-- [;:}{]\s*$
ends_statement : Regex
ends_statement = all_of (one_in ";:}{" ∷ blanks ∷ eol ∷ [])

-- \s*else\s*
else_first : Regex
else_first = all_of (blanks ∷ lit "else" ∷ blanks ∷ [])

-- \s*}\s*$
lone_end : Regex
lone_end = all_of (blanks ∷ lit "}" ∷ blanks ∷ eol ∷ [])

-- }\s*else[^{]*$
brace_before_else : Regex
brace_before_else = all_of (lit "}" ∷ blanks ∷ lit "else" ∷ star (none_in "{") ∷ eol ∷ [])

-- [^}]*else\s*{
brace_behind_else : Regex
brace_behind_else = all_of (star (none_in "}") ∷ lit "else" ∷ blanks ∷ lit "{" ∷ [])

-- }\s*else if([^{]*)$
brace_before_else_if : Regex
brace_before_else_if =
    all_of (lit "}" ∷ blanks ∷ lit "else if" ∷ group 1 (star (none_in "{")) ∷ eol ∷ [])

-- [^\s{]
clause_start : Regex
clause_start = sat (λ c. not (is_space c) && not (c == b'{'))

-- \belse [^\s{]
else_clause : Regex
unfolding clause_start
else_clause = all_of (boundary ∷ lit "else " ∷ clause_start ∷ [])

-- \belse if\b
else_if : Regex
else_if = all_of (boundary ∷ lit "else if" ∷ boundary ∷ [])

-- \s*do [^\s{]
do_clause : Regex
unfolding clause_start
do_clause = all_of (blanks ∷ lit "do " ∷ clause_start ∷ [])

-- \s+{.*}\s*;
pub indented_block : Regex
indented_block = all_of (plus space ∷ lit "{" ∷ star dot ∷ lit "}" ∷ blanks ∷ lit ";" ∷ [])

-- {.*}\s*;
block_semicolon : Regex
block_semicolon = all_of (lit "{" ∷ star dot ∷ lit "}" ∷ blanks ∷ lit ";" ∷ [])

-- struct|class|enum|\s*=\s*{
declares_type : Regex
declares_type = any_of (
    lit "struct"
    ∷ lit "class"
    ∷ lit "enum"
    ∷ all_of (blanks ∷ lit "=" ∷ blanks ∷ lit "{" ∷ [])
    ∷ [])

-- The text of the line that `GetPreviousNonBlankLine` finds, which is empty without one.
pub previous_text : Option (Text × ℕ) → Text
previous_text none = []
previous_text (some (line, n)) = line

-- `GetPreviousNonBlankLine`, for a number that may be -1
pub previous_line : CleansedLines → Option ℕ → Option (Text × ℕ)
previous_line clean_lines none = none
previous_line clean_lines (some n) = get_previous_non_blank_line clean_lines n

pub previous_number : Option (Text × ℕ) → Option ℕ
previous_number none = none
previous_number (some (line, n)) = some n

-- The loop of `CheckBraces` that puts earlier lines in front of a block: the line that it leaves,
-- and `none` if the fuel runs out. The number -1 is `none`.
pub join_lines : ℕ → CleansedLines → Text → Option ℕ → Option Text
unfolding indented_block previous_line previous_text previous_number
join_lines zero clean_lines line prevlinenum = none
join_lines (suc fuel) clean_lines line prevlinenum =
    let previous = previous_line clean_lines prevlinenum in
    let rest =
      join_lines fuel clean_lines (previous_text previous ++ line) (previous_number previous) in
    if matches indented_block line && count b';' (previous_text previous) == 0
    then rest
    else some line

brace_error : ℕ → Text → ℕ → Text → Log
brace_error linenum category confidence message = report_at linenum category confidence message ∷ []

-- `line[-1:]`
last_part : Text → Text
last_part [] = []
last_part (c ∷ []) = c ∷ []
last_part (c ∷ d ∷ s) = last_part (d ∷ s)

-- `endline[endpos:]`, where -1 leads to the last character
pub text_behind : Closing → Text
unfolding last_part
text_behind r = elim r.position [ some p ↦ drop p r.line | none ↦ last_part r.line ]

-- The place of the parenthesis behind the first `else if`
pub else_if_parenthesis : Text → Option ℕ
else_if_parenthesis line = elim (find line (codes "else if")) [
  | none ↦ none
  | some pos ↦ elim (find (drop pos line) (codes "(")) [ none ↦ none | some i ↦ some (pos + i) ]
]

-- The check of an `else if` that goes on. The place is in the line, so `CloseExpression` succeeds.
check_else_if : CleansedLines → ℕ → Text → Log
unfolding text_behind else_if_parenthesis brace_error
check_else_if clean_lines linenum line = elim (else_if_parenthesis line) [
  | none ↦ []
  | some pos ↦ elim (close_expression clean_lines linenum pos) [
    | none ↦ []
    | some r ↦
        if contains (text_behind r) (codes "{")
        then []
        else brace_error linenum (codes "readability/braces") 5
            (codes "If an else has a brace on one side, it should have it on both")
  ]
]

-- The checks of `CheckBraces` on the line itself.
check_line_braces : CleansedLines → ℕ → Log
unfolding lone_brace ends_statement else_first lone_end brace_before_else brace_behind_else
    brace_before_else_if else_clause else_if do_clause check_else_if brace_error previous_text
check_line_braces clean_lines linenum =
    let line = line_at clean_lines.elided linenum in
    let prevline = previous_text (get_previous_non_blank_line clean_lines linenum) in
    (if matches lone_brace line && not (finds ends_statement prevline)
      then brace_error linenum (codes "whitespace/braces_pos") 4
          (codes "{ should almost always be at the end of the previous line")
      else [])
    ++ ((if matches else_first line && matches lone_end prevline
          then brace_error linenum (codes "whitespace/braces_pos") 4
              (codes "An else should appear on the same line as the preceding }")
          else [])
        ++ ((if finds brace_before_else line || matches brace_behind_else line
              then (if finds brace_before_else_if line
                  then check_else_if clean_lines linenum line
                  else brace_error linenum (codes "readability/braces") 5
                      (codes "If an else has a brace on one side, it should have it on both"))
              else [])
            ++ ((if finds else_clause line && not (finds else_if line)
                  then brace_error linenum (codes "whitespace/newline") 4
                      (codes "Else clause should never be on same line as else (use 2 lines)")
                  else [])
                ++ (if matches do_clause line
                    then brace_error linenum (codes "whitespace/newline") 4
                        (codes "do/while clauses should not be on a single line")
                    else []))))

-- The last check of `CheckBraces`, on the joined line.
check_semicolon : Text → ℕ → Log
unfolding block_semicolon declares_type brace_error
check_semicolon line linenum =
    if finds block_semicolon line
      && count b'{' line == count b'}' line
      && not (finds declares_type line)
    then brace_error linenum (codes "readability/braces") 4 (codes "You don't need a ; after a }")
    else []

-- `CheckBraces`; `none` says that its loop does not end.
unfoldable pub check_braces : CleansedLines → ℕ → Option Log
unfolding join_lines check_line_braces check_semicolon
check_braces clean_lines linenum =
    elim (join_lines (linenum + 2) clean_lines (line_at clean_lines.elided linenum)
      (some linenum)) [
        | none ↦ none
        | some line ↦ some (check_line_braces clean_lines linenum ++ check_semicolon line linenum)
      ]

-- \s*(for|while)\s*\(
pub loop_head : Regex
loop_head = all_of (blanks ∷ group 1 (alt (lit "for") (lit "while")) ∷ blanks ∷ lit "(" ∷ [])

-- The check behind the call of `CloseExpression`.
check_body : Closing → Log
check_body r = elim r.position [
  | none ↦ []
  | some p ↦
      if starts_with (drop p r.line) (codes ";")
      then report_at r.linenum (codes "whitespace/empty_loop_body") 5
          (codes "Empty loop bodies should use {} or continue")
        ∷ []
      else []
]

-- `CheckEmptyLoopBody`. A loop's head has a parenthesis, so the search and `CloseExpression`
-- succeed.
unfoldable pub check_empty_loop_body : CleansedLines → ℕ → Log
unfolding check_body
check_empty_loop_body clean_lines linenum =
    let line = line_at clean_lines.elided linenum in
    if matches loop_head line
    then elim (find line (codes "(")) [
      | none ↦ []
      | some pos ↦ elim (close_expression clean_lines linenum pos) [
        | none ↦ []
        | some r ↦ check_body r
      ]
    ]
    else []

-- Unfolding this unfolds the functions of this module, for a run at a concrete input.
unfoldable pub blocks_run : Unit {0}
unfolding get_previous_non_blank_line close_expression loop_head check_braces check_empty_loop_body
blocks_run = tt
