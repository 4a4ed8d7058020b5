-- ===== src/Expression.antt =====
-- `FindEndOfExpressionInLine` and `CloseExpression` of utils/tools/cpplint.py: where the bracket
-- at a place of the cleaned lines is closed.
pub mod Brackets
pub mod Lines
pub mod Skipped
mod Examples
use front_server.Common.{
  ℕ, ◌+◌, Bool, Option, none, some, List, [], ◌∷◌, ◌==◌, if◌then◌else◌, length, drop, get_elem?,
  Text, codes, count,
}
use front_server.Common.Int.{ℤ, pos, negsuc, ◌+ℤ◌, ◌≤ℤ◌, sub_ℕ, leb_ℤ, eqb_ℤ}
use front_server.Cleanse.{CleansedLines, line_at}

-- The depth behind one character.
pub step_depth : ℕ → ℕ → ℕ → ℤ → ℤ
step_depth startchar endchar c depth =
    if c == startchar then depth +ℤ pos 1 else if c == endchar then depth +ℤ negsuc 0 else depth

-- The loop of `FindEndOfExpressionInLine` over what is left of the line; `i` is its position. The
-- depth is tested only at an end character that is not the start character too.
pub find_end : ℕ → ℕ → Text → ℕ → ℤ → Option ℕ
unfolding step_depth
find_end startchar endchar [] i depth = none
find_end startchar endchar (c ∷ s) i depth =
    let depth' = step_depth startchar endchar c depth in
    let rest = find_end startchar endchar s (i + 1) depth' in
    if c == startchar
    then rest
    else if c == endchar
    then (if eqb_ℤ depth' (pos 0) then some (i + 1) else rest)
    else rest

-- `FindEndOfExpressionInLine`, with `none` for -1
pub find_end_of_expression_in_line : Text → ℕ → ℤ → ℕ → ℕ → Option ℕ
unfolding find_end
find_end_of_expression_in_line line startpos depth startchar endchar =
    find_end startchar endchar (drop startpos line) startpos depth

-- The triple that `CloseExpression` returns, with `none` for the position -1.
pub record Closing : Type 0 where
  pub line : Text
  pub linenum : ℕ
  pub position : Option ℕ

-- `line.count(startchar) - line.count(endchar)`
abbrev pub surplus : ℕ → ℕ → Text → ℤ
surplus startchar endchar line = sub_ℕ (count startchar line) (count endchar line)

-- The `while` loop of `CloseExpression` over the lines after the first; `line` is the current one.
pub close_lines : ℕ → ℕ → ℕ → List Text → Text → ℕ → ℤ → Closing
unfolding find_end_of_expression_in_line
close_lines num_lines startchar endchar [] line linenum num_open = record {
  line = line;
  linenum = num_lines;
  position = none;
}
close_lines num_lines startchar endchar (next ∷ rest) line linenum num_open =
    let open_then = num_open +ℤ surplus startchar endchar next in
    let later = close_lines num_lines startchar endchar rest next (linenum + 1) open_then in
    if leb_ℤ open_then (pos 0)
    then record {
      line = next;
      linenum = linenum + 1;
      position = find_end_of_expression_in_line next 0 num_open startchar endchar;
    }
    else later

-- The end character of a start character, and `none` for any other character.
unfoldable pub end_of : ℕ → Option ℕ
end_of c =
    if c == b'('
    then some b')'
    else if c == b'['
    then some b']'
    else if c == b'{'
    then some b'}'
    else none

-- `CloseExpression` from the first line of its search on.
pub close_bracket : CleansedLines → Text → ℕ → ℕ → ℕ → ℕ → Closing
unfolding find_end_of_expression_in_line close_lines
close_bracket clean_lines line linenum startpos startchar endchar =
    elim (find_end_of_expression_in_line line startpos (pos 0) startchar endchar) [
      | some end ↦ record { line = line; linenum = linenum; position = some end }
      | none ↦
          close_lines clean_lines.num_lines startchar endchar
            (drop (linenum + 1) clean_lines.elided) line linenum
            (surplus startchar endchar (drop startpos line))
    ]

-- `CloseExpression`; `none` is the `IndexError` of a place outside the line.
unfoldable pub close_expression : CleansedLines → ℕ → ℕ → Option Closing
unfolding close_bracket end_of
close_expression clean_lines linenum startpos =
    let line = line_at clean_lines.elided linenum in
    elim (get_elem? line startpos) [
      | none ↦ none
      | some startchar ↦ elim (end_of startchar) [
        | none ↦ some (record { line = line; linenum = clean_lines.num_lines; position = none })
        | some endchar ↦ some (close_bracket clean_lines line linenum startpos startchar endchar)
      ]
    ]
