-- ===== src/Spacing/Blank.antt =====
-- The parts of `CheckSpacing` of utils/tools/cpplint.py about blank lines and comments.
use mathlib.Core.List.{reverse}
use front_server.Common.{
  ℕ, zero, suc, ◌+◌, ◌-◌, ◌%◌, Bool, true, false, ◌&&◌, ◌||◌, none, some, List, [], ◌∷◌, ◌++◌, not,
  ltb, ◌==◌, if◌then◌else◌, take, drop, get_or, Text, codes, text_eq, contains, find, count,
  count_text, is_space, split_last, starts_with,
}
use front_server.Common.Int.{ℤ, pos, ◌+ℤ◌, sub_ℕ, eqb_ℤ}
use front_server.Common.Regex.{
  Regex, bol, eol, star, plus, optional, group, space, word, lit, none_in, one_in, alt, all_of,
  any_of, finds, matches, match, group_of,
}
use front_server.Lint.{Log, report_at, report_if}
use front_server.Cleanse.{CleansedLines, line_at}
use front_server.Line.{is_blank_line, check_comment}

abbrev last_line : List Text → Text
last_line [] = []
last_line (line ∷ []) = line
last_line (line ∷ next ∷ lines) = last_line (next ∷ lines)

-- `lines[linenum - 1]`: the last line for number 0.
abbrev line_before : List Text → ℕ → Text
line_before lines zero = last_line lines
line_before lines (suc n) = line_at lines n

-- ^ {6}\w
six_spaces : Regex
six_spaces = all_of (lit "      " ∷ word ∷ [])

-- The search upwards for the first line that is not indented by six spaces.
unfoldable pub is_initializer : List Text → Bool
unfolding six_spaces
is_initializer [] = false
is_initializer (line ∷ lines) =
    let above = is_initializer lines in
    if matches six_spaces line then above else text_eq (take 5 line) (codes "    :")

-- {4}\w[^\(]*\)\s*(const\s*)?(\{\s*$|:) behind spaces
header_end : Regex
header_end = all_of (
    lit "    "
    ∷ word
    ∷ star (none_in "(")
    ∷ lit ")"
    ∷ star space
    ∷ optional (all_of (lit "const" ∷ star space ∷ []))
    ∷ alt (all_of (lit "{" ∷ star space ∷ eol ∷ [])) (lit ":")
    ∷ [])

-- The exception for the heads of functions and for initializers.
unfoldable pub is_head_exception : List Text → ℕ → Text → Bool
unfolding is_initializer header_end
is_head_exception elided linenum prev_line =
    if matches six_spaces prev_line
    then is_initializer (reverse (take (linenum - 1) elided))
    else matches header_end prev_line || starts_with prev_line (codes "    :")

-- The loop upwards over blank lines: whether it ends at a line that names a namespace.
unfoldable pub is_below_namespace : List Text → ℕ → Text → Bool
unfolding is_blank_line
is_below_namespace elided zero prev_prev_line = false
is_below_namespace elided (suc n) prev_prev_line =
    let line = line_at elided n in
    let above = is_below_namespace elided n line in
    if is_blank_line prev_prev_line
    then (if contains line (codes "namespace") then true else above)
    else false

-- `prev_prev_line.find('extern "C"')` taken as a truth value: only the position 0 is false.
unfoldable pub is_extern_found : Text → Bool
is_extern_found prev_prev_line = elim (find prev_prev_line (codes "extern \"C\"")) [
  | none ↦ true
  | some zero ↦ false
  | some (suc _) ↦ true
]

-- `exception`, at the end of its computation
unfoldable pub is_exception : List Text → ℕ → Text → Bool
unfolding is_head_exception is_below_namespace is_extern_found
is_exception elided linenum prev_line =
    let prev_prev_line = if ltb 2 linenum then line_at elided (linenum - 2) else [] in
    let m_num = if ltb 2 linenum then linenum - 2 else 1 in
    is_head_exception elided linenum prev_line
    || (contains prev_prev_line (codes "namespace") || is_extern_found prev_prev_line)
    || is_below_namespace elided m_num prev_prev_line

-- The error for a blank line at the start of a block.
unfoldable pub check_block_start : List Text → ℕ → Text → Log
unfolding is_exception
check_block_start elided linenum prev_line = elim (split_last b'{' prev_line) [
  | none ↦ []
  | some (front, back) ↦
      report_if
        (not (contains back (codes "}"))
          && not (contains front (codes "namespace"))
          && not (is_exception elided linenum prev_line))
        (report_at linenum (codes "whitespace/blank_line") 2
          (codes "Blank line at the start of a code block.  Is this needed?"))
]

-- \s*namespace[^{]*{
namespace_head : Regex
namespace_head = all_of (star space ∷ lit "namespace" ∷ star (none_in "{") ∷ lit "{" ∷ [])

-- The loop over the lines upwards, with the count `m_kh` of open braces: `table` at its end. The
-- first argument is the last line of the file, which stands in front of the first by its index -1.
unfoldable pub closes_namespace : Text → ℤ → List Text → Bool
unfolding namespace_head
closes_namespace last m_kh [] = false
closes_namespace last m_kh (line ∷ above) =
    let open_then = (m_kh +ℤ pos (count b'}' line)) +ℤ sub_ℕ 0 (count b'{' line) in
    let rest = closes_namespace last open_then above in
    if eqb_ℤ open_then (pos 0)
    then (if matches namespace_head line
        then true
        else if matches (all_of (star space ∷ lit "{" ∷ [])) line
        then contains (elim above [ [] ↦ last | prev ∷ _ ↦ prev ]) (codes "namespace")
        else rest)
    else rest

-- The error for a blank line at the end of a block.
unfoldable pub check_block_end : CleansedLines → ℕ → Log
unfolding closes_namespace
check_block_end clean_lines linenum =
    let raw = clean_lines.raw_lines in
    let next_line = line_at raw (linenum + 1) in
    report_if
      (ltb (linenum + 1) clean_lines.num_lines
        && matches (all_of (star space ∷ lit "}" ∷ [])) next_line
        && not (contains next_line (codes "namespace"))
        && not (contains next_line (codes "} else "))
        && not (closes_namespace (last_line raw) (pos 1) (reverse (take (linenum + 1) raw))))
      (report_at linenum (codes "whitespace/blank_line") 3
        (codes "Blank line at the end of a code block.  Is this needed?"))

-- \s*(public|protected|private):
access_label : Regex
access_label = all_of (
    star space
    ∷ group 1 (any_of (lit "public" ∷ lit "protected" ∷ lit "private" ∷ []))
    ∷ lit ":"
    ∷ [])

check_behind_label : ℕ → Text → Log
unfolding access_label
check_behind_label linenum prev_line = elim (match access_label prev_line) [
  | none ↦ []
  | some m ↦ elim (group_of 1 m) [
    | none ↦ []
    | some label ↦
        report_at linenum (codes "whitespace/blank_line") 3
          (codes "Do not leave a blank line after \"" ++ label ++ codes ":\"")
        ∷ []
  ]
]

-- The checks of a blank line.
unfoldable pub check_blank_line : CleansedLines → ℕ → Log
unfolding check_block_start check_block_end check_behind_label
check_blank_line clean_lines linenum =
    let prev_line = line_before clean_lines.elided linenum in
    check_block_start clean_lines.elided linenum prev_line
    ++ check_block_end clean_lines linenum
    ++ check_behind_label linenum prev_line

-- The patterns of the comments that need no space: [=/-]{4,}\s*$, ^/$, ^/< , ^/+ and ^/@
comment_exception : Regex
comment_exception = any_of (
    all_of
      (one_in "=/-" ∷ one_in "=/-" ∷ one_in "=/-" ∷ plus (one_in "=/-") ∷ star space ∷ eol ∷ [])
    ∷ all_of (bol ∷ lit "/" ∷ eol ∷ [])
    ∷ all_of (bol ∷ lit "/< " ∷ [])
    ∷ all_of (bol ∷ plus (lit "/") ∷ lit " " ∷ [])
    ∷ all_of (bol ∷ lit "/@" ∷ [])
    ∷ [])

-- ^\s*{ //
brace_comment : Regex
brace_comment = all_of (bol ∷ star space ∷ lit "{ //" ∷ [])

-- The checks of a comment that is not in quotes, for its position.
check_comment_at : Text → ℕ → ℕ → Log
unfolding comment_exception brace_comment check_comment
check_comment_at line commentpos linenum =
    let after = drop (commentpos + 2) line in
    report_if
      (not (matches brace_comment line)
        && ltb 0 commentpos
        && not (is_space (get_or line (commentpos - 1) 0)))
      (report_at linenum (codes "whitespace/comments") 2
        (codes "At least one space is best between code and comments"))
    ++ report_if
        (not (text_eq after [])
          && not (starts_with after (codes " "))
          && not (finds comment_exception after))
        (report_at linenum (codes "whitespace/comments") 4
          (codes "Should have a space between // and comment"))
    ++ check_comment (drop commentpos line) linenum

-- The checks of a comment. A difference is even exactly if the sum is.
unfoldable pub check_line_comment : Text → ℕ → Log
unfolding check_comment_at
check_line_comment line linenum = elim (find line (codes "//")) [
  | none ↦ []
  | some commentpos ↦
      let front = take commentpos line in
      if (count b'"' front + count_text (codes "\\\"") front) % 2 == 0
      then check_comment_at line commentpos linenum
      else []
]
