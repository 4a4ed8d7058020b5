-- ===== src/Line/Layout.antt =====
-- Blank lines and the indent: `IsBlankLine`, `GetPreviousNonBlankLine`, `IndentLength`, `IsBadIndent`.
use front_server.Common.{
  ℕ, zero, suc, ◌+◌, ◌-◌, ◌%◌, Bool, true, false, not, ◌&&◌, ◌||◌, Option, none, some, List, [],
  ◌∷◌, ltb, ◌==◌, if◌then◌else◌, all, take, drop, length, get_or, Text, codes, text_eq, contains,
  is_space,
}
use front_server.Common.Regex.{in_set}
use front_server.Cleanse.{CleansedLines, line_at}

-- `IsBlankLine`
unfoldable pub is_blank_line : Text → Bool
is_blank_line = all is_space

-- The loop of `GetPreviousNonBlankLine` downwards from the line before number `n`.
unfoldable pub previous_non_blank : List Text → ℕ → Option (Text × ℕ)
unfolding is_blank_line
previous_non_blank lines zero = none
previous_non_blank lines (suc n) =
    let earlier = previous_non_blank lines n in
    if is_blank_line (line_at lines n) then earlier else some (line_at lines n, n)

-- `GetPreviousNonBlankLine`, with `none` for the pair of the empty line and -1
unfoldable pub get_previous_non_blank_line : CleansedLines → ℕ → Option (Text × ℕ)
unfolding previous_non_blank
get_previous_non_blank_line clean_lines linenum = previous_non_blank clean_lines.elided linenum

-- `IndentLength`
unfoldable pub indent_length : Text → ℕ
indent_length [] = 0
indent_length (c ∷ s) = if c == 32 then suc (indent_length s) else 0

-- The comparison of `IsBadIndent` with the line before, for an odd indent.
unfoldable pub bad_after : ℕ → Text → Bool
unfolding indent_length
bad_after initial_spaces prev_line =
    let at = λ (i : ℕ). get_or prev_line i 0 in
    let prev_indent = indent_length prev_line in
    if ltb (length prev_line) initial_spaces
    then true
    else if in_set (codes "(<[") (at (initial_spaces - 1))
    then false
    else if prev_indent == initial_spaces
    then false
    else if ltb (initial_spaces + 2) (length prev_line)
        && prev_indent + 2 == initial_spaces
        && text_eq (take 2 (drop prev_indent prev_line)) (codes ": ")
        && not (at initial_spaces == 32)
    then false
    else if ltb initial_spaces (length prev_line)
        && not (is_space (at initial_spaces))
        && is_space (at (initial_spaces - 1))
    then false
    else true

-- `IsBadIndent`
unfoldable pub is_bad_indent : ℕ → Text → ℕ → List Text → Bool
unfolding bad_after
is_bad_indent initial_spaces line linenum raw_lines =
    if initial_spaces % 2 == 0
    then false
    else if linenum == 0
    then true
    else if text_eq line (codes " \\")
    then false
    else if contains line (codes "public:")
        || contains line (codes "protected:")
        || contains line (codes "private:")
    then false
    else bad_after initial_spaces (line_at raw_lines (linenum - 1))
