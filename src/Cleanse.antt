-- ===== src/Cleanse.antt =====
-- How utils/tools/cpplint.py cleans the lines of a file: `IsCppString`, the removal of comments of
-- several lines, `CleanseComments`, and `CleansedLines` with its collapsed strings.
pub mod Comments
mod Examples
use front_server.Common.{
  ℕ, zero, suc, ◌+◌, ◌-◌, ◌%◌, Bool, true, not, ◌&&◌, Option, none, some, List, [], ◌∷◌, map, leb,
  ◌==◌, if◌then◌else◌, length, get_or, set, take, drop, Text, codes, starts_with, ends_with, find,
  contains, count, count_text, replace, strip, rstrip,
}
use front_server.Common.Regex.{
  Regex, bol, eol, alt, ahead, group, star, plus, sat, one_in, none_in, space, dot, is_word, lit,
  optional, all_of, any_of, matches, substitute,
}
use front_server.Lint.{Log, report_at}

-- `IsCppString`. A difference is odd exactly if the sum is.
pub is_cpp_string : Text → Bool
is_cpp_string line =
    let l = replace (codes "\\\\") (codes "XX") line in
    (count b'"' l + count_text (codes "\\\"") l + count_text (codes "'\"'") l) % 2 == 1

-- A line that begins a comment and does not end it.
pub opens_comment : Text → Bool
opens_comment line =
    starts_with (strip line) (codes "/*") && not (contains (drop 2 (strip line)) (codes "*/"))

pub closes_comment : Text → Bool
closes_comment line = ends_with (strip line) (codes "*/")

-- The loops of the next two: `i` is the number of the first line of the list.
pub find_start : List Text → ℕ → ℕ
find_start [] i = i
find_start (line ∷ lines) i =
    let later = find_start lines (i + 1) in if opens_comment line then i else later

pub find_end : List Text → ℕ → ℕ
find_end [] i = i
find_end (line ∷ lines) i =
    let later = find_end lines (i + 1) in if closes_comment line then i else later

-- `FindNextMultiLineCommentStart`
pub find_next_multi_line_comment_start : List Text → ℕ → ℕ
unfolding find_start
find_next_multi_line_comment_start lines lineix = find_start (drop lineix lines) lineix

-- `FindNextMultiLineCommentEnd`
pub find_next_multi_line_comment_end : List Text → ℕ → ℕ
unfolding find_end
find_next_multi_line_comment_end lines lineix = find_end (drop lineix lines) lineix

abbrev pub dummy : Text
dummy = codes "// dummy"

-- `RemoveMultiLineCommentsFromRange`, with the count of lines in place of the end
pub clear_lines : ℕ → ℕ → List Text → List Text
clear_lines zero begin lines = lines
clear_lines (suc n) begin lines = clear_lines n (begin + 1) (set lines begin dummy)

-- The loop of `RemoveMultiLineComments`; `none` says that the fuel ran out.
pub remove_loop : ℕ → List Text → ℕ → Option (List Text × Log)
unfolding find_next_multi_line_comment_start find_next_multi_line_comment_end clear_lines
remove_loop zero lines lineix = none
remove_loop (suc fuel) lines lineix =
    let begin = find_next_multi_line_comment_start lines lineix in
    let end = find_next_multi_line_comment_end lines begin in
    let rest = remove_loop fuel (clear_lines (end + 1 - begin) begin lines) (end + 1) in
    if leb (length lines) lineix
    then some (lines, [])
    else if leb (length lines) begin
    then some (lines, [])
    else if leb (length lines) end
    then some (
      lines,
      report_at (begin + 1) (codes "readability/multiline_comment") 5
            (codes "Could not find end of multi-line comment")
          ∷ [],
    )
    else rest

-- `RemoveMultiLineComments`: the lines that it leaves, and what it reports
unfoldable pub remove_multi_line_comments : List Text → Option (List Text × Log)
unfolding remove_loop opens_comment closes_comment
remove_multi_line_comments lines = remove_loop (length lines + 1) lines 0

-- /\*.*\*/
c_comment : Regex
c_comment = all_of (lit "/*" ∷ star dot ∷ lit "*/" ∷ [])

-- `_RE_PATTERN_CLEANSE_LINE_C_COMMENTS`
c_comments : Regex
unfolding c_comment
c_comments = any_of (
    all_of (star space ∷ c_comment ∷ star space ∷ eol ∷ [])
    ∷ all_of (c_comment ∷ plus space ∷ [])
    ∷ all_of (plus space ∷ c_comment ∷ ahead true (sat (λ c. not (is_word c))) ∷ [])
    ∷ c_comment
    ∷ [])

-- The part of a line in front of its `//` comment.
pub without_line_comment : Text → Text
unfolding is_cpp_string
without_line_comment line = elim (find line (codes "//")) [
  | none ↦ line
  | some pos ↦ if is_cpp_string (take pos line) then line else rstrip (take pos line)
]

-- `CleanseComments`
unfoldable pub cleanse_comments : Text → Text
unfolding without_line_comment c_comments
cleanse_comments line = substitute c_comments [] (without_line_comment line)

-- `_RE_PATTERN_INCLUDE`: ^\s*#\s*include\s*([<"])([^>"]*)[>"].*$
unfoldable pub include_regex : Regex
include_regex = all_of (
    bol
    ∷ star space
    ∷ lit "#"
    ∷ star space
    ∷ lit "include"
    ∷ star space
    ∷ group 1 (one_in "<\"")
    ∷ group 2 (star (none_in ">\""))
    ∷ one_in ">\""
    ∷ star dot
    ∷ eol
    ∷ [])

-- `_RE_PATTERN_CLEANSE_LINE_ESCAPES`: \\([abfnrtv?"\\\']|\d+|x[0-9a-fA-F]+)
escapes : Regex
escapes = all_of (
    lit "\\"
    ∷ any_of (
        one_in "abfnrtv?\"\\'"
        ∷ plus (one_in "0123456789")
        ∷ all_of (lit "x" ∷ plus (one_in "0123456789abcdefABCDEF") ∷ [])
        ∷ [])
    ∷ [])

-- `_RE_PATTERN_CLEANSE_LINE_SINGLE_QUOTES`: '.'
single_quotes : Regex
single_quotes = all_of (lit "'" ∷ dot ∷ lit "'" ∷ [])

-- `_RE_PATTERN_CLEANSE_LINE_DOUBLE_QUOTES`: "[^"]*"
double_quotes : Regex
double_quotes = all_of (lit "\"" ∷ star (none_in "\"") ∷ lit "\"" ∷ [])

-- `CleansedLines._CollapseStrings`
pub collapse_strings : Text → Text
unfolding include_regex escapes single_quotes double_quotes
collapse_strings elided =
    if matches include_regex elided
    then elided
    else substitute double_quotes (codes "\"\"")
        (substitute single_quotes (codes "''") (substitute escapes [] elided))

-- `CleansedLines`
pub record CleansedLines : Type 0 where
  pub elided : List Text
  pub lines : List Text
  pub raw_lines : List Text
  pub num_lines : ℕ

-- `CleansedLines.__init__`
unfoldable pub cleansed_lines : List Text → CleansedLines
unfolding cleanse_comments collapse_strings
cleansed_lines raw = record {
  elided = map (λ line. cleanse_comments (collapse_strings line)) raw;
  lines = map (λ line. cleanse_comments line) raw;
  raw_lines = raw;
  num_lines = length raw;
}

-- `clean_lines.elided[linenum]` and so on; a number out of range does not occur.
abbrev pub line_at : List Text → ℕ → Text
line_at lines linenum = get_or lines linenum []

-- Unfolding this unfolds the functions of this module, for a run at a concrete input.
unfoldable pub cleanse_run : Unit {0}
unfolding opens_comment closes_comment find_next_multi_line_comment_start
    find_next_multi_line_comment_end remove_multi_line_comments cleansed_lines
cleanse_run = tt
