-- ===== src/Cleanse/Comments.antt =====
-- The removal of comments that span several lines.
use front_server.Common.{
  ℕ, ◌+◌, ◌<◌, ◌≡◌, ◌⊎◌, true, false, some, Option, List, [], ◌∷◌, length, get_elem?, Text, codes,
}
use front_server.Lint.{Log, report_at}
use front_server.Cleanse.{opens_comment, find_next_multi_line_comment_end, dummy}

-- No line before the `n`-th begins a comment that it does not end.
abbrev pub IsClear : ℕ → List Text → Type 0
IsClear n lines =
    (j : ℕ) (line : Text) → j < n → get_elem? lines j ≡ some line → opens_comment line ≡ false

-- Every line is a dummy or as it was.
abbrev pub IsKept : List Text → List Text → Type 0
IsKept lines lines' =
    (j : ℕ) (line : Text)
    → get_elem? lines' j ≡ some line
    → (line ≡ dummy) ⊎ (get_elem? lines j ≡ some line)

abbrev pub OpensAt : ℕ → List Text → Type 0
OpensAt n lines = (line : Text) × (get_elem? lines n ≡ some line) × (opens_comment line ≡ true)

-- Without a report no line begins a comment that it does not end; a report is of the first such
-- line, and no line from it on ends a comment.
abbrev pub IsOutcome : List Text → Log → Type 0
IsOutcome lines [] = IsClear (length lines) lines
IsOutcome lines (e ∷ log) =
    (begin : ℕ) × IsClear begin lines
    × OpensAt begin lines
    × (find_next_multi_line_comment_end lines begin ≡ length lines)
    × (e ∷ log
        ≡ report_at (begin + 1) (codes "readability/multiline_comment") 5
            (codes "Could not find end of multi-line comment")
          ∷ [])

abbrev pub Removes : List Text → List Text × Log → Type 0
Removes lines (lines', log) =
    (length lines' ≡ length lines) × IsKept lines lines' × IsOutcome lines' log

-- The result of a loop, if it has one.
abbrev Ends : List Text → Option (List Text × Log) → Type 0
Ends lines r = (q : List Text × Log) × (r ≡ some q) × Removes lines q
