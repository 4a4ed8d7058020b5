-- ===== src/Spacing/Marks.antt =====
-- The parts of `CheckSpacing` of utils/tools/cpplint.py about commas, semicolons, braces and colons.
use front_server.Common.{ℕ, ◌&&◌, ◌||◌, [], ◌∷◌, ◌++◌, not, if◌then◌else◌, Text, codes, is_space}
use front_server.Common.Regex.{
  bol, eol, boundary, star, plus, space, word, dot, lit, none_in, all_of, finds, sat, in_set,
}
use front_server.Lint.{Log, report_at, report_if}

-- The checks of commas and semicolons that lack a space.
unfoldable pub check_separators : ℕ → Text → Log
unfolding is_space in_set
check_separators linenum line =
    report_if (finds (all_of (lit "," ∷ sat (λ c. not (is_space c)) ∷ [])) line)
      (report_at linenum (codes "whitespace/comma") 3 (codes "Missing space after ,"))
    ++ report_if
        (finds
          (all_of (lit ";" ∷ sat (λ c. not (is_space c) && not (in_set (codes "};\\)/") c)) ∷ []))
          line)
        (report_at linenum (codes "whitespace/semicolon") 3 (codes "Missing space after ;"))

-- The checks of braces and brackets.
check_brackets : ℕ → Text → Log
check_brackets linenum line =
    report_if (finds (all_of (none_in " ({" ∷ lit "{" ∷ [])) line)
      (report_at linenum (codes "whitespace/braces") 5 (codes "Missing space before {"))
    ++ report_if (finds (lit "}else") line)
        (report_at linenum (codes "whitespace/braces") 5 (codes "Missing space before else"))
    ++ report_if
        (finds (all_of (word ∷ plus space ∷ lit "[" ∷ [])) line
          && not (finds (all_of (lit "delete" ∷ plus space ∷ lit "[" ∷ [])) line))
        (report_at linenum (codes "whitespace/braces") 5 (codes "Extra space before ["))

-- The check of a semicolon at the end of the line.
check_last_semicolon : ℕ → Text → Log
check_last_semicolon linenum line =
    if finds (all_of (lit ":" ∷ star space ∷ lit ";" ∷ star space ∷ eol ∷ [])) line
    then report_at linenum (codes "whitespace/semicolon") 5
        (codes "Semicolon defining empty statement. Use {} instead.")
      ∷ []
    else if finds (all_of (bol ∷ star space ∷ lit ";" ∷ star space ∷ eol ∷ [])) line
    then report_at linenum (codes "whitespace/semicolon") 5 (
        codes "Line contains only semicolon. If this should be an empty statement, "
        ++ codes "use {} instead.")
      ∷ []
    else report_if
        (finds (all_of (plus space ∷ lit ";" ∷ star space ∷ eol ∷ [])) line
          && not (finds (all_of (boundary ∷ lit "for" ∷ boundary ∷ [])) line))
        (report_at linenum (codes "whitespace/semicolon") 5 (
          codes "Extra space before last semicolon. If this should be an empty "
          ++ codes "statement, use {} instead."))

-- for *\(.*[^:]:[^: ] and for *\(.*[^: ]:[^:]
check_for_colon : ℕ → Text → Log
check_for_colon linenum line =
    report_if
      (finds
          (all_of (
            lit "for"
            ∷ star (lit " ")
            ∷ lit "("
            ∷ star dot
            ∷ none_in ":"
            ∷ lit ":"
            ∷ none_in ": "
            ∷ []))
          line
        || finds
            (all_of (
              lit "for"
              ∷ star (lit " ")
              ∷ lit "("
              ∷ star dot
              ∷ none_in ": "
              ∷ lit ":"
              ∷ none_in ":"
              ∷ []))
            line)
      (report_at linenum (codes "whitespace/forcolon") 2
        (codes "Missing space around colon in range-based for loop"))

-- The end of `CheckSpacing`, behind the function calls.
unfoldable pub check_marks : ℕ → Text → Log
unfolding check_brackets check_last_semicolon check_for_colon
check_marks linenum line =
    check_brackets linenum line ++ check_last_semicolon linenum line ++ check_for_colon linenum line
