-- ===== src/Line.antt =====
-- Checks of utils/tools/cpplint.py on one line: strings and comments that go on, functions that
-- are not safe with threads, increments, TODO comments, DISALLOW macros, the spacing of sections
-- and the indent.
mod Layout
pub mod Indent
mod Examples
unfoldable pub use Layout.*
use front_server.Common.{
  ℕ, zero, suc, ◌+◌, ◌-◌, ◌%◌, Bool, true, false, not, ◌&&◌, ◌||◌, Option, none, some, List, [],
  ◌∷◌, ◌++◌, ltb, leb, ◌==◌, if◌then◌else◌, all, take, drop, length, get_or, Text, codes, text_eq,
  find, contains, count, count_text, replace, is_space,
}
use front_server.Common.Regex.{
  Regex, bol, eol, boundary, group, star, plus, sat, space, word, dot, lit, alt, optional, is_word,
  in_set, all_of, any_of, matches, finds, match, group_of,
}
use front_server.Lint.{Log, report_at}
use front_server.Cleanse.{CleansedLines, line_at}
use front_server.Nesting.{Stack, ClassInfo, class_block, block, namespace_block}

-- `CheckForMultilineCommentsAndStrings`. A difference is odd exactly if the sum is.
unfoldable pub check_for_multiline_comments_and_strings : CleansedLines → ℕ → Log
check_for_multiline_comments_and_strings clean_lines linenum =
    let line = replace (codes "\\\\") [] (line_at clean_lines.elided linenum) in
    (if ltb (count_text (codes "*/") line) (count_text (codes "/*") line)
      then report_at linenum (codes "readability/multiline_comment") 5 (
          codes "Complex multi-line /*...*/-style comment found. Lint may give bogus warnings.  "
          ++ codes "Consider replacing these with //-style comments, with #if 0...#endif, "
          ++ codes "or with more clearly structured multi-line comments.")
        ∷ []
      else [])
    ++ (if (count b'"' line + count_text (codes "\\\"") line) % 2 == 1
        then report_at linenum (codes "readability/multiline_string") 5 (
            codes "Multi-line string (\"...\") found.  This lint script doesn't do well with such "
            ++ codes "strings, and may give bogus warnings.  They're ugly and unnecessary, and you "
            ++ codes "should use concatenation instead\".")
          ∷ []
        else [])

-- `threading_list`
abbrev pub threading_list : List (Text × Text)
threading_list =
    (codes "asctime(", codes "asctime_r(")
    ∷ (codes "ctime(", codes "ctime_r(")
    ∷ (codes "getgrgid(", codes "getgrgid_r(")
    ∷ (codes "getgrnam(", codes "getgrnam_r(")
    ∷ (codes "getlogin(", codes "getlogin_r(")
    ∷ (codes "getpwnam(", codes "getpwnam_r(")
    ∷ (codes "getpwuid(", codes "getpwuid_r(")
    ∷ (codes "gmtime(", codes "gmtime_r(")
    ∷ (codes "localtime(", codes "localtime_r(")
    ∷ (codes "rand(", codes "rand_r(")
    ∷ (codes "readdir(", codes "readdir_r(")
    ∷ (codes "strtok(", codes "strtok_r(")
    ∷ (codes "ttyname(", codes "ttyname_r(")
    ∷ []

-- The character is no letter, no digit and none of `_`, `.` and `>`.
pub parts_names : ℕ → Bool
parts_names c = not (is_word c) && not (in_set (codes "_.>") c)

-- The line calls the function: its name stands first or behind a character that parts names.
pub calls : Text → Text → Bool
unfolding parts_names
calls function line = elim (find line function) [
  | none ↦ false
  | some zero ↦ true
  | some (suc i) ↦ parts_names (get_or line i 0)
]

check_threading : ℕ → Text → List (Text × Text) → Log
unfolding calls
check_threading linenum line [] = []
check_threading linenum line ((single, multi) ∷ functions) =
    let rest = check_threading linenum line functions in
    if calls single line
    then report_at linenum (codes "runtime/threadsafe_fn") 2 (
        codes "Consider using "
        ++ multi
        ++ codes "...) instead of "
        ++ single
        ++ codes "...) for improved thread safety.")
      ∷ rest
    else rest

-- `CheckPosixThreading`
unfoldable pub check_posix_threading : CleansedLines → ℕ → Log
unfolding check_threading
check_posix_threading clean_lines linenum =
    check_threading linenum (line_at clean_lines.elided linenum) threading_list

-- `_RE_PATTERN_INVALID_INCREMENT`: ^\s*\*\w+(\+\+|--);
invalid_increment : Regex
invalid_increment =
    all_of
      (bol ∷ star space ∷ lit "*" ∷ plus word ∷ group 1 (alt (lit "++") (lit "--")) ∷ lit ";" ∷ [])

-- `CheckInvalidIncrement`
unfoldable pub check_invalid_increment : CleansedLines → ℕ → Log
unfolding invalid_increment
check_invalid_increment clean_lines linenum =
    if matches invalid_increment (line_at clean_lines.elided linenum)
    then report_at linenum (codes "runtime/invalid_increment") 5
        (codes "Changing pointer instead of value (or unused value of operator*).")
      ∷ []
    else []

-- `_RE_PATTERN_TODO`: ^//(\s*)TODO(\(.+?\))?:?(\s|$)?
-- What follows the group cannot fail, so the lazy loop of the group takes a character and then all
-- up to the next closing parenthesis.
todo : Regex
todo = all_of (
    bol
    ∷ lit "/"
    ∷ lit "/"
    ∷ group 1 (star space)
    ∷ lit "TODO"
    ∷ optional (
        group 2 (
          all_of
            (lit "(" ∷ dot ∷ star (sat (λ c. not (c == 10) && not (c == b')'))) ∷ lit ")" ∷ [])))
    ∷ optional (lit ":")
    ∷ optional (group 3 (alt space eol))
    ∷ [])

todo_error : ℕ → Text → Text → Log
todo_error linenum category message = report_at linenum category 2 message ∷ []

-- The errors for the three groups.
pub check_todo : Text → Option Text → Option Text → ℕ → Log
unfolding todo_error
check_todo leading username middle linenum =
    (if ltb 1 (length leading)
      then todo_error linenum (codes "whitespace/todo") (codes "Too many spaces before TODO")
      else [])
    ++ ((elim username [
      | none ↦
          todo_error linenum (codes "readability/todo")
            (codes "Missing username in TODO; it should look like \"// TODO(yourname): Stuff.\"")
      | some _ ↦ []
    ])
        ++ (elim middle [
          | none ↦
              todo_error linenum (codes "whitespace/todo")
                (codes "TODO(yourname) should be followed by a space")
          | some s ↦
              if not (text_eq s (codes " ")) && not (text_eq s [])
              then todo_error linenum (codes "whitespace/todo")
                  (codes "TODO(yourname) should be followed by a space")
              else []
        ]))

-- `CheckComment`
unfoldable pub check_comment : Text → ℕ → Log
unfolding todo check_todo
check_comment comment linenum = elim (match todo comment) [
  | none ↦ []
  | some m ↦
      check_todo (elim (group_of 1 m) [ none ↦ [] | some t ↦ t ]) (group_of 2 m) (group_of 3 m)
        linenum
]

-- \s*(DISALLOW_COPY_AND_ASSIGN|DISALLOW_EVIL_CONSTRUCTORS|DISALLOW_IMPLICIT_CONSTRUCTORS)
disallow_macro : Regex
disallow_macro = all_of (
    star space
    ∷ group 1 (
        any_of (
          lit "DISALLOW_COPY_AND_ASSIGN"
          ∷ lit "DISALLOW_EVIL_CONSTRUCTORS"
          ∷ lit "DISALLOW_IMPLICIT_CONSTRUCTORS"
          ∷ []))
    ∷ [])

-- The class whose block is the innermost of all blocks.
pub class_on_top : Stack → Option ClassInfo
class_on_top [] = none
class_on_top (b ∷ stack) = elim b.kind [
  | class_block c ↦ some c
  | namespace_block _ ↦ none
  | block ↦ none
]

-- `CheckAccess`
unfoldable pub check_access : CleansedLines → ℕ → Stack → Log
unfolding disallow_macro class_on_top
check_access clean_lines linenum stack =
    elim (match disallow_macro (line_at clean_lines.elided linenum)) [
      | none ↦ []
      | some m ↦ elim (class_on_top stack) [
        | none ↦ []
        | some c ↦
            if text_eq c.access (codes "private")
            then []
            else report_at linenum (codes "readability/constructors") 3 (
                (elim (group_of 1 m) [ none ↦ [] | some t ↦ t ])
                ++ codes " must be in the private: section")
              ∷ []
      ]
    ]

-- \s*(public|protected|private):
section_label : Regex
section_label = all_of (
    star space
    ∷ group 1 (any_of (lit "public" ∷ lit "protected" ∷ lit "private" ∷ []))
    ∷ lit ":"
    ∷ [])

-- \b(class|struct)\b
class_word : Regex
class_word = all_of (boundary ∷ alt (lit "class") (lit "struct") ∷ boundary ∷ [])

-- The loop for the end of the head of a class, over the lines from number `i` on.
find_head_end : ℕ → List Text → ℕ → ℕ
find_head_end start [] i = start
find_head_end start (line ∷ lines) i =
    let later = find_head_end start lines (i + 1) in
    if finds (all_of (lit "{" ∷ star space ∷ eol ∷ [])) line then i else later

-- `CheckSectionSpacing`. A class ends at line 0 if its end was not found.
unfoldable pub check_section_spacing : CleansedLines → ClassInfo → ℕ → Log
unfolding section_label class_word find_head_end is_blank_line
check_section_spacing clean_lines c linenum =
    let previous = line_at clean_lines.lines (linenum - 1) in
    let head =
      find_head_end c.starting_linenum
        (take (linenum - c.starting_linenum) (drop c.starting_linenum clean_lines.lines))
        c.starting_linenum in
    if leb (c.last_line - c.starting_linenum) 24 || leb linenum c.starting_linenum
    then []
    else elim (match section_label (line_at clean_lines.lines linenum)) [
      | none ↦ []
      | some m ↦
          if not (is_blank_line previous)
            && not (finds class_word previous)
            && not (finds (all_of (lit "\\" ∷ eol ∷ [])) previous)
            && ltb head (linenum - 1)
          then report_at linenum (codes "whitespace/blank_line") 3 (
              codes "\""
              ++ (elim (group_of 1 m) [ none ↦ [] | some t ↦ t ])
              ++ codes ":\" should be preceded by a blank line")
            ∷ []
          else []
    ]
