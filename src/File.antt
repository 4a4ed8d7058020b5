-- ===== src/File.antt =====
-- The checks of utils/tools/cpplint.py on a whole file: `CheckForCopyright`,
-- `CheckForHeaderGuard`, `CheckForUnicodeReplacementCharacters` and `CheckForNewlineAtEOF`. The
-- variable that `GetHeaderGuardCPPVariable` derives from the file's path is a parameter, and so is what
-- `sre_compile.compile` makes of the pattern with that variable.
pub mod Guard
pub mod Ending
mod Examples
use front_server.Common.{
  ℕ, zero, suc, ◌+◌, ◌-◌, Bool, true, false, not, ◌||◌, Option, none, some, List, [], ◌∷◌, ◌++◌,
  ltb, if◌then◌else◌, any, take, drop, length, Text, codes, text_eq, starts_with, contains, lower,
  words, show,
}
use front_server.Common.Regex.{Regex, plus, space, lit, chars, all_of, matches}
use front_server.Lint.{Log, report_at, parse_nolint_suppressions}
use front_server.Cleanse.{line_at}

-- `CheckForCopyright`; `year` is today's.
unfoldable pub check_for_copyright : ℕ → List Text → Log
check_for_copyright year lines =
    if any (λ line. contains (lower line) (codes "copyright")) (take 10 (drop 1 lines))
    then []
    else report_at 1 (codes "legal/copyright") 5 (
        codes "No copyright, suggest: \"Copyright (c) "
        ++ show year
        ++ codes ", Formax Inc. All rights reserved.\"")
      ∷ []

-- What the loop of `CheckForHeaderGuard` has found.
pub record Guards : Type 0 where
  pub ifndef : Option Text
  pub ifndef_linenum : ℕ
  pub define : Option Text
  pub endif : Option Text
  pub endif_linenum : ℕ

pub no_guards : Guards
no_guards = record {
  ifndef = none;
  ifndef_linenum = 0;
  define = none;
  endif = none;
  endif_linenum = 0;
}

-- The argument of a directive, if the line's first word is that directive.
pub argument_of : Text → List Text → Option Text
argument_of name [] = none
argument_of name (w ∷ []) = none
argument_of name (w ∷ argument ∷ ws) = if text_eq w name then some argument else none

pub see_ifndef : Option Text → ℕ → Guards → Guards
see_ifndef none linenum g = g
see_ifndef (some argument) linenum g = elim g.ifndef [
  | none ↦ record g { ifndef = some argument; ifndef_linenum = linenum }
  | some _ ↦ g
]

pub see_define : Option Text → Guards → Guards
see_define none g = g
see_define (some argument) g = elim g.define [
  | none ↦ record g { define = some argument }
  | some _ ↦ g
]

pub see_endif : Text → ℕ → Guards → Guards
see_endif line linenum g =
    if starts_with line (codes "#endif")
    then record g { endif = some line; endif_linenum = linenum }
    else g

-- One round of the loop.
pub see_line : Text → ℕ → Guards → Guards
unfolding argument_of see_ifndef see_define see_endif
see_line line linenum g = see_endif line linenum (
    see_define (argument_of (codes "#define") (words line))
      (see_ifndef (argument_of (codes "#ifndef") (words line)) linenum g))

-- The loop of `CheckForHeaderGuard`.
pub find_guards : List Text → ℕ → Guards → Guards
unfolding see_line
find_guards [] linenum g = g
find_guards (line ∷ lines) linenum g = find_guards lines (linenum + 1) (see_line line linenum g)

guard_error : ℕ → Text → Log
guard_error linenum message = report_at linenum (codes "build/header_guard") 5 message ∷ []

-- The text of the pattern for the last `#endif`, with the variable as it is.
abbrev pub endif_pattern : Text → Text
endif_pattern cppvar = codes "#endif\\s+//\\s+" ++ cppvar

-- The last check of `CheckForHeaderGuard`; `compile` is `sre_compile.compile`, with `none` for its
-- error.
check_endif : (Text → Option Regex) → Text → List Text → Guards → Text → Option Log
unfolding guard_error
check_endif compile cppvar lines g endif = elim (compile (endif_pattern cppvar)) [
  | none ↦ none
  | some pattern ↦ some (
      if matches pattern endif
      then []
      else parse_nolint_suppressions (line_at lines g.endif_linenum) g.endif_linenum
        ++ guard_error g.endif_linenum
            (codes "#endif line should be \"#endif // " ++ cppvar ++ codes "\""))
]

-- The checks of `CheckForHeaderGuard` behind that of the guard's style.
check_rest : (Text → Option Regex) → Text → List Text → Guards → Text → Text → Option Log
unfolding check_endif guard_error
check_rest compile cppvar lines g ifndef define = elim g.endif [
  | none ↦
      some (guard_error (length lines - 1) (codes "No \"#endif // " ++ cppvar ++ codes "\" found"))
  | some endif ↦
      let compared = check_endif compile cppvar lines g endif in
      if text_eq define ifndef
      then compared
      else some (
          guard_error 0
            (codes "#ifndef and #define don't match, suggested CPP variable is: " ++ cppvar))
]

check_style : Text → List Text → Guards → Text → Log
unfolding guard_error
check_style cppvar lines g ifndef =
    if starts_with ifndef cppvar
    then []
    else parse_nolint_suppressions (line_at lines g.ifndef_linenum) g.ifndef_linenum
      ++ guard_error g.ifndef_linenum
          (codes "#ifndef header guard has wrong style, suggested is: " ++ cppvar)

pub check_guards : (Text → Option Regex) → Text → List Text → Guards → Option Log
unfolding check_style check_rest guard_error
check_guards compile cppvar lines g = elim g.ifndef [
  | none ↦
      some (
        guard_error 0
          (codes "No #ifndef header guard found, suggested CPP variable is: " ++ cppvar))
  | some ifndef ↦ elim g.define [
    | none ↦ some (
        guard_error 0
          (codes "No #define header guard found, suggested CPP variable is: " ++ cppvar))
    | some define ↦ elim (check_rest compile cppvar lines g ifndef define) [
      | none ↦ none
      | some log ↦ some (check_style cppvar lines g ifndef ++ log)
    ]
  ]
]

-- `CheckForHeaderGuard`, for the variable `cppvar` and what `sre_compile.compile` makes of a
-- pattern; `none` is the error for a variable that makes the last pattern malformed.
unfoldable pub check_for_header_guard : (Text → Option Regex) → Text → List Text → Option Log
unfolding find_guards no_guards check_guards
check_for_header_guard compile cppvar lines =
    check_guards compile cppvar lines (find_guards lines 0 no_guards)

-- `CheckForUnicodeReplacementCharacters` from a line on
replacement_characters : ℕ → List Text → Log
replacement_characters linenum [] = []
replacement_characters linenum (line ∷ lines) =
    let rest = replacement_characters (linenum + 1) lines in
    if contains line (0xfffd ∷ [])
    then report_at linenum (codes "readability/utf8") 5
        (codes "Line contains invalid UTF-8 (or Unicode replacement character).")
      ∷ rest
    else rest

-- `CheckForUnicodeReplacementCharacters`
unfoldable pub check_for_unicode_replacement_characters : List Text → Log
unfolding replacement_characters
check_for_unicode_replacement_characters lines = replacement_characters 0 lines

-- `lines[-2]`, for at least two lines
pub last_but_one : List Text → Text
last_but_one [] = []
last_but_one (x ∷ []) = []
last_but_one (x ∷ y ∷ []) = x
last_but_one (x ∷ y ∷ z ∷ xs) = last_but_one (y ∷ z ∷ xs)

-- `CheckForNewlineAtEOF`. The file has the two marker lines, so the line number is not negative.
unfoldable pub check_for_newline_at_eof : List Text → Log
unfolding last_but_one
check_for_newline_at_eof lines =
    if ltb (length lines) 3 || not (text_eq (last_but_one lines) [])
    then report_at (length lines - 2) (codes "whitespace/ending_newline") 5
        (codes "Could not find a newline character at the end of the file.")
      ∷ []
    else []
