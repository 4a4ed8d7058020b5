-- ===== src/File/Examples.antt =====
-- Runs of the checks of a file, and the theorems of its modules at concrete inputs.
use front_server.Common.{
  Option, some, none, drop, length, all, if◌then◌else◌, ◌≡◌, refl, ◌↔◌, List, [], ◌∷◌, show, Text,
  codes, text_run,
}
use front_server.Common.Regex.{regex_run, Regex, is_word, all_of, lit, plus, space}
use front_server.Lint.{report_at, lint_run}
use front_server.File.{
  check_for_copyright, check_for_unicode_replacement_characters, check_for_header_guard,
  endif_pattern,
}
use front_server.File.Guard.{IsGuarded, ReadsWords, endif_regex, check_for_header_guard_iff}

abbrev header : List Text
header =
    codes "// marker"
    ∷ codes "#ifndef A_B_H_"
    ∷ codes "#define A_B_H_"
    ∷ codes "#endif  // A_B_H_"
    ∷ []

-- A compiler of the pattern for the last `#endif`, for variables that stand for themselves.
abbrev compile_words : Text → Option Regex
compile_words pattern =
    let name = drop (length (endif_pattern [])) pattern in
    if all is_word name then some (endif_regex name) else none

compile_words-ReadsWords : ReadsWords compile_words
unfolding codes
compile_words-ReadsWords cppvar word = rw word refl

header_is_guarded : check_for_header_guard compile_words (codes "A_B_H_") header ≡ some []
unfolding check_for_header_guard text_run regex_run
header_is_guarded = refl

-- The variable of `a+.h` makes a pattern that does not match the variable itself.
abbrev compile_plus : Text → Option Regex
compile_plus pattern =
    some
      (all_of (lit "#endif" ∷ plus space ∷ lit "//" ∷ plus space ∷ plus (lit "A") ∷ lit "_H" ∷ []))

plus_is_no_guard :
    check_for_header_guard compile_plus
      (codes "A+_H")
      (codes "#ifndef A+_H" ∷ codes "#define A+_H" ∷ codes "#endif // A+_H" ∷ [])
    ≡ some (
        report_at 2
          (codes "build/header_guard")
          5
          (codes "#endif line should be \"#endif // A+_H\"")
        ∷ [])
unfolding check_for_header_guard lint_run text_run regex_run
plus_is_no_guard = refl

check_for_header_guard_iff_example :
    (check_for_header_guard compile_words (codes "A_B_H_") header ≡ some [])
    ↔ IsGuarded (codes "A_B_H_") header
unfolding text_run is_word
check_for_header_guard_iff_example =
    check_for_header_guard_iff compile_words (codes "A_B_H_") header compile_words-ReadsWords refl

no_copyright :
    check_for_copyright 2012 header
    ≡ report_at 1
        (codes "legal/copyright")
        5
        (codes "No copyright, suggest: \"Copyright (c) 2012, Formax Inc. All rights reserved.\"")
      ∷ []
unfolding check_for_copyright show text_run
no_copyright = refl

one_replacement :
    check_for_unicode_replacement_characters (codes "a" ∷ (b'b' ∷ 0xfffd ∷ []) ∷ [])
    ≡ report_at 1
        (codes "readability/utf8")
        5
        (codes "Line contains invalid UTF-8 (or Unicode replacement character).")
      ∷ []
unfolding check_for_unicode_replacement_characters text_run
one_replacement = refl
