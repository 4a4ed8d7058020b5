-- ===== src/Line/Examples.antt =====
-- Runs of the checks of a line, and the theorems of its modules at concrete inputs.
use front_server.Common.{◌≡◌, refl, true, false, some, List, [], ◌∷◌, length, Text, codes, text_run}
use front_server.Common.Regex.{regex_run}
use front_server.Lint.{report_at}
use front_server.Cleanse.{CleansedLines, line_at}
use front_server.Common.Int.{pos}
use front_server.Nesting.{ClassInfo, class_block, no_asm}
use front_server.Line.{
  check_posix_threading, check_for_multiline_comments_and_strings, check_access,
  check_section_spacing, check_invalid_increment, check_comment, indent_length,
  get_previous_non_blank_line, calls,
}

abbrev lines_of : List Text → CleansedLines
lines_of ls = record { elided = ls; lines = ls; raw_lines = ls; num_lines = length ls }

increment_found :
    check_invalid_increment (lines_of (codes "  *count++;" ∷ [])) 0
    ≡ report_at 0
        (codes "runtime/invalid_increment")
        5
        (codes "Changing pointer instead of value (or unused value of operator*).")
      ∷ []
unfolding check_invalid_increment text_run regex_run
increment_found = refl

only_whole_names :
    (calls (codes "rand(") (codes "x = rand();") ≡ true)
    × (calls (codes "rand(") (codes "x = srand();") ≡ false)
unfolding calls text_run regex_run
only_whole_names = (refl, refl)

comment_fits : check_comment (codes "// TODO(me): x") 3 ≡ []
unfolding check_comment text_run regex_run
comment_fits = refl

abbrev aligned : List Text
aligned = codes "     f(a," ∷ codes "     b);" ∷ []

first_indent : indent_length (line_at aligned 0) ≡ 5
unfolding indent_length text_run
first_indent = refl

abbrev spaced : List Text
spaced = codes "int x;" ∷ codes "" ∷ codes "  " ∷ codes "int y;" ∷ []

previous_found : get_previous_non_blank_line (lines_of spaced) 3 ≡ some (codes "int x;", 0)
unfolding get_previous_non_blank_line text_run regex_run
previous_found = refl

thread_unsafe :
    length (check_posix_threading (lines_of (codes "x = rand(); y = ctime(t);" ∷ [])) 0) ≡ 2
unfolding check_posix_threading text_run regex_run
thread_unsafe = refl

no_complex_comment :
    check_for_multiline_comments_and_strings (lines_of (codes "f(\"\\\"\"); /* x */" ∷ [])) 0 ≡ []
unfolding check_for_multiline_comments_and_strings text_run regex_run
no_complex_comment = refl

abbrev public_class : ClassInfo
public_class = record {
  name = codes "Foo";
  starting_linenum = 0;
  is_derived = false;
  access = codes "public";
  last_line = 30;
}

abbrev class_lines : List Text
class_lines =
    codes "class Foo {"
    ∷ codes "  int x;"
    ∷ codes " public:"
    ∷ codes "  DISALLOW_COPY_AND_ASSIGN(Foo);"
    ∷ []

public_macro :
    check_access (lines_of class_lines) 3 (
      record {
        seen_open_brace = true;
        open_parentheses = pos 0;
        inline_asm = no_asm;
        kind = class_block public_class;
      }
      ∷ [])
    ≡ report_at 3
        (codes "readability/constructors")
        3
        (codes "DISALLOW_COPY_AND_ASSIGN must be in the private: section")
      ∷ []
unfolding check_access text_run regex_run
public_macro = refl

section_without_blank :
    check_section_spacing (lines_of class_lines) public_class 2
    ≡ report_at 2
        (codes "whitespace/blank_line")
        3
        (codes "\"public:\" should be preceded by a blank line")
      ∷ []
unfolding check_section_spacing text_run regex_run
section_without_blank = refl
