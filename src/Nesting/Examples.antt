-- ===== src/Nesting/Examples.antt =====
-- Runs of `_NestingState`, and the theorems of its modules at concrete inputs.
use front_server.Common.{
  ◌≡◌, refl, arith, length, ◌+◌, ◌++◌, true, false, some, [], ◌∷◌, codes, text_run,
}
use front_server.Common.Int.{◌+ℤ◌}
use front_server.Common.Regex.{regex_run}
use front_server.Lint.{report_at}
use front_server.Cleanse.{CleansedLines}
use front_server.Nesting.Patterns.{pattern_run}
use front_server.Nesting.{
  check_class_finished, in_namespace_body, begins, alternates, ends, other, directive, Stack,
  init_block, block, seen_open_brace, consume_tokens, init_nesting, innermost_class, update,
}
use front_server.Expression.Brackets.{Balanced, nil, plain, nested}
use front_server.Nesting.Preprocessor.{
  update_lines, effect, Nested, none_left, code, Alternatives, endif, branch,
  update_lines-conditional,
}
use front_server.Nesting.Tokens.{IsLine}
use front_server.Nesting.Braces.{consume_tokens-Balanced}

abbrev class_file : CleansedLines
class_file = record {
  elided =
      codes "namespace a {"
      ∷ codes "#ifdef X"
      ∷ codes "class Foo {"
      ∷ codes "#else"
      ∷ codes "class Foo : public Bar {"
      ∷ codes "#endif"
      ∷ codes " public:"
      ∷ codes "  void f() { g(); }"
      ∷ codes "};"
      ∷ codes "}  // namespace b"
      ∷ [];
  lines = [];
  raw_lines = [];
  num_lines = 10;
}

inside_class :
    innermost_class
      (update_lines class_file (0 ∷ 1 ∷ 2 ∷ 3 ∷ 4 ∷ 5 ∷ 6 ∷ 7 ∷ []) init_nesting).stack
    ≡ some (record {
      name = codes "Foo";
      starting_linenum = 2;
      is_derived = false;
      access = codes "public";
      last_line = 9;
    })
unfolding update innermost_class text_run regex_run pattern_run ◌+ℤ◌
inside_class = refl

all_closed :
    update_lines class_file (0 ∷ 1 ∷ 2 ∷ 3 ∷ 4 ∷ 5 ∷ 6 ∷ 7 ∷ 8 ∷ 9 ∷ []) init_nesting ≡ init_nesting
unfolding update text_run regex_run pattern_run ◌+ℤ◌
all_closed = refl

directives :
    (directive (codes "#ifdef X") ≡ begins)
    × (directive (codes "#else") ≡ alternates)
    × (directive (codes "#endif") ≡ ends)
    × (directive (codes "class Foo {") ≡ other)
    × (directive (codes "class Foo : public Bar {") ≡ other)
unfolding directive text_run regex_run pattern_run
directives = (refl, refl, refl, refl, refl)

inside-Nested : Nested class_file (2 ∷ [])
inside-Nested = code 2 directives.3 none_left

others-Alternatives : Alternatives class_file 5 (3 ∷ 4 ∷ 5 ∷ [])
others-Alternatives = branch 3 directives.1 (code 4 directives.4 none_left) (endif 5 directives.2)

update_lines-conditional_example :
    update_lines class_file (1 ∷ ((2 ∷ []) ++ (3 ∷ 4 ∷ 5 ∷ []))) init_nesting ≡ record {
      stack = effect class_file 5 (update_lines class_file (1 ∷ 2 ∷ []) init_nesting).stack;
      pp_stack = [];
    }
update_lines-conditional_example =
    update_lines-conditional class_file 1 5 (2 ∷ []) (3 ∷ 4 ∷ 5 ∷ []) init_nesting directives.0
      inside-Nested others-Alternatives

abbrev function_stack : Stack
function_stack = init_block true block ∷ []

braces-Balanced : Balanced b'{' b'}' (codes "if {;{}}")
unfolding codes
braces-Balanced = plain b'i' (omega arith) (omega arith) (
    plain b'f' (omega arith) (omega arith) (
      plain 32 (omega arith) (omega arith)
        (nested (plain b';' (omega arith) (omega arith) (nested nil nil)) nil)))

braces-IsLine : IsLine (codes "if {;{}}")
unfolding codes
braces-IsLine = (refl, (refl, (refl, (refl, (refl, (refl, (refl, (refl, tt))))))))

function_seen : seen_open_brace function_stack ≡ true
unfolding seen_open_brace init_block
function_seen = refl

consume_tokens-Balanced_example :
    consume_tokens (length (codes "if {;{}}") + 1) class_file 4 (codes "if {;{}}") function_stack
    ≡ (function_stack, [])
consume_tokens-Balanced_example =
    consume_tokens-Balanced class_file 4 (codes "if {;{}}") function_stack braces-Balanced
      braces-IsLine function_seen

unfinished_class :
    check_class_finished (update_lines class_file (0 ∷ 1 ∷ 2 ∷ []) init_nesting).stack
    ≡ report_at 2 (codes "build/class") 5 (codes "Failed to find complete declaration of class Foo")
      ∷ []
unfolding update check_class_finished text_run regex_run pattern_run ◌+ℤ◌
unfinished_class = refl

in_namespace : in_namespace_body (update_lines class_file (0 ∷ []) init_nesting).stack ≡ true
unfolding update in_namespace_body text_run regex_run pattern_run ◌+ℤ◌
in_namespace = refl
