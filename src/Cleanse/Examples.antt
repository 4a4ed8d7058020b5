-- ===== src/Cleanse/Examples.antt =====
-- Runs of the cleaning functions, and the theorems of its modules at concrete inputs.
use front_server.Common.{◌≡◌, refl, true, some, List, [], ◌∷◌, Text, codes, text_run}
use front_server.Common.Regex.{regex_run}
use front_server.Cleanse.{
  is_cpp_string, cleanse_comments, collapse_strings, remove_multi_line_comments, dummy,
  cleansed_lines,
}

in_string : is_cpp_string (codes "x = \"a\\\\ // ") ≡ true
unfolding is_cpp_string text_run regex_run
in_string = refl

comment_cut : cleanse_comments (codes "x = 1;  // the /* x */") ≡ codes "x = 1;"
unfolding cleanse_comments text_run regex_run
comment_cut = refl

comment_kept : cleanse_comments (codes "f(\"//\", /* y */ z)") ≡ codes "f(\"//\", z)"
unfolding cleanse_comments text_run regex_run
comment_kept = refl

collapsed : collapse_strings (codes "f(\"a\\\"b\", 'c', \"d\")") ≡ codes "f(\"\", '', \"\")"
unfolding collapse_strings text_run regex_run
collapsed = refl

abbrev commented : List Text
commented = codes "int x;" ∷ codes " /* a" ∷ codes "b */ " ∷ codes "int y;" ∷ []

removed :
    remove_multi_line_comments commented
    ≡ some (codes "int x;" ∷ dummy ∷ dummy ∷ codes "int y;" ∷ [], [])
unfolding remove_multi_line_comments text_run regex_run
removed = refl

abbrev unfinished : List Text
unfinished = codes "int x;" ∷ codes "/* a" ∷ codes "b" ∷ []

abbrev raw : List Text
raw = codes "f(\"a\");  // b" ∷ []

cleansed : cleansed_lines raw ≡ record {
  elided = codes "f(\"\");" ∷ [];
  lines = codes "f(\"a\");" ∷ [];
  raw_lines = raw;
  num_lines = 1;
}
unfolding cleansed_lines text_run regex_run
cleansed = refl
