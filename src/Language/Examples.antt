-- ===== src/Language/Examples.antt =====
-- Runs of the checks of the language.
use front_server.Common.{
  map, inl, false, none, List, Text, [], ◌∷◌, ◌++◌, ◌≡◌, refl, codes, true, some, text_run,
}
use front_server.Common.Regex.{regex_run}
use front_server.Common.Patterns.{shape_run}
use front_server.Cleanse.{cleansed_lines, cleanse_run, line_at, CleansedLines, include_regex}
use front_server.Inside.{inside_run}
use front_server.Include.{init_include, line_kind, closes, include_run, condition_directive}
use front_server.Language.Directives.{
  handed, Nested, text, nil, check_all-unmatched, check_all, line_of,
}
use front_server.Lint.{report_at}
use front_server.Language.{
  check_language, check_make_pair_uses_deduction, check_casts, check_references, check_arrays,
  check_format, check_own_init, is_include_line,
}

casts :
    (check_casts 1 (codes "a = (char *) \"\";") []
      ≡ report_at 1
          (codes "readability/casting")
          4
          (codes "Using C-style cast.  Use const_cast<char *>(...) instead")
        ∷ [])
    × (check_casts 1 (codes "void f(int);") []
        ≡ report_at 1
            (codes "readability/function")
            3
            (codes "All parameters should be named in a function")
          ∷ [])
    × (check_casts 1 (codes "A operator++(int);") [] ≡ [])
unfolding check_casts text_run regex_run shape_run
casts = (refl, refl, refl)

-- A declaration with its parameter's name in a comment is taken for an error, but none is reported.
commented :
    check_casts 1 (codes "void f(int) const;") (codes "void f(int /* n */) const;")
    ≡ report_at 1
        (codes "readability/function")
        3
        (codes "All parameters should be named in a function")
      ∷ []
unfolding check_casts text_run regex_run shape_run
commented = refl

references :
    (check_references 1 (codes "void f(A& a) {")
      ≡ report_at 1
          (codes "runtime/references")
          2
          (codes "Is this a non-const reference? If so, make const or use a pointer.")
        ∷ [])
    × (check_references 1 (codes "void swap(A& a, B& b) {") ≡ [])
unfolding check_references text_run regex_run shape_run
references = (refl, refl)

arrays :
    (check_arrays 1 (codes "int a[kSize * sizeof(int) + 2];") ≡ [])
    × (check_arrays 1 (codes "int a[n + 1];")
        ≡ report_at 1 (codes "runtime/arrays") 1 (
            codes "Do not use variable-length arrays.  Use an appropriately named "
            ++ codes "('k' followed by CamelCase) compile-time constant for the size.")
          ∷ [])
unfolding check_arrays text_run regex_run shape_run
arrays = (refl, refl)

formats :
    (check_format 1 (codes "StringPrintf(a->b());")
      ≡ some (
          report_at 1
            (codes "runtime/printf")
            4
            (codes "Potential format string bug. Do StringPrintf(\"%s\", a->b()) instead.")
          ∷ []))
    × (check_format 1 (codes "printf(__VA_ARGS__);") ≡ some [])
unfolding check_format inside_run text_run regex_run shape_run
formats = (refl, refl)

own :
    check_own_init 1 (codes "A() : b_(b_), c_(c) {")
    ≡ report_at 1
        (codes "runtime/init")
        4
        (codes "You seem to be initializing a member variable with itself.")
      ∷ []
unfolding check_own_init text_run regex_run shape_run
own = refl

a_line :
    check_language
      (codes "d/a.cc")
      (codes "a.cc")
      true
      (cleansed_lines (codes "using namespace std;" ∷ []))
      0
      init_include
    ≡ some (
      init_include,
      report_at 0
            (codes "build/namespaces")
            5
            (codes "Do not use namespace using-directives.  Use using-declarations instead.")
          ∷ [],
    )
unfolding check_language cleansed_lines inside_run text_run regex_run shape_run
a_line = refl

pairs :
    check_make_pair_uses_deduction
      (record {
        elided = [];
        lines = [];
        raw_lines = codes "make_pair<int, int>(1, 2)" ∷ [];
        num_lines = 1;
      })
      0
    ≡ report_at 0 (codes "build/explicit_make_pair") 4 (
        codes "For C++11-compatibility, omit template arguments from make_pair"
        ++ codes " OR use pair directly OR if appropriate, construct a pair directly")
      ∷ []
unfolding check_make_pair_uses_deduction text_run regex_run
pairs = refl

-- An include, a line of code, and a conditional with two branches.
abbrev conditional_file : List (Text × Text)
conditional_file =
    (codes "#include \"a.h\"", codes "#include \"a.h\"")
    ∷ (codes "int x;", codes "int x;")
    ∷ (codes "#if A", codes "#if A")
    ∷ (codes "#else", codes "#else")
    ∷ (codes "#endif", codes "#endif")
    ∷ []

abbrev stray_endif : CleansedLines
stray_endif = cleansed_lines (codes "int x;" ∷ codes "#endif" ∷ codes "int y;" ∷ [])

code_line-Nested : Nested (text false) (handed (map (line_of stray_endif) (0 ∷ [])))
unfolding is_include_line include_regex condition_directive cleanse_run text_run regex_run
code_line-Nested = nil

endif_is_handed : is_include_line (line_at stray_endif.elided 1) ≡ true
unfolding is_include_line include_regex condition_directive cleanse_run text_run regex_run
endif_is_handed = refl

endif_closes : line_kind (line_at stray_endif.lines 1) ≡ closes
unfolding include_run cleanse_run text_run regex_run condition_directive
endif_closes = refl

check_all-unmatched_example :
    check_all (codes "a.cc") (codes "a.cc") false stray_endif ((0 ∷ []) ++ 1 ∷ 2 ∷ []) init_include
    ≡ none
unfolding init_include
check_all-unmatched_example =
    check_all-unmatched (codes "a.cc") (codes "a.cc") false stray_endif (0 ∷ []) (2 ∷ []) 1
      init_include code_line-Nested refl endif_is_handed (inl endif_closes)
