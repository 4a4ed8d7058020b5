-- ===== src/Include/Examples.antt =====
-- Runs of the include states, and the theorems of its modules at concrete inputs.
use front_server.Common.{
  Text, ◌++◌, ◌≡◌, ◌↔◌, true, refl, some, List, [], ◌∷◌, All, codes, text_run, arith, split_path,
  splitext, normpath, false,
}
use front_server.Common.Regex.{regex_run}
use front_server.Include.{
  c_sys, cpp_sys, likely_my, possible_my, other, ScopedIncludeState, init_scope,
  check_next_include_order, type_name, section_name, check_include_alphabetical_order,
  canonicalize_alphabetical_order, top, set_top, IncludeState, get, get_all, put, opens, splits,
  closes, plain, line_kind, enter_line,
}
use front_server.Include.Alphabet.{
  HaveDirs, accepts_all, IsAscending, check_include_alphabetical_order-IsAscending,
}
use front_server.Include.Order.{messages, accepts}
use front_server.Include.Scopes.{IsDict, latest, get-get_all}
use front_server.Lint.{report_at}
use front_server.Include.Line.Stack.{Agree, lines_by_value, check_include_lines-Agree}
use front_server.Include.Headers.Suffixes.{classify_include-suffixes}
use front_server.Include.Headers.Parts.{no_extension-extension}
use front_server.Cleanse.{include_regex}
use front_server.Include.Headers.{
  drop_common_suffixes, split, classify_include, is_test_filename, extension, no_extension,
  is_source,
}
use front_server.Include.Line.{check_include_line, check_include_lines, included, check_plain}

c_after_cpp : accepts (messages (likely_my ∷ cpp_sys ∷ c_sys ∷ []) init_scope) ≡ false
unfolding check_next_include_order init_scope text_run
c_after_cpp = refl

abbrev in_cpp : ScopedIncludeState
in_cpp = record { section = 3; last_header = codes "string"; last_line = 4; entries = [] }

-- The first scope is closed, and the second is open.
abbrev two_scopes : IncludeState
two_scopes = record {
  stack = 1 ∷ [];
  all =
      record in_cpp { entries = (codes "a.h", 1) ∷ (codes "b.h", 2) ∷ [] }
      ∷ record in_cpp { entries = (codes "a.h", 5) ∷ [] }
      ∷ [];
}

kept_in_closed : get (codes "b.h") (get_all two_scopes) ≡ some 2
unfolding get get_all text_run
kept_in_closed = refl

scopes-IsDict : All (λ scope. IsDict scope.entries) two_scopes.all
unfolding get text_run
scopes-IsDict = ((refl, (refl, tt)), ((refl, tt), tt))

get-get_all_example : get (codes "a.h") (get_all two_scopes) ≡ latest (codes "a.h") two_scopes.all
get-get_all_example = get-get_all (codes "a.h") two_scopes scopes-IsDict

kinds :
    (line_kind (codes "# ifdef X") ≡ opens)
    × (line_kind (codes "#else  // X") ≡ splits)
    × (line_kind (codes "  #endif") ≡ closes)
    × (line_kind (codes "#include <a>") ≡ plain)
unfolding line_kind text_run regex_run
kinds = (refl, refl, refl, refl)

c_after_cpp_message :
    (check_next_include_order c_sys in_cpp).1
    ≡ some (codes "Found C system header after C++ system header")
unfolding check_next_include_order type_name section_name text_run
c_after_cpp_message = refl

alphabet :
    check_include_alphabetical_order
      (codes "base/a-b.h")
      5
      (record in_cpp { last_header = codes "base/b.h" })
    ≡ (
      record in_cpp { last_header = codes "base/a_b.h"; last_line = 5 },
      some (codes "build/include_alpha", codes "Include \"base/a-b.h\" not in alphabetical order"),
    )
unfolding check_include_alphabetical_order canonicalize_alphabetical_order text_run
alphabet = refl

top_replaced : top (set_top init_scope two_scopes) ≡ some init_scope
unfolding top set_top
top_replaced = refl

abbrev base_headers : List Text
base_headers = codes "base/a.h" ∷ codes "base/b-inl.h" ∷ codes "base/b_c.h" ∷ []

base_headers-HaveDirs : HaveDirs base_headers
unfolding canonicalize_alphabetical_order text_run
base_headers-HaveDirs = ((refl, refl), ((refl, refl), ((refl, refl), tt)))

check_include_alphabetical_order-IsAscending_example :
    (accepts_all base_headers 3 init_scope ≡ true) ↔ IsAscending base_headers
check_include_alphabetical_order-IsAscending_example =
    check_include_alphabetical_order-IsAscending base_headers 3 base_headers-HaveDirs

header_kinds :
    (classify_include (codes "foo/foo.cc") (codes "stdio.h") true ≡ c_sys)
    × (classify_include (codes "foo/foo.cc") (codes "string") true ≡ cpp_sys)
    × (classify_include (codes "foo/foo.cc") (codes "foo/foo.h") false ≡ likely_my)
    × (classify_include (codes "foo/foo_test.cc") (codes "foo/../public/foo-inl.h") false
        ≡ possible_my)
    × (classify_include (codes "foo/internal/foo.cc") (codes "foo/public/foo.h") false ≡ likely_my)
    × (classify_include (codes "foo/foo_unknown_extension.cc") (codes "bar/foo_other_ext.h") false
        ≡ possible_my)
    × (classify_include (codes "foo/foo.cc") (codes "foo/bar.h") false ≡ other)
unfolding classify_include text_run regex_run split_path splitext normpath
header_kinds = (refl, refl, refl, refl, refl, refl, refl)

suffixes :
    (drop_common_suffixes (codes "foo/foo-inl.h") ≡ codes "foo/foo")
    × (drop_common_suffixes (codes "foo/foo_unusualinternal.h") ≡ codes "foo/foo_unusualinternal")
    × (is_test_filename (codes "a_unittest.cc") ≡ true)
    × (split (codes "chrome/browser/browser.cc")
        ≡ (codes "chrome/browser", codes "browser", codes ".cc"))
    × (no_extension (codes "a/b.cxx") ≡ codes "a/b")
    × (is_source (codes "a/b.cxx") ≡ true)
unfolding drop_common_suffixes is_test_filename split no_extension is_source extension text_run
    split_path splitext
suffixes = (refl, refl, refl, refl, refl, refl)

included_system : included (codes "# include <a/b.h>  // x") ≡ some (codes "a/b.h", true)
unfolding included text_run regex_run
included_system = refl

twice_included :
    check_include_line
      (codes "d/a.cc")
      (codes "a.cc")
      (codes "#include <fstream>")
      7
      (record { stack = 0 ∷ []; all = record in_cpp { entries = (codes "fstream", 3) ∷ [] } ∷ [] })
    ≡ some (
      record { stack = 0 ∷ []; all = record in_cpp { entries = (codes "fstream", 3) ∷ [] } ∷ [] },
      report_at 7 (codes "build/include") 4 (codes "\"fstream\" already included at a.cc:3")
          ∷ report_at 7 (codes "readability/streams") 3 (codes "Streams are highly discouraged.")
          ∷ [],
    )
unfolding check_include_line line_kind enter_line top set_top get text_run regex_run include_regex
    is_test_filename
twice_included = refl

classify_include-suffixes_example :
    classify_include
      (codes "a/b" ++ b'_' ∷ codes "test.cc")
      (codes "a/b" ++ b'-' ∷ codes "inl.h")
      false
    ≡ likely_my
unfolding text_run
classify_include-suffixes_example =
    classify_include-suffixes (codes "a/b") b'_' b'-' (codes "test.cc") (codes "inl.h") refl refl
      refl refl

no_extension-extension_example :
    no_extension (codes "src/uti" ++ b'l' ∷ b'/' ∷ codes "a.b.cc")
      ++ extension (codes "src/uti" ++ b'l' ∷ b'/' ∷ codes "a.b.cc")
    ≡ codes "src/uti" ++ b'l' ∷ b'/' ∷ codes "a.b.cc"
unfolding codes
no_extension-extension_example =
    no_extension-extension (codes "src/uti") b'l' (codes "a.b.cc") (omega arith) refl

abbrev nested_includes : List Text
nested_includes =
    codes "#include <b>"
    ∷ codes "#if X"
    ∷ codes "#include <a>"
    ∷ codes "#else"
    ∷ codes "#include <b>"
    ∷ codes "#endif"
    ∷ codes "#include <b>"
    ∷ []

-- The scope of line 1 is open again behind the `#endif`.
nested_found :
    lines_by_value (codes "d/a.cc") (codes "a.cc") nested_includes 1 (init_scope ∷ [])
    ≡ some (
      record { section = 3; last_header = codes "b"; last_line = 1; entries = (codes "b", 1) ∷ [] }
          ∷ [],
      report_at 7 (codes "build/include") 4 (codes "\"b\" already included at a.cc:1") ∷ [],
    )
unfolding check_plain line_kind init_scope text_run regex_run get put
    check_include_alphabetical_order check_next_include_order canonicalize_alphabetical_order
nested_found = refl

abbrev one_scope : IncludeState
one_scope = record { stack = 0 ∷ []; all = init_scope ∷ [] }

check_include_lines-Agree_example :
    Agree
      (check_include_lines (codes "d/a.cc") (codes "a.cc") nested_includes 1 one_scope)
      (lines_by_value (codes "d/a.cc") (codes "a.cc") nested_includes 1 (init_scope ∷ []))
check_include_lines-Agree_example =
    check_include_lines-Agree (codes "d/a.cc") (codes "a.cc") nested_includes 1 one_scope
      (init_scope ∷ []) ([], 0, refl, omega arith, refl, refl)
