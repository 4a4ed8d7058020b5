-- ===== src/Include/Line.antt =====
-- `CheckIncludeLine` of utils/tools/cpplint.py behind its look at the conditional directives. The
-- name that `RepositoryName` derives from the file system is a parameter.
pub mod Shows
pub mod Stack
pub mod Depth
use front_server.Common.{
  ℕ, suc, Bool, true, false, Option, none, some, List, [], ◌∷◌, ◌++◌, not, if◌then◌else◌, Text,
  codes, text_eq, starts_with, contains, show,
}
use front_server.Common.Regex.{
  Regex, bol, eol, plus, star, optional, lit, none_in, any_of, all_of, matches, finds, search,
  Found, group_of,
}
use front_server.Lint.{Log, report_at}
use front_server.Cleanse.{include_regex}
use front_server.Include.{
  ScopedIncludeState, IncludeState, put, get, top, set_top, check_next_include_order,
  check_include_alphabetical_order, line_kind, LineKind, plain, enter_line,
}
use front_server.Include.Headers.{base_name, classify_include, is_test_filename}

-- `_RE_PATTERN_INCLUDE_NEW_STYLE`: #include +"[^/]+\.h"
new_style : Regex
new_style =
    all_of (lit "#include" ∷ plus (lit " ") ∷ lit "\"" ∷ plus (none_in "/") ∷ lit ".h\"" ∷ [])

-- The header that a line includes, and whether it does so by `<`.
unfoldable pub included : Text → Option (Text × Bool)
unfolding include_regex
included line = elim (search include_regex line) [
  | none ↦ none
  | some m ↦ elim (group_of 1 m) [
    | none ↦ none
    | some mark ↦ elim (group_of 2 m) [
      | none ↦ none
      | some include ↦ some (include, text_eq mark (codes "<"))
    ]
  ]
]

-- One of the errors about the path itself.
path_error : Bool → ℕ → Text → Text → Log
path_error false linenum include what = []
path_error true linenum include what =
    report_at linenum (codes "build/include") 4 (codes "include \"" ++ include ++ what) ∷ []

-- The errors about the path itself.
pub path_errors : ℕ → Text → Log
unfolding path_error
path_errors linenum include =
    path_error (starts_with include (codes "/")) linenum include (codes "\" is a absolute path")
    ++ path_error (contains include (codes "\\")) linenum include
        (codes "\" contains \"\\\", should be \"/\"")
    ++ path_error (contains include (codes "..")) linenum include
        (codes "\" contains \"..\", do not using relative path")
    ++ path_error (starts_with include (codes "./")) linenum include
        (codes "\" should start from the root of source code tree.")

order_error : ℕ → Text → Option Text → Log
order_error linenum base none = []
order_error linenum base (some message) =
    report_at linenum (codes "build/include_order") 4
      (message ++ codes ". Should be: " ++ base ++ codes ".h, c system, c++ system, other.")
    ∷ []

alphabet_error : ℕ → Option (Text × Text) → Log
alphabet_error linenum none = []
alphabet_error linenum (some (category, message)) = report_at linenum category 4 message ∷ []

-- The look at a header, with the scope it stands in.
pub check_header : Text → Text → ℕ → Text → Bool → ScopedIncludeState → ScopedIncludeState × Log
unfolding classify_include base_name order_error alphabet_error
check_header repository_name filename linenum include is_system scope =
    elim (get include scope.entries) [
      | some first ↦ (
        scope,
        report_at linenum (codes "build/include") 4 (
              codes "\""
              ++ include
              ++ codes "\" already included at "
              ++ filename
              ++ codes ":"
              ++ show first)
            ∷ [],
      )
      | none ↦
          let added : ScopedIncludeState = record scope {
            entries = put include linenum scope.entries;
          } in
          let (ordered, misplaced) =
            check_next_include_order (classify_include repository_name include is_system) added in
          let (sorted, unsorted) = check_include_alphabetical_order include linenum ordered in
          (
            sorted,
            order_error linenum (base_name repository_name) misplaced
                ++ alphabet_error linenum unsorted,
          )
    ]

-- (f|ind|io|i|o|parse|pf|stdio|str|)?stream$
stream_header : Regex
stream_header = all_of (
    optional (
      any_of (
        lit "f"
        ∷ lit "ind"
        ∷ lit "io"
        ∷ lit "i"
        ∷ lit "o"
        ∷ lit "parse"
        ∷ lit "pf"
        ∷ lit "stdio"
        ∷ lit "str"
        ∷ lit ""
        ∷ []))
    ∷ lit "stream"
    ∷ eol
    ∷ [])

stream_error : Text → ℕ → Text → Log
unfolding stream_header is_test_filename
stream_error filename linenum include =
    if matches stream_header include
    then (if is_test_filename filename
        then []
        else report_at linenum (codes "readability/streams") 3
            (codes "Streams are highly discouraged.")
          ∷ [])
    else []

new_style_error : ℕ → Text → Log
unfolding new_style
new_style_error linenum line =
    if finds new_style line
    then report_at linenum (codes "build/include") 4
        (codes "Include the directory when naming .h files")
      ∷ []
    else []

-- The part of `CheckIncludeLine` behind the directives, with the scope at the top of the stack.
unfoldable pub check_plain : Text → Text → Text → ℕ → ScopedIncludeState → ScopedIncludeState × Log
unfolding included path_errors check_header stream_error new_style_error
check_plain repository_name filename line linenum scope = elim (included line) [
  | none ↦ (scope, new_style_error linenum line)
  | some (include, is_system) ↦
      let (scope', log) = check_header repository_name filename linenum include is_system scope in
      (
        scope',
        new_style_error linenum line
            ++ path_errors linenum include
            ++ log
            ++ stream_error filename linenum include,
      )
]

-- The end of `CheckIncludeLine`, for the kind of the line.
pub check_in_scope : LineKind → Text → Text → Text → ℕ → IncludeState → Option (IncludeState × Log)
unfolding top set_top check_plain
check_in_scope plain repository_name filename line linenum s = elim (top s) [
  | none ↦ none
  | some scope ↦
      let (scope', log) = check_plain repository_name filename line linenum scope in
      some (set_top scope' s, log)
]
check_in_scope _ repository_name filename line linenum s = some (s, [])

-- `CheckIncludeLine`; `none` is the `IndexError` of a list.
unfoldable pub check_include_line :
    Text → Text → Text → ℕ → IncludeState → Option (IncludeState × Log)
unfolding line_kind enter_line check_in_scope
check_include_line repository_name filename line linenum s = elim (enter_line (line_kind line) s) [
  | none ↦ none
  | some s' ↦ check_in_scope (line_kind line) repository_name filename line linenum s'
]

-- `CheckIncludeLine` for the lines of a file from number `linenum` on: the reports, in order.
pub check_include_lines : Text → Text → List Text → ℕ → IncludeState → Option (IncludeState × Log)
unfolding check_include_line
check_include_lines repository_name filename [] linenum s = some (s, [])
check_include_lines repository_name filename (line ∷ lines) linenum s =
    elim (check_include_line repository_name filename line linenum s) [
      | none ↦ none
      | some (s', log) ↦
          elim (check_include_lines repository_name filename lines (suc linenum) s') [
            | none ↦ none
            | some (t, logs) ↦ some (t, log ++ logs)
          ]
    ]
