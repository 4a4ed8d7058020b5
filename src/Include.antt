-- ===== src/Include.antt =====
-- The include states of utils/tools/cpplint.py: `_ScopedIncludeState`, which checks the order of
-- the includes of one scope, and `_IncludeState`, the stack of those, with its use of conditional
-- directives in `CheckIncludeLine`.
pub mod Order
pub mod Alphabet
pub mod Scopes
pub mod Standard
pub mod Headers
pub mod Line
mod Examples
use front_server.Common.{
  ℕ, ◌+◌, Bool, true, false, ◌&&◌, Option, none, some, List, [], ◌∷◌, ◌++◌, leb, ◌==◌, not,
  if◌then◌else◌, get_elem?, length, set, Text, codes, text_eq, text_lt, contains, replace, lower,
}
use front_server.Common.Regex.{Regex, bol, seq, star, space, dot, eol, lit, all_of, any_of, finds}

-- `_C_SYS_HEADER` and the other types of headers
pub data HeaderType : Type 0 where
  c_sys cpp_sys likely_my possible_my other : HeaderType

-- `_INITIAL_SECTION` and the other sections
abbrev pub initial_section : ℕ
initial_section = 0

abbrev pub my_h_section : ℕ
my_h_section = 1

abbrev pub c_section : ℕ
c_section = 2

abbrev pub cpp_section : ℕ
cpp_section = 3

abbrev pub other_h_section : ℕ
other_h_section = 4

-- `_ScopedIncludeState`: the dictionary from headers to lines, and the fields beside it.
pub record ScopedIncludeState : Type 0 where
  pub section : ℕ
  pub last_header : Text
  pub last_line : ℕ
  pub entries : List (Text × ℕ)

-- `_ScopedIncludeState.__init__`
pub init_scope : ScopedIncludeState
init_scope = record { section = initial_section; last_header = []; last_line = 0; entries = [] }

-- `CanonicalizeAlphabeticalOrder`
pub canonicalize_alphabetical_order : Text → Text
canonicalize_alphabetical_order header_path =
    lower (replace (codes "-") (codes "_") (replace (codes "-inl.h") (codes ".h") header_path))

abbrev pub has_dir : Text → Bool
has_dir path = contains path (codes "/")

-- The error of `CheckIncludeAlphabeticalOrder`: category and message.
alphabetical_error : Text → ℕ → ScopedIncludeState → Option (Text × Text)
alphabetical_error header_path linenum s =
    if linenum == s.last_line + 1
    then (if has_dir header_path
        then (if has_dir s.last_header
            then (if text_lt (canonicalize_alphabetical_order header_path) s.last_header
                then some (
                  codes "build/include_alpha",
                  codes "Include \"" ++ header_path ++ codes "\" not in alphabetical order",
                )
                else none)
            else none)
        else (if has_dir s.last_header
            then some (
              codes "build/include_order",
              codes "Include \""
                  ++ header_path
                  ++ codes
                      "\" not in correct order (paths without dir should be put before any others)",
            )
            else (if text_lt (canonicalize_alphabetical_order header_path) s.last_header
                then some (
                  codes "build/include_alpha",
                  codes "Include \"" ++ header_path ++ codes "\" not in alphabetical order",
                )
                else none)))
    else none

-- `CheckIncludeAlphabeticalOrder`
pub check_include_alphabetical_order :
    Text → ℕ → ScopedIncludeState → ScopedIncludeState × Option (Text × Text)
unfolding alphabetical_error
check_include_alphabetical_order header_path linenum s = (
  record s { last_header = canonicalize_alphabetical_order header_path; last_line = linenum },
  alphabetical_error header_path linenum s,
)

-- `_TYPE_NAMES`
type_name : HeaderType → Text
type_name c_sys = codes "C system header"
type_name cpp_sys = codes "C++ system header"
type_name likely_my = codes "header this file implements"
type_name possible_my = codes "header this file may implement"
type_name other = codes "other header"

-- `_SECTION_NAMES`
section_name : ℕ → Text
section_name n =
    if n == initial_section
    then codes "... nothing. (This can't be an error.)"
    else if n == my_h_section
    then codes "a header this file implements"
    else if n == c_section
    then codes "C system header"
    else if n == cpp_section
    then codes "C++ system header"
    else codes "other header"

-- The section that a header leads to, and `none` for a header out of order.
pub next_section : HeaderType → ℕ → Option ℕ
next_section c_sys s = if leb s c_section then some c_section else none
next_section cpp_sys s = if leb s cpp_section then some cpp_section else none
next_section likely_my s = some (if leb s my_h_section then my_h_section else other_h_section)
next_section possible_my s = some (if leb s my_h_section then my_h_section else other_h_section)
next_section other s = some other_h_section

-- `CheckNextIncludeOrder`: the new state, and the message, `none` for the empty string.
pub check_next_include_order : HeaderType → ScopedIncludeState → ScopedIncludeState × Option Text
unfolding next_section
check_next_include_order t s = elim (next_section t s.section) [
  | none ↦ (
    record s { last_header = [] },
    some (codes "Found " ++ type_name t ++ codes " after " ++ section_name s.section),
  )
  | some n ↦
      (record s { section = n; last_header = if n == s.section then s.last_header else [] }, none)
]

-- `self[key] = value`
pub put : Text → ℕ → List (Text × ℕ) → List (Text × ℕ)
put key value [] = (key, value) ∷ []
put key value ((k, v) ∷ d) = if text_eq k key then (k, value) ∷ d else (k, v) ∷ put key value d

-- `self.get(key)`
pub get : Text → List (Text × ℕ) → Option ℕ
get key [] = none
get key ((k, v) ∷ d) = if text_eq k key then some v else get key d

-- `_IncludeState`. The stack and `all_scoped_include_state` share their objects, which the linter
-- changes through the top of the stack: here the stack holds positions in `all`, its last element
-- is the top.
pub record IncludeState : Type 0 where
  pub stack : List ℕ
  pub all : List ScopedIncludeState

-- `_IncludeState.__init__`
unfoldable pub init_include : IncludeState
init_include = record { stack = []; all = [] }

-- `push`
pub push : ScopedIncludeState → IncludeState → IncludeState
push scope s = record { stack = s.stack ++ length s.all ∷ []; all = s.all ++ scope ∷ [] }

abbrev pub last {ℓ} : {A : Type ℓ} → List A → Option A
last [] = none
last (x ∷ []) = some x
last (x ∷ y ∷ xs) = last (y ∷ xs)

-- `top`; `none` is the `IndexError` of the empty list.
pub top : IncludeState → Option ScopedIncludeState
top s = elim (last s.stack) [ none ↦ none | some i ↦ get_elem? s.all i ]

-- An assignment to the object at the top of the stack.
pub set_top : ScopedIncludeState → IncludeState → IncludeState
set_top scope s = elim (last s.stack) [ none ↦ s | some i ↦ record s { all = set s.all i scope } ]

abbrev pub init_of {ℓ} : {A : Type ℓ} → List A → List A
init_of [] = []
init_of (x ∷ []) = []
init_of (x ∷ y ∷ xs) = x ∷ init_of (y ∷ xs)

-- `list.pop`; `none` is the `IndexError` of the empty list.
pub pop : IncludeState → Option IncludeState
pop s = elim s.stack [ [] ↦ none | _ ∷ _ ↦ some (record s { stack = init_of s.stack }) ]

copy_entries : List (Text × ℕ) → List (Text × ℕ) → List (Text × ℕ)
unfolding put
copy_entries [] d = d
copy_entries ((k, v) ∷ es) d = copy_entries es (put k v d)

copy_scopes : List ScopedIncludeState → List (Text × ℕ) → List (Text × ℕ)
unfolding copy_entries
copy_scopes [] d = d
copy_scopes (s ∷ ss) d = copy_scopes ss (copy_entries s.entries d)

-- `get_all`
unfoldable pub get_all : IncludeState → List (Text × ℕ)
unfolding copy_scopes
get_all s = copy_scopes s.all []

-- ^\s*#\s*(?:...).*$
directive : List Regex → Regex
directive names =
    all_of (bol ∷ star space ∷ lit "#" ∷ star space ∷ any_of names ∷ star dot ∷ eol ∷ [])

-- `_RE_PATTERN_CONDITION_DIRECTIVE`
unfoldable pub condition_directive : Regex
unfolding directive
condition_directive =
    directive (lit "if" ∷ lit "ifdef" ∷ lit "ifndef" ∷ lit "elif" ∷ lit "else" ∷ lit "endif" ∷ [])

-- `_RE_PATTERN_ENDIF_DIRECTIVE`
endif_directive : Regex
unfolding directive
endif_directive = directive (lit "endif" ∷ [])

-- `_RE_PATTERN_ELIF_OR_ELSE_DIRECTIVE`
elif_or_else_directive : Regex
unfolding directive
elif_or_else_directive = directive (lit "elif" ∷ lit "else" ∷ [])

-- What `CheckIncludeLine` takes a line for.
pub data LineKind : Type 0 where
  opens splits closes plain : LineKind

pub line_kind : Text → LineKind
unfolding condition_directive endif_directive elif_or_else_directive
line_kind line =
    if finds condition_directive line
    then (if finds endif_directive line
        then closes
        else if finds elif_or_else_directive line
        then splits
        else opens)
    else plain

-- The scopes after the first part of `CheckIncludeLine`, up to the look at the include itself;
-- `none` is the `IndexError` of `pop`.
pub enter_line : LineKind → IncludeState → Option IncludeState
enter_line closes s = pop s
enter_line splits s = elim (pop s) [ none ↦ none | some s' ↦ some (push init_scope s') ]
enter_line opens s = some (push init_scope s)
enter_line plain s = elim s.stack [ [] ↦ some (push init_scope s) | _ ∷ _ ↦ some s ]

-- Unfolding this unfolds the functions of this module, for a run at a concrete input.
unfoldable pub include_run : Unit {0}
unfolding canonicalize_alphabetical_order check_include_alphabetical_order type_name section_name
    check_next_include_order init_scope push top set_top pop put get get_all line_kind enter_line
include_run = tt
