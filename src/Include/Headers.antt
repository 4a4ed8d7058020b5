-- ===== src/Include/Headers.antt =====
-- `FileInfo`, `_DropCommonSuffixes`, `_IsTestFilename` and `_ClassifyInclude` of
-- utils/tools/cpplint.py. The name that `RepositoryName` derives from the file system is a
-- parameter.
pub mod Suffixes
pub mod Parts
use mathlib.Core.List.{reverse}
use front_server.Common.{
  ℕ, ◌-◌, Bool, true, false, ◌&&◌, ◌||◌, Option, none, some, List, [], ◌∷◌, ◌++◌, ltb, ◌==◌, not,
  if◌then◌else◌, get_or, length, drop, Text, codes, text_eq, one_of, ends_with, without_last,
  split_path, splitext, normpath,
}
use front_server.Common.Regex.{
  Regex, bol, eol, sat, plus, optional, lit, any_of, all_of, matches, match, Found, in_set,
}
use front_server.Include.Standard.{stl_headers, cpp_headers}
use front_server.Include.{HeaderType, c_sys, cpp_sys, likely_my, possible_my, other}

-- `FileInfo.Split`, for the name that `RepositoryName` returns
unfoldable pub split : Text → Text × Text × Text
unfolding split_path splitext
split repository_name =
    let (project, rest) = split_path repository_name in
    let (base, ext) = splitext rest in (project, base, ext)

-- `FileInfo.BaseName`
unfoldable pub base_name : Text → Text
unfolding split
base_name repository_name = let (_, base, _) = split repository_name in base

-- `FileInfo.Extension`
unfoldable pub extension : Text → Text
unfolding split
extension repository_name = let (_, _, ext) = split repository_name in ext

-- `FileInfo.NoExtension`
unfoldable pub no_extension : Text → Text
unfolding split
no_extension repository_name =
    let (project, base, _) = split repository_name in project ++ b'/' ∷ base

-- `FileInfo.IsSource`
unfoldable pub is_source : Text → Bool
unfolding extension
is_source repository_name =
    one_of (codes "c" ∷ codes "cc" ∷ codes "cpp" ∷ codes "cxx" ∷ [])
      (drop 1 (extension repository_name))

-- The suffixes of `_DropCommonSuffixes`.
abbrev pub common_suffixes : List Text
common_suffixes =
    codes "test.cc"
    ∷ codes "test.cpp"
    ∷ codes "regtest.cc"
    ∷ codes "unittest.cc"
    ∷ codes "inl.h"
    ∷ codes "impl.h"
    ∷ codes "internal.h"
    ∷ []

abbrev pub is_separator : ℕ → Bool
is_separator c = c == b'-' || c == b'_'

-- The condition on a suffix; `filename[-len(suffix) - 1]` counts from the end.
pub drops : Text → Text → Bool
unfolding ends_with
drops suffix filename =
    ends_with filename suffix
    && ltb (length suffix) (length filename)
    && is_separator (get_or (reverse filename) (length suffix) 0)

-- The loop of `_DropCommonSuffixes`.
pub drop_first : List Text → Text → Text
unfolding drops splitext without_last
drop_first [] filename = let (root, _) = splitext filename in root
drop_first (suffix ∷ suffixes) filename =
    let rest = drop_first suffixes filename in
    if drops suffix filename then without_last (0 ∷ suffix) filename else rest

-- `_DropCommonSuffixes`
unfoldable pub drop_common_suffixes : Text → Text
unfolding drop_first
drop_common_suffixes filename = drop_first common_suffixes filename

-- `_IsTestFilename`
unfoldable pub is_test_filename : Text → Bool
unfolding ends_with
is_test_filename filename =
    ends_with filename (codes "_test.cpp")
    || ends_with filename (codes "_test.cc")
    || ends_with filename (codes "_unittest.cc")
    || ends_with filename (codes "_regtest.cc")

-- ^((ext|tr1)/)?[a-z_]+$
plain_header : Regex
plain_header = all_of (
    bol
    ∷ optional (all_of (any_of (lit "ext" ∷ lit "tr1" ∷ []) ∷ lit "/" ∷ []))
    ∷ plus (sat (λ c. (ltb 96 c && ltb c 123) || c == b'_'))
    ∷ eol
    ∷ [])

pub is_cpp_header : Text → Bool
unfolding plain_header
is_cpp_header include =
    one_of stl_headers include || one_of cpp_headers include || matches plain_header include

-- `_RE_FIRST_COMPONENT`: ^[^-_.]+
first_component_regex : Regex
first_component_regex = all_of (bol ∷ plus (sat (λ c. not (in_set (codes "-_.") c))) ∷ [])

-- `_RE_FIRST_COMPONENT.match(base)` with its text
unfoldable pub first_component : Text → Option Text
unfolding first_component_regex
first_component base = elim (match first_component_regex base) [
  | none ↦ none
  | some m ↦ some m.matched
]

pub same_component : Option Text → Option Text → Bool
same_component (some a) (some b) = text_eq a b
same_component _ _ = false

-- The end of `_ClassifyInclude`: the directories and bases of the file and of the header.
pub classify_quoted : Text × Text → Text × Text → HeaderType
unfolding normpath first_component same_component
classify_quoted (target_dir, target_base) (include_dir, include_base) =
    if text_eq target_base include_base
      && (text_eq include_dir target_dir
          || text_eq include_dir (normpath (target_dir ++ codes "/../public")))
    then likely_my
    else if same_component (first_component target_base) (first_component include_base)
    then possible_my
    else other

-- `_ClassifyInclude`, for the name that `fileinfo.RepositoryName()` returns
unfoldable pub classify_include : Text → Text → Bool → HeaderType
unfolding is_cpp_header drop_common_suffixes split_path classify_quoted
classify_include repository_name include is_system =
    if is_system
    then (if is_cpp_header include then cpp_sys else c_sys)
    else classify_quoted (split_path (drop_common_suffixes repository_name))
        (split_path (drop_common_suffixes include))
