-- ===== src/Names.antt =====
-- The names that `FileInfo` of utils/tools/cpplint.py finds by a search of the directories above a
-- file, `relpath`, and `GetHeaderGuardCPPVariable`. What the disk says is a parameter.
pub mod Root
mod Examples
use mathlib.Core.List.{map}
use front_server.Common.{
  ℕ, zero, suc, ◌+◌, ◌-◌, Bool, true, false, not, ◌&&◌, ◌||◌, Option, none, some, List, [], ◌∷◌,
  ◌++◌, if◌then◌else◌, ◌==◌, length, take, drop, Text, codes, text_eq, starts_with, ends_with,
  split_on, split_path, normpath,
}
use front_server.Common.Regex.{
  Regex, lit, one_in, none_in, star, group, eol, space, all_of, any_of, search, Found, group_of,
  substitute,
}
use front_server.Common.Patterns.{in_range}

-- What the program asks of the disk: whether a path exists, whether it is a file, and the current
-- directory.
pub record Disk : Type 0 where
  pub exists : Text → Bool
  pub is_file : Text → Bool
  pub getcwd : Text

-- `os.path.dirname`
pub dirname : Text → Text
unfolding split_path
dirname path = let (head, _) = split_path path in head

-- `os.path.join` of two paths
pub join_path : Text → Text → Text
unfolding starts_with ends_with codes text_eq
join_path a b =
    if starts_with b (codes "/")
    then b
    else if text_eq a [] || ends_with a (codes "/")
    then a ++ b
    else a ++ b'/' ∷ b

-- `os.path.join` of a list of paths behind the first
pub join_all : Text → List Text → Text
unfolding join_path
join_all path [] = path
join_all path (next ∷ paths) = join_all (join_path path next) paths

-- `os.path.abspath`
pub abspath : Disk → Text → Text
unfolding normpath join_path starts_with codes
abspath disk path =
    normpath (if starts_with path (codes "/") then path else join_path disk.getcwd path)

-- `os.path.commonprefix` of two sequences
pub commonprefix {ℓ} : {A : Type ℓ} → (A → A → Bool) → List A → List A → List A
commonprefix same [] ys = []
commonprefix same (x ∷ xs) [] = []
commonprefix same (x ∷ xs) (y ∷ ys) =
    let rest = commonprefix same xs ys in if same x y then x ∷ rest else []

-- `FileInfo.FullName`
pub full_name : Disk → Text → Text
unfolding abspath
full_name disk filename = map (λ c. if c == b'\\' then b'/' else c) (abspath disk filename)

-- The directory has an entry of that name.
pub has_entry : Disk → Text → Text → Bool
unfolding join_path
has_entry disk dir name = disk.exists (join_path dir name)

-- A directory in which a checkout by git, Mercurial or Subversion may begin.
pub is_top : Disk → Text → Bool
unfolding has_entry codes
is_top disk dir =
    has_entry disk dir (codes ".git")
    || has_entry disk dir (codes ".hg")
    || has_entry disk dir (codes ".svn")

-- The first loop of `RepositoryName`, which goes up while the directory above the root has an entry
-- of Subversion; `none` is a loop that does not end.
pub climb_svn : ℕ → Disk → Text → Text → Option Text
unfolding has_entry dirname codes
climb_svn zero disk root_dir one_up_dir =
    if has_entry disk one_up_dir (codes ".svn") then none else some root_dir
climb_svn (suc fuel) disk root_dir one_up_dir =
    let rest = climb_svn fuel disk (dirname root_dir) (dirname one_up_dir) in
    if has_entry disk one_up_dir (codes ".svn") then rest else some root_dir

-- The second loop of `RepositoryName`, which goes up to a directory in which a checkout begins or
-- that is its own directory; `none` says that the fuel does not suffice.
pub climb_top : ℕ → Disk → Text → Option Text
unfolding dirname is_top
climb_top zero disk root_dir =
    if not (text_eq root_dir (dirname root_dir)) && not (is_top disk root_dir)
    then none
    else some root_dir
climb_top (suc fuel) disk root_dir =
    let rest = climb_top fuel disk (dirname root_dir) in
    if not (text_eq root_dir (dirname root_dir)) && not (is_top disk root_dir)
    then rest
    else some root_dir

-- `fullname[len(prefix) + 1:]`, for the common prefix of two directories
pub behind_root : Text → Text → Text → Text
unfolding commonprefix
behind_root root_dir project_dir fullname =
    drop (length (commonprefix ◌==◌ root_dir project_dir) + 1) fullname

-- `FileInfo.RepositoryName`; `none` is a loop that does not end.
unfoldable pub repository_name : Disk → Text → Option Text
unfolding full_name dirname has_entry is_top climb_svn climb_top behind_root codes
repository_name disk filename =
    let fullname = full_name disk filename in
    let project_dir = dirname fullname in
    if not (disk.exists fullname)
    then some fullname
    else if has_entry disk project_dir (codes ".svn")
    then elim (climb_svn (length fullname) disk project_dir (dirname project_dir)) [
      | none ↦ none
      | some root_dir ↦ some (behind_root root_dir project_dir fullname)
    ]
    else elim (climb_top (length fullname) disk project_dir) [
      | none ↦ none
      | some root_dir ↦
          some
            (if is_top disk root_dir then behind_root root_dir project_dir fullname else fullname)
    ]

-- The loop of `FindBladeRootDir`; `none` says that the fuel does not suffice.
pub climb_blade : ℕ → Disk → Text → Option Text
unfolding dirname text_eq codes
climb_blade zero disk d =
    if text_eq d [] || text_eq d (codes "/")
    then some []
    else if disk.is_file (d ++ codes "/BLADE_ROOT")
    then some d
    else none
climb_blade (suc fuel) disk d =
    let rest = climb_blade fuel disk (dirname d) in
    if text_eq d [] || text_eq d (codes "/")
    then some []
    else if disk.is_file (d ++ codes "/BLADE_ROOT")
    then some d
    else rest

-- `FileInfo.FindBladeRootDir`
unfoldable pub find_blade_root_dir : Disk → Text → Option Text
unfolding abspath dirname climb_blade
find_blade_root_dir disk filename =
    let path = abspath disk filename in climb_blade (length path) disk (dirname path)

-- The list that `relpath` joins: `..` for each component of the start that is not shared, then
-- the components of the path that are not shared.
pub rel_list : List Text → List Text → List Text
unfolding commonprefix text_eq codes
rel_list start_list path_list =
    let i = length (commonprefix text_eq start_list path_list) in
    map (λ _. codes "..") (drop i start_list) ++ drop i path_list

-- `relpath`; `none` is its `ValueError`.
unfoldable pub relpath : Disk → Text → Text → Option Text
unfolding abspath rel_list join_all text_eq split_on
relpath disk path start =
    let from = if text_eq start [] then disk.getcwd else start in
    let rels = rel_list (split_on b'/' (abspath disk from)) (split_on b'/' (abspath disk path)) in
    if text_eq path []
    then none
    else some (elim rels [ [] ↦ [] | first ∷ rest ↦ join_all first rest ])

-- `FileInfo.ProjectScopeName`; `none` is the `ValueError` of `relpath`.
unfoldable pub project_scope_name : Disk → Text → Option Text
unfolding find_blade_root_dir relpath
project_scope_name disk filename = elim (find_blade_root_dir disk filename) [
  | none ↦ none
  | some src_tree_root ↦ relpath disk filename src_tree_root
]

-- _flymake\.h$
flymake_header : Regex
flymake_header = all_of (lit "_flymake.h" ∷ eol ∷ [])

-- /\.flymake/([^/]*)$
flymake_directory : Regex
flymake_directory = all_of (lit "/.flymake/" ∷ group 1 (star (none_in "/")) ∷ eol ∷ [])

-- The name of the file that Emacs's flymake made a copy of; the second pattern goes to the end of
-- the name, so it has one match at most.
original_name : Text → Text
unfolding flymake_header flymake_directory codes
original_name filename =
    let name = substitute flymake_header (codes ".h") filename in
    elim (search flymake_directory name) [
      | none ↦ name
      | some found ↦ elim (group_of 1 found) [
        | none ↦ name
        | some base ↦ found.before ++ b'/' ∷ base
      ]
    ]

-- [-./\s]
guard_separator : Regex
guard_separator = any_of (one_in "-./" ∷ space ∷ [])

-- `str.upper`
upper : Text → Text
upper s = map (λ c. if in_range b'a' b'z' c then c - 32 else c) s

-- `GetHeaderGuardCPPVariable`
unfoldable pub get_header_guard_cpp_variable : Disk → Text → Option Text
unfolding original_name project_scope_name guard_separator upper codes
get_header_guard_cpp_variable disk filename =
    elim (project_scope_name disk (original_name filename)) [
      | none ↦ none
      | some name ↦ some (upper (substitute guard_separator (codes "_") name))
    ]
