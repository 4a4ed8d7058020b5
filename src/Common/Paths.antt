-- ===== src/Common/Paths.antt =====
-- The functions of Python's `os.path` that the linter calls, as `posixpath` has them.
use Prim.Native.Nat.{ℕ}
use mathlib.Core.Bool.{Bool, not, ◌&&◌, ◌||◌}
use mathlib.Core.Option.{Option, none, some}
use mathlib.Core.List.{List, [], ◌∷◌, ◌++◌, reverse}
use front_server.Common.Tests.{◌==◌, if◌then◌else◌}
use front_server.Common.Lists.{all}
use front_server.Common.Strings.{Text, codes, text_eq, starts_with, split_on, rstrip_char}

-- The parts before and behind the last `c`.
unfoldable pub split_last : ℕ → Text → Option (Text × Text)
split_last c [] = none
split_last c (a ∷ s) = elim (split_last c s) [
  | some (front, back) ↦ some (a ∷ front, back)
  | none ↦ if a == c then some ([], s) else none
]

-- `head.rstrip('/')`, unless the head has nothing but slashes.
unfoldable pub directory_of : Text → Text
unfolding rstrip_char
directory_of head = if all (◌==◌ b'/') head then head else rstrip_char b'/' head

-- `os.path.split`
unfoldable pub split_path : Text → Text × Text
unfolding split_last directory_of
split_path path = elim (split_last b'/' path) [
  | none ↦ ([], path)
  | some (front, back) ↦ (directory_of (front ++ b'/' ∷ []), back)
]

-- The name of a file without its extension, and the extension: a dot with only dots in front of it
-- begins none.
unfoldable pub split_name : Text → Text × Text
unfolding split_last
split_name name = elim (split_last b'.' name) [
  | none ↦ (name, [])
  | some (front, back) ↦ if all (◌==◌ b'.') front then (name, []) else (front, b'.' ∷ back)
]

-- `os.path.splitext`
unfoldable pub splitext : Text → Text × Text
unfolding split_last split_name
splitext path = elim (split_last b'/' path) [
  | none ↦ split_name path
  | some (front, back) ↦ let (root, ext) = split_name back in (front ++ b'/' ∷ root, ext)
]

-- The components that `os.path.normpath` keeps, the latest first, after one more.
keep_component : Bool → List Text → Text → List Text
unfolding text_eq codes
keep_component rooted kept comp =
    if text_eq comp [] || text_eq comp (codes ".")
    then kept
    else if not (text_eq comp (codes ".."))
    then comp ∷ kept
    else elim kept [
      | [] ↦ if rooted then [] else comp ∷ []
      | last ∷ below ↦ if text_eq last (codes "..") then comp ∷ last ∷ below else below
    ]

normal_components : Bool → List Text → List Text → List Text
unfolding keep_component
normal_components rooted kept [] = kept
normal_components rooted kept (comp ∷ comps) =
    normal_components rooted (keep_component rooted kept comp) comps

join_components : List Text → Text
join_components [] = []
join_components (comp ∷ []) = comp
join_components (comp ∷ next ∷ comps) = comp ++ b'/' ∷ join_components (next ∷ comps)

-- `os.path.normpath`
unfoldable pub normpath : Text → Text
unfolding normal_components join_components text_eq starts_with codes split_on
normpath path =
    let slashes =
      if starts_with path (codes "//") && not (starts_with path (codes "///"))
      then codes "//"
      else if starts_with path (codes "/")
      then codes "/"
      else [] in
    let normal =
      slashes
      ++ join_components
          (reverse (normal_components (starts_with path (codes "/")) [] (split_on b'/' path))) in
    if text_eq normal [] then codes "." else normal
