-- ===== src/Names/Root.antt =====
-- Why the search for the top of a checkout ends, and where that for the root of a build does not.
use mathlib.Core.List.{reverse, reverse-append}
use front_server.Common.{
  ℕ, zero, suc, ◌+◌, ◌<◌, ◌≤◌, ◌≡◌, ◌⊎◌, inl, inr, refl, ap, sym, ◌∙◌, true, false, not, ◌&&◌, none,
  some, [], ◌∷◌, ◌++◌, arith, all, ◌==◌, ==_refl, length, length-append, length-reverse, Text,
  codes, text_eq, text_eq_iff, Bool-cases, Option-cases, split_last, split_path, directory_of,
  lstrip_char, rstrip_char, take, drop,
}
use front_server.Include.Headers.Parts.{split_last_lem}
use front_server.Names.{
  Disk, dirname, full_name, has_entry, is_top, climb_top, climb_blade, behind_root, commonprefix,
  repository_name,
}

lstrip_char-length : (c : ℕ) (s : Text) → length (lstrip_char c s) ≤ length s
unfolding lstrip_char
lstrip_char-length c [] = omega arith
lstrip_char-length c (a ∷ s) = ground (arith, lstrip_char-length c s)

rstrip_char-last : (c : ℕ) (s : Text) → length (rstrip_char c (s ++ c ∷ [])) ≤ length s
unfolding rstrip_char lstrip_char
rstrip_char-last c s =
    let back : lstrip_char c (reverse (s ++ c ∷ [])) ≡ lstrip_char c (reverse s) =
      rw (reverse-append s (c ∷ []), ==_refl c) refl in
    omega (
      arith,
      ap (λ t. length (reverse t)) back,
      length-reverse (lstrip_char c (reverse s)),
      lstrip_char-length c (reverse s),
      length-reverse s,
    )

dirname-missing : (path : Text) → split_last b'/' path ≡ none → dirname path ≡ []
unfolding dirname split_path
dirname-missing path missing = rw (dirname, split_path, missing) refl

dirname-found :
    (path : Text) {front back : Text}
    → split_last b'/' path ≡ some (front, back)
    → dirname path ≡ directory_of (front ++ b'/' ∷ [])
unfolding dirname split_path
dirname-found path found = rw (dirname, split_path, found) refl

directory_of-length :
    (front : Text) (h : all (◌==◌ b'/') (front ++ b'/' ∷ []) ≡ false)
    → length (directory_of (front ++ b'/' ∷ [])) ≤ length front
unfolding directory_of
directory_of-length front h = rw (directory_of, h) (rstrip_char-last b'/' front)

directory_of-slashes :
    (front : Text) (h : all (◌==◌ b'/') (front ++ b'/' ∷ []) ≡ true)
    → directory_of (front ++ b'/' ∷ []) ≡ front ++ b'/' ∷ []
unfolding directory_of
directory_of-slashes front h = rw (directory_of, h) refl

-- A path with a slash, whose directory is either what stands up to its last slash or shorter.
found_shrinks :
    (path front back : Text)
    → path ≡ front ++ b'/' ∷ back
    → dirname path ≡ directory_of (front ++ b'/' ∷ [])
    → (dirname path ≡ path) ⊎ (length (dirname path) < length path)
found_shrinks path front back whole above =
    elim (Bool-cases (all (◌==◌ b'/') (front ++ b'/' ∷ []))) [
      | inr other ↦ inr (
          omega (
            arith,
            ap length above,
            directory_of-length front other,
            ap length whole,
            length-append front (b'/' ∷ back),
          ))
      | inl slashes ↦ slash_shrinks back (directory_of-slashes front slashes) whole
    ]
  where
    slash_shrinks :
        (back : Text)
        → directory_of (front ++ b'/' ∷ []) ≡ front ++ b'/' ∷ []
        → path ≡ front ++ b'/' ∷ back
        → (dirname path ≡ path) ⊎ (length (dirname path) < length path)
    slash_shrinks [] same whole = inl (above ∙ same ∙ sym whole)
    slash_shrinks (c ∷ back) same whole = inr (
        omega (
          arith,
          ap length above,
          ap length same,
          ap length whole,
          length-append front (b'/' ∷ []),
          length-append front (b'/' ∷ c ∷ back),
        ))

-- The directory above a path is the path itself, or shorter.
dirname-shrinks : (path : Text) → (dirname path ≡ path) ⊎ (length (dirname path) < length path)
unfolding split_last
dirname-shrinks [] = inl (dirname-missing [] refl)
dirname-shrinks (a ∷ s) = elim (Option-cases (split_last b'/' (a ∷ s))) [
  | inl missing ↦ inr (omega (arith, ap length (dirname-missing (a ∷ s) missing)))
  | inr ((front, back), found) ↦
      found_shrinks (a ∷ s) front back (split_last_lem b'/' (a ∷ s) found)
        (dirname-found (a ∷ s) found)
]

-- The loop stops where a checkout begins, or at a directory that is its own directory.
abbrev Stops : Disk → Text → Type 0
Stops disk r = (dirname r ≡ r) ⊎ (is_top disk r ≡ true)

climb_top-Stops-here :
    (fuel : ℕ) (disk : Disk) (dir : Text)
    → (not (text_eq dir (dirname dir)) && not (is_top disk dir)) ≡ false
    → climb_top fuel disk dir ≡ some dir
unfolding climb_top
climb_top-Stops-here zero disk dir h = rw (climb_top, h) refl
climb_top-Stops-here (suc fuel) disk dir h = rw (climb_top, h) refl

climb_top-up :
    (fuel : ℕ) (disk : Disk) (dir : Text)
    → text_eq dir (dirname dir) ≡ false
    → is_top disk dir ≡ false
    → climb_top (suc fuel) disk dir ≡ climb_top fuel disk (dirname dir)
unfolding climb_top
climb_top-up fuel disk dir moves below = rw (climb_top, moves, below) refl

moves_shrink : (dir : Text) → text_eq dir (dirname dir) ≡ false → length (dirname dir) < length dir
moves_shrink dir moves = elim (dirname-shrinks dir) [
  | inl own ↦ absurd (ground (arith, moves, (text_eq_iff dir (dirname dir)).1 (sym own)))
  | inr shorter ↦ shorter
]

climb_top-Stops-own :
    (fuel : ℕ) (disk : Disk) (dir : Text)
    → text_eq dir (dirname dir) ≡ true
    → (r : Text) × (climb_top fuel disk dir ≡ some r) × Stops disk r
climb_top-Stops-own fuel disk dir own = (
  dir,
  climb_top-Stops-here fuel disk dir (rw own refl),
  inl (sym ((text_eq_iff dir (dirname dir)).0 own)),
)

climb_top-Stops :
    (fuel : ℕ) (disk : Disk) (dir : Text)
    → length dir ≤ fuel
    → (r : Text) × (climb_top fuel disk dir ≡ some r) × Stops disk r
climb_top-Stops zero disk dir h = elim (Bool-cases (text_eq dir (dirname dir))) [
  | inl own ↦ climb_top-Stops-own 0 disk dir own
  | inr moves ↦ absurd (omega (arith, moves_shrink dir moves))
]
climb_top-Stops (suc fuel) disk dir h = elim (Bool-cases (text_eq dir (dirname dir))) [
  | inl own ↦ climb_top-Stops-own (suc fuel) disk dir own
  | inr moves ↦ elim (Bool-cases (is_top disk dir)) [
    | inl top ↦ (dir, climb_top-Stops-here (suc fuel) disk dir (rw (moves, top) refl), inr top)
    | inr below ↦
        rw (climb_top-up fuel disk dir moves below)
          (climb_top-Stops fuel disk (dirname dir) (omega (arith, moves_shrink dir moves)))
  ]
]

dirname-length : (path : Text) → length (dirname path) ≤ length path
dirname-length path = elim (dirname-shrinks path) [
  | inl own ↦ omega (arith, ap length own)
  | inr shorter ↦ omega arith
]

-- The name that is left is a part of the full name, from some place on to its end.
abbrev pub IsEndOf : Text → Text → Type 0
IsEndOf whole name = (front : Text) × (whole ≡ front ++ name)

take-drop : (n : ℕ) (s : Text) → s ≡ take n s ++ drop n s
take-drop zero s = refl
take-drop (suc n) [] = refl
take-drop (suc n) (a ∷ s) = ap (◌∷◌ a) (take-drop n s)

behind_root-IsEndOf :
    (root_dir project_dir fullname : Text)
    → IsEndOf fullname (behind_root root_dir project_dir fullname)
unfolding behind_root
behind_root-IsEndOf root_dir project_dir fullname =
    let n = length (commonprefix ◌==◌ root_dir project_dir) + 1 in
    (take n fullname, take-drop n fullname)

-- If the directory of a file has no entry `.svn`, `RepositoryName` ends: it returns a part of the
-- full name up to its end.
pub repository_name-ends :
    (disk : Disk) (filename : Text)
    → has_entry disk (dirname (full_name disk filename)) (codes ".svn") ≡ false
    → (name : Text) × (repository_name disk filename ≡ some name)
      × IsEndOf (full_name disk filename) name
unfolding repository_name
repository_name-ends disk filename h =
    let fullname = full_name disk filename in
    let dir = dirname fullname in
    elim (Bool-cases (disk.exists fullname)) [
      | inr missing ↦ (fullname, rw (repository_name, missing) refl, ([], refl))
      | inl here ↦
          let (r, found, _) =
            climb_top-Stops (length fullname) disk dir (dirname-length fullname) in
          elim (Bool-cases (is_top disk r)) [
            | inl top ↦ (
              behind_root r dir fullname,
              rw (repository_name, here, h, found, top) refl,
              behind_root-IsEndOf r dir fullname,
            )
            | inr below ↦ (fullname, rw (repository_name, here, h, found, below) refl, ([], refl))
          ]
    ]

-- For a file in the directory `//` that has no file BLADE_ROOT, no number of rounds is enough for
-- the loop of `FindBladeRootDir`: the directory above `//` is `//` again.
pub climb_blade-stuck :
    (fuel : ℕ) (disk : Disk)
    → disk.is_file (codes "///BLADE_ROOT") ≡ false
    → climb_blade fuel disk (codes "//") ≡ none
unfolding climb_blade dirname split_path directory_of text_eq codes
climb_blade-stuck zero disk h = rw (climb_blade, h) refl
climb_blade-stuck (suc fuel) disk h = rw (climb_blade, h) (climb_blade-stuck fuel disk h)
