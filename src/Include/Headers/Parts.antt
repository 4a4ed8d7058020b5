-- ===== src/Include/Headers/Parts.antt =====
-- The parts of a file's name that `FileInfo` returns.
use mathlib.Core.List.{reverse, reverse-reverse, reverse-append}
use front_server.Common.{
  ℕ, ◌≡◌, ◌≢◌, refl, ap, sym, ◌∙◌, true, false, not, none, some, [], ◌∷◌, ◌++◌, append_assoc,
  append-nil, inl, inr, arith, all, ◌==◌, ==_refl, Text, Bool-cases, Option-cases, split_last,
  split_path, splitext, split_name, directory_of, lstrip_char, rstrip_char,
}
use front_server.Include.Headers.{split, no_extension, extension}

pub split_last_lem :
    (c : ℕ) (s : Text) {front back : Text}
    → split_last c s ≡ some (front, back)
    → s ≡ front ++ c ∷ back
unfolding split_last
split_last_lem c [] e = cc
split_last_lem c (a ∷ s) {front} {back} e = elim (Option-cases (split_last c s)) [
  | inr ((f, b), found) ↦ ground (arith, split_last_lem c s found)
  | inl missing ↦ ground arith
]

-- `c` does not stand in the text.
abbrev pub Lacks : ℕ → Text → Type 0
Lacks c s = all (λ a. not (a == c)) s ≡ true

split_last-Lacks : (c : ℕ) (s : Text) → Lacks c s → split_last c s ≡ none
unfolding split_last
split_last-Lacks c [] h = refl
split_last-Lacks c (a ∷ s) h = ground (arith, split_last-Lacks c s)

split_last-append :
    (c : ℕ) (front back : Text)
    → Lacks c back
    → split_last c (front ++ c ∷ back) ≡ some (front, back)
unfolding split_last
split_last-append c [] back h = let e = split_last-Lacks c back h in rw (e, ==_refl c)
split_last-append c (a ∷ front) back h = rw (split_last-append c front back h)

split_name_lem : (s : Text) → (split_name s).0 ++ (split_name s).1 ≡ s
unfolding split_name
split_name_lem s = elim (Option-cases (split_last b'.' s)) [
  | inl missing ↦ rw (split_name, missing) (append-nil s)
  | inr ((front, back), found) ↦ elim (Bool-cases (all (◌==◌ b'.') front)) [
    | inl dots ↦ rw (split_name, found, dots) (append-nil s)
    | inr other ↦ rw (split_name, found, other) (sym (split_last_lem b'.' s found))
  ]
]

splitext-Lacks : (s : Text) → Lacks b'/' s → splitext s ≡ split_name s
unfolding splitext
splitext-Lacks s h = rw (splitext, split_last-Lacks b'/' s h)

not_slashes : (dir : Text) (c : ℕ) → c ≢ b'/' → all (◌==◌ b'/') (dir ++ c ∷ b'/' ∷ []) ≡ false
not_slashes [] c h = ground arith
not_slashes (a ∷ dir) c h = ground (arith, not_slashes dir c h)

directory_of-slash :
    (dir : Text) (c : ℕ) → c ≢ b'/' → directory_of (dir ++ c ∷ b'/' ∷ []) ≡ dir ++ c ∷ []
unfolding lstrip_char rstrip_char directory_of
directory_of-slash dir c h =
    let other : (c == b'/') ≡ false = ground arith in
    let back : lstrip_char b'/' (reverse (dir ++ c ∷ b'/' ∷ [])) ≡ reverse (dir ++ c ∷ []) =
      ap (lstrip_char b'/') (reverse-append dir (c ∷ b'/' ∷ []))
      ∙ rw other refl
      ∙ sym (reverse-append dir (c ∷ [])) in
    rw (directory_of, not_slashes dir c h, rstrip_char, back) (reverse-reverse (dir ++ c ∷ []))

split_path-append :
    (dir : Text) (c : ℕ) (rest : Text)
    → c ≢ b'/'
    → Lacks b'/' rest
    → split_path (dir ++ c ∷ b'/' ∷ rest) ≡ (dir ++ c ∷ [], rest)
unfolding split_path
split_path-append dir c rest h l =
    let found : split_last b'/' (dir ++ c ∷ b'/' ∷ rest) ≡ some (dir ++ c ∷ [], rest) =
      ap (split_last b'/') (sym (append_assoc dir (c ∷ []) (b'/' ∷ rest)))
      ∙ split_last-append b'/' (dir ++ c ∷ []) rest l in
    rw (split_path, found)
      (ap (λ (d : Text). (d, rest))
        (ap directory_of (append_assoc dir (c ∷ []) (b'/' ∷ [])) ∙ directory_of-slash dir c h))

-- For a name with a directory that does not end in a slash, and no slash behind it, the parts that
-- `NoExtension` and `Extension` return make up the name again.
pub no_extension-extension :
    (dir : Text) (c : ℕ) (rest : Text)
    → c ≢ b'/'
    → Lacks b'/' rest
    → let name = dir ++ c ∷ b'/' ∷ rest in no_extension name ++ extension name ≡ name
unfolding no_extension extension split
no_extension-extension dir c rest h l =
    ap (λ (p : Text × Text). (p.0 ++ b'/' ∷ (splitext p.1).0) ++ (splitext p.1).1)
      (split_path-append dir c rest h l)
    ∙ ap (λ (p : Text × Text). ((dir ++ c ∷ []) ++ b'/' ∷ p.0) ++ p.1) (splitext-Lacks rest l)
    ∙ append_assoc (dir ++ c ∷ []) (b'/' ∷ (split_name rest).0) (split_name rest).1
    ∙ append_assoc dir (c ∷ []) (b'/' ∷ (split_name rest).0 ++ (split_name rest).1)
    ∙ ap (λ (t : Text). dir ++ c ∷ b'/' ∷ t) (split_name_lem rest)
