-- ===== src/Include/Headers/Suffixes.antt =====
-- Which part of a file's name `_DropCommonSuffixes` leaves, and what that says of its headers.
use mathlib.Core.List.{reverse, reverse-reverse, reverse-append}
use front_server.Common.{
  ℕ, suc, ◌-◌, ◌≡◌, refl, ap, sym, ◌∙◌, Bool, true, false, not, ◌&&◌, List, [], ◌∷◌, ◌++◌,
  append_assoc, inl, inr, arith, All, all, ltb, ◌==◌, length, length-append, length-reverse,
  take_append, get_or, Text, codes, text_eq, text_eq_iff, text_eq_refl, one_of, Bool-cases,
  ends_with, starts_with, without_last, split_path,
}
use front_server.Include.{likely_my}
use front_server.Include.Headers.{
  is_separator, drops, drop_first, drop_common_suffixes, common_suffixes, classify_include,
  classify_quoted,
}

-- The text begins with the reversed suffix, and then a separator.
abbrev begins : Text → Text → Bool
begins [] [] = false
begins [] (c ∷ r) = is_separator c
begins (a ∷ t) [] = false
begins (a ∷ t) (c ∷ r) = c == a && begins t r

begins_lem :
    (t r : Text)
    → (starts_with r t && ltb (length t) (length r) && is_separator (get_or r (length t) 0))
      ≡ begins t r
unfolding starts_with
begins_lem [] [] = refl
begins_lem [] (c ∷ r) = ground arith
begins_lem (a ∷ t) [] = refl
begins_lem (a ∷ t) (c ∷ r) = ground (arith, begins_lem t r)

drops_lem :
    (suffix filename : Text) → drops suffix filename ≡ begins (reverse suffix) (reverse filename)
unfolding drops ends_with
drops_lem suffix filename = rw (
  sym (begins_lem (reverse suffix) (reverse filename)),
  length-reverse suffix,
  length-reverse filename,
)

abbrev IsPlain : Text → Type 0
IsPlain t = all (λ c. not (is_separator c)) t ≡ true

begins_unique :
    (t u r : Text) → IsPlain t → IsPlain u → begins t r ≡ true → begins u r ≡ true → t ≡ u
begins_unique [] [] r p q e d = refl
begins_unique [] (a ∷ u) [] p q e d = cc
begins_unique [] (a ∷ u) (c ∷ r) p q e d = ground arith
begins_unique (a ∷ t) [] [] p q e d = cc
begins_unique (a ∷ t) [] (c ∷ r) p q e d = ground arith
begins_unique (a ∷ t) (b ∷ u) [] p q e d = cc
begins_unique (a ∷ t) (b ∷ u) (c ∷ r) p q e d = ground (arith, begins_unique t u r)

begins_append : (t : Text) (c : ℕ) (r : Text) → is_separator c ≡ true → begins t (t ++ c ∷ r) ≡ true
begins_append [] c r h = h
begins_append (a ∷ t) c r h = ground (arith, begins_append t c r h)

begins-drops :
    (stem : Text) (sep : ℕ) (suffix : Text)
    → is_separator sep ≡ true
    → drops suffix (stem ++ sep ∷ suffix) ≡ true
begins-drops stem sep suffix h =
    let e : reverse (stem ++ sep ∷ suffix) ≡ reverse suffix ++ sep ∷ reverse stem =
      reverse-append stem (sep ∷ suffix)
      ∙ ap (λ (t : Text). t ++ reverse stem) (reverse-append (sep ∷ []) suffix)
      ∙ append_assoc (reverse suffix) (sep ∷ []) (reverse stem) in
    drops_lem suffix (stem ++ sep ∷ suffix)
    ∙ ap (begins (reverse suffix)) e
    ∙ begins_append (reverse suffix) sep (reverse stem) h

without_last-suffix :
    (stem : Text) (sep : ℕ) (suffix : Text)
    → without_last (0 ∷ suffix) (stem ++ sep ∷ suffix) ≡ stem
unfolding without_last
without_last-suffix stem sep suffix =
    let e : length (stem ++ sep ∷ suffix) - suc (length suffix) ≡ length stem =
      omega (arith, length-append stem (sep ∷ suffix)) in
    rw e (take_append stem (sep ∷ suffix))

abbrev ArePlain : List Text → Type 0
ArePlain ss = All (λ s. IsPlain (reverse s)) ss

common_IsPlain : ArePlain common_suffixes
unfolding codes
common_IsPlain = (refl, (refl, (refl, (refl, (refl, (refl, (refl, tt)))))))

IsPlain-one_of :
    (ss : List Text) (s : Text) → ArePlain ss → one_of ss s ≡ true → IsPlain (reverse s)
IsPlain-one_of [] s p m = cc
IsPlain-one_of (t ∷ ss) s p m = elim (Bool-cases (text_eq s t)) [
  | inl same ↦ let e : s ≡ t = (text_eq_iff s t).0 same in rw e p.0
  | inr differ ↦ IsPlain-one_of ss s p.1 (rw differ at m)
]

-- Two suffixes without a separator that the same name may lose are the same.
drops_unique :
    (s t filename : Text)
    → IsPlain (reverse s)
    → IsPlain (reverse t)
    → drops s filename ≡ true
    → drops t filename ≡ true
    → s ≡ t
drops_unique s t filename p q d e =
    sym (reverse-reverse s)
    ∙ ap reverse (
        begins_unique (reverse s) (reverse t) (reverse filename) p q
          (sym (drops_lem s filename) ∙ d) (sym (drops_lem t filename) ∙ e))
    ∙ reverse-reverse t

drop_first-suffix :
    (ss : List Text) (stem : Text) (sep : ℕ) (suffix : Text)
    → ArePlain ss
    → IsPlain (reverse suffix)
    → one_of ss suffix ≡ true
    → is_separator sep ≡ true
    → drop_first ss (stem ++ sep ∷ suffix) ≡ stem
unfolding drop_first
drop_first-suffix [] stem sep suffix p q m h = cc
drop_first-suffix (s ∷ ss) stem sep suffix p q m h =
    let dropped = begins-drops stem sep suffix h in
    elim (Bool-cases (drops s (stem ++ sep ∷ suffix))) [
      | inl found ↦
          let e : s ≡ suffix = drops_unique s suffix (stem ++ sep ∷ suffix) p.0 q found dropped in
          rw (found, e) (without_last-suffix stem sep suffix)
      | inr other ↦
          let apart : text_eq suffix s ≡ false = elim (Bool-cases (text_eq suffix s)) [
            | inr differ ↦ differ
            | inl same ↦ let e : suffix ≡ s = (text_eq_iff suffix s).0 same in cc
          ] in
          rw other (drop_first-suffix ss stem sep suffix p.1 q (rw apart at m) h)
    ]

-- `_DropCommonSuffixes` takes a common suffix off a name, with the dash or underscore in front of
-- it, and leaves what stands before them.
pub drop_common_suffixes-suffix :
    (stem : Text) (sep : ℕ) (suffix : Text)
    → is_separator sep ≡ true
    → one_of common_suffixes suffix ≡ true
    → drop_common_suffixes (stem ++ sep ∷ suffix) ≡ stem
unfolding drop_common_suffixes
drop_common_suffixes-suffix stem sep suffix h m =
    drop_first-suffix common_suffixes stem sep suffix common_IsPlain
      (IsPlain-one_of common_suffixes suffix common_IsPlain m) m h

classify_quoted_same : (p : Text × Text) → classify_quoted p p ≡ likely_my
unfolding classify_quoted
classify_quoted_same (dir, base) = rw (text_eq_refl base, text_eq_refl dir)

-- A header that is not included as a system header is a header of the file's own if
-- `_DropCommonSuffixes` leaves the same of both names.
pub classify_include-own :
    (repository_name include : Text)
    → drop_common_suffixes repository_name ≡ drop_common_suffixes include
    → classify_include repository_name include false ≡ likely_my
unfolding classify_include
classify_include-own repository_name include e =
    ap (λ (t : Text). classify_quoted (split_path t) (split_path (drop_common_suffixes include))) e
    ∙ classify_quoted_same (split_path (drop_common_suffixes include))

-- A file and a header with the same name but for a common suffix each, as `a/b_test.cc` and
-- `a/b-inl.h`, belong together: `_ClassifyInclude` takes the header for one that the file
-- implements.
pub classify_include-suffixes :
    (stem : Text) (sep sep' : ℕ) (suffix suffix' : Text)
    → is_separator sep ≡ true
    → is_separator sep' ≡ true
    → one_of common_suffixes suffix ≡ true
    → one_of common_suffixes suffix' ≡ true
    → classify_include (stem ++ sep ∷ suffix) (stem ++ sep' ∷ suffix') false ≡ likely_my
classify_include-suffixes stem sep sep' suffix suffix' h h' m m' =
    classify_include-own (stem ++ sep ∷ suffix) (stem ++ sep' ∷ suffix') (
      drop_common_suffixes-suffix stem sep suffix h m
      ∙ sym (drop_common_suffixes-suffix stem sep' suffix' h' m'))
