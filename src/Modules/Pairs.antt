-- ===== src/Modules/Pairs.antt =====
-- Which pairs of files `FilesBelongToSameModule` accepts, and with which prefix.
use mathlib.Core.List.{reverse-append}
use front_server.Common.{
  ◌≡◌, ◌≢◌, refl, sym, ap, ◌∙◌, ◌⊎◌, inl, inr, ◌↔◌, true, false, [], ◌++◌, Bool-cases, arith, Text,
  codes, text_eq, text_eq_iff, ends_with, ends_with_iff, without_last, without_last-append,
  append_assoc, starts_with,
}
use front_server.Modules.{
  shorten, module_of_source, module_of_header, common_path, files_belong_to_same_module,
}

common_path_iff :
    (source header path : Text)
    → header ≢ []
    → ((ends_with source header ≡ true) × (common_path source header ≡ path))
      ↔ (source ≡ path ++ header)
unfolding common_path
common_path_iff source header path h = elim (Bool-cases (text_eq header [])) [
  | inl empty ↦ absurd (h ((text_eq_iff header []).0 empty))
  | inr other ↦ (
    λ (ends, same).
        let (u, split) = (ends_with_iff source header).0 ends in
        let cut : without_last header source ≡ u = rw split (without_last-append u header) in
        let e : u ≡ path = sym cut ∙ rw other at same in split ∙ ap (λ (v : Text). v ++ header) e,
    λ split. (
      (ends_with_iff source header).1 (path, split),
      rw (other, split) (without_last-append path header),
    ),
  )
]

-- The files are accepted with a prefix exactly if they have the extensions `.cc` and `.h`, and the
-- prefix makes the module of the header, which is not empty, that of the source file.
pub files_belong_to_same_module_iff :
    (filename_cc filename_h path : Text)
    → module_of_header filename_h ≢ []
    → (files_belong_to_same_module filename_cc filename_h ≡ (true, path)) ↔ (
        (ends_with filename_cc (codes ".cc") ≡ true)
        × (ends_with filename_h (codes ".h") ≡ true)
        × (module_of_source filename_cc ≡ path ++ module_of_header filename_h))
unfolding files_belong_to_same_module
files_belong_to_same_module_iff filename_cc filename_h path h =
    let source : Text = module_of_source filename_cc in
    let header : Text = module_of_header filename_h in
    let (to, from) = common_path_iff source header path h in
    (
      λ e. elim (Bool-cases (ends_with source header)) [
        | inl ends ↦ (ground (arith, ends), ground (arith, ends), to (ends, ground (arith, ends)))
        | inr other ↦ absurd (ground (arith, other))
      ],
      λ (cc_ext, h_ext, split).
          let (ends, same) = from split in rw (cc_ext, h_ext, ends, same) refl,
    )

no_test : (foo : Text) → ends_with (foo ++ codes "_test") (codes "_unittest") ≡ false
unfolding ends_with codes starts_with
no_test foo = rw (reverse-append foo (codes "_test")) refl

-- The endings of the files of a module.
abbrev pub IsSourceEnding : Text → Type 0
IsSourceEnding s =
    (s ≡ codes ".cc")
    ⊎ ((s ≡ codes "_test" ++ codes ".cc") ⊎ (s ≡ codes "_unittest" ++ codes ".cc"))

abbrev pub IsHeaderEnding : Text → Type 0
IsHeaderEnding s = (s ≡ codes ".h") ⊎ (s ≡ codes "-inl" ++ codes ".h")

-- The name has none of the endings that are left out.
abbrev pub IsBase : Text → Type 0
IsBase foo =
    (ends_with foo (codes "_unittest") ≡ false)
    × (ends_with foo (codes "_test") ≡ false)
    × (ends_with foo (codes "-inl") ≡ false)

ends_with-append : (u t : Text) → ends_with (u ++ t) t ≡ true
ends_with-append u t = (ends_with_iff (u ++ t) t).1 (u, refl)

source-ending :
    (foo ending : Text)
    → IsBase foo
    → IsSourceEnding ending
    → (ends_with (foo ++ ending) (codes ".cc") ≡ true)
      × (module_of_source (foo ++ ending) ≡ shorten foo)
unfolding module_of_source
source-ending foo ending (no_unittest, no_test_end, _) (inl e) = rw e (
  ends_with-append foo (codes ".cc"),
  rw (without_last-append foo (codes ".cc"), no_unittest, no_test_end) refl,
)
source-ending foo ending h (inr (inl e)) =
    rw (e, sym (append_assoc foo (codes "_test") (codes ".cc")))
      (
        ends_with-append (foo ++ codes "_test") (codes ".cc"),
        rw
            (
              without_last-append (foo ++ codes "_test") (codes ".cc"),
              no_test foo,
              ends_with-append foo (codes "_test"),
              without_last-append foo (codes "_test"),
            )
            refl,
      )
source-ending foo ending h (inr (inr e)) =
    rw (e, sym (append_assoc foo (codes "_unittest") (codes ".cc")))
      (
        ends_with-append (foo ++ codes "_unittest") (codes ".cc"),
        rw
            (
              without_last-append (foo ++ codes "_unittest") (codes ".cc"),
              ends_with-append foo (codes "_unittest"),
              without_last-append foo (codes "_unittest"),
            )
            refl,
      )

header-ending :
    (foo ending : Text)
    → IsBase foo
    → IsHeaderEnding ending
    → (ends_with (foo ++ ending) (codes ".h") ≡ true)
      × (module_of_header (foo ++ ending) ≡ shorten foo)
unfolding module_of_header
header-ending foo ending (_, _, no_inl) (inl e) =
    rw e (ends_with-append foo (codes ".h"), rw (without_last-append foo (codes ".h"), no_inl) refl)
header-ending foo ending h (inr e) =
    rw (e, sym (append_assoc foo (codes "-inl") (codes ".h")))
      (
        ends_with-append (foo ++ codes "-inl") (codes ".h"),
        rw
            (
              without_last-append (foo ++ codes "-inl") (codes ".h"),
              ends_with-append foo (codes "-inl"),
              without_last-append foo (codes "-inl"),
            )
            refl,
      )

common_path_self : (path : Text) → common_path path path ≡ []
unfolding common_path
common_path_self path = elim (Bool-cases (text_eq path [])) [
  | inl empty ↦ rw empty refl
  | inr other ↦ rw other (without_last-append [] path)
]

-- The files `foo.cc`, `foo_test.cc` and `foo_unittest.cc` belong to one module with each of the
-- headers `foo.h` and `foo-inl.h`, with the empty prefix, where the path `foo` has itself none of
-- the endings `_test`, `_unittest` and `-inl`.
pub files_belong_to_same_module-siblings :
    (foo source_ending header_ending : Text)
    → IsBase foo
    → IsSourceEnding source_ending
    → IsHeaderEnding header_ending
    → files_belong_to_same_module (foo ++ source_ending) (foo ++ header_ending) ≡ (true, [])
unfolding files_belong_to_same_module
files_belong_to_same_module-siblings foo source_ending header_ending h s k =
    let (cc, source) = source-ending foo source_ending h s in
    let (hh, header) = header-ending foo header_ending h k in
    rw (cc, hh, source, header, ends_with-append [] (shorten foo), common_path_self (shorten foo))
      refl
