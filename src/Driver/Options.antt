-- ===== src/Driver/Options.antt =====
-- What `ParseArguments` leaves the settings as.
use front_server.Common.{
  none, some, ◌≡◌, ◌≢◌, refl, inl, inr, true, false, some, List, [], ◌∷◌, Bool-cases, Option-cases,
  arith, Text, codes, text_eq, text_eq_refl, one_of,
}
use front_server.Lint.{
  CppLintState, set_output_format, set_verbose_level, set_filters, set_counting_style, set_quiet,
}
use front_server.Lint.Filters.{HasSigns, set_filters-HasSigns}
use front_server.Driver.{
  Setting, help, quiet, output, filter, counting, verbose, usage, Result, ok, leave, Chosen, choose,
  configure, parse_arguments,
}

-- Every setting is one that the program knows.
abbrev pub IsChosen : Chosen → Type 0
IsChosen c =
    (one_of (codes "emacs" ∷ codes "vs7" ∷ []) c.output_format ≡ true)
    × (one_of ([] ∷ codes "total" ∷ codes "toplevel" ∷ codes "detailed" ∷ []) c.counting_style
        ≡ true)

choose-IsChosen :
    (opts : List Setting) (c : Chosen) {d : Chosen} → IsChosen c → choose opts c ≡ ok d → IsChosen d
unfolding choose
choose-IsChosen [] c h e = ground arith
choose-IsChosen (help ∷ opts) c h e = cc
choose-IsChosen (output val ∷ opts) c {d} h e =
    elim (Bool-cases (one_of (codes "emacs" ∷ codes "vs7" ∷ []) val)) [
      | inl good ↦
          choose-IsChosen opts (record c { output_format = val }) {d = d} (good, h.1) (rw good at e)
      | inr bad ↦ absurd (ground arith)
    ]
choose-IsChosen (verbose none ∷ opts) c h e = cc
choose-IsChosen (verbose (some val) ∷ opts) c {d} h e =
    choose-IsChosen opts (record c { verbosity = val }) {d = d} h e
choose-IsChosen (filter val ∷ opts) c {d} h e = elim (Bool-cases (text_eq val [])) [
  | inl bad ↦ absurd (ground arith)
  | inr good ↦ choose-IsChosen opts (record c { filters = val }) {d = d} h (rw good at e)
]
choose-IsChosen (counting val ∷ opts) c {d} h e =
    elim (Bool-cases (one_of (codes "total" ∷ codes "toplevel" ∷ codes "detailed" ∷ []) val)) [
      | inl good ↦
          choose-IsChosen opts (record c { counting_style = val }) {d = d} (h.0, ground arith)
            (rw good at e)
      | inr bad ↦ absurd (ground arith)
    ]
choose-IsChosen (quiet ∷ opts) c {d} h e =
    choose-IsChosen opts (record c { is_quiet = true }) {d = d} h e

-- The settings of a state that checks can run with.
abbrev pub IsConfigured : CppLintState → Type 0
IsConfigured s =
    HasSigns s.filters
    × (one_of (codes "emacs" ∷ codes "vs7" ∷ []) s.output_format ≡ true)
    × (one_of ([] ∷ codes "total" ∷ codes "toplevel" ∷ codes "detailed" ∷ []) s.counting ≡ true)

configure-IsConfigured :
    (c : Chosen) (s : CppLintState) {t : CppLintState}
    → IsChosen c
    → configure c s ≡ ok t
    → IsConfigured t
      × (t.error_count ≡ s.error_count)
      × (t.errors_by_category ≡ s.errors_by_category)
      × (t.verbose_level ≡ c.verbosity)
      × (t.quiet ≡ c.is_quiet)
unfolding configure set_output_format set_verbose_level set_counting_style set_quiet
configure-IsConfigured c s {t} h e =
    let before : CppLintState = record s {
      output_format = c.output_format;
      verbose_level = c.verbosity;
    } in
    elim (Option-cases (set_filters c.filters before).1) [
      | inr (message, failed) ↦ absurd (ground arith)
      | inl fine ↦
          let signs = (set_filters-HasSigns c.filters before).0 fine in
          unfold set_filters in
          (
            (ground (arith, signs), ground arith, ground arith),
            ground arith,
            ground arith,
            ground arith,
            ground arith,
          )
    ]

-- If `ParseArguments` returns, there are files to check, every filter starts with a sign, also where
-- the usage allows none, the output format is a known one, the counting style is a known one or the
-- empty text, which it is without the option, and the counts of errors are as before. The output
-- format that the program starts with is taken to be a known one.
pub parse_arguments-IsConfigured :
    (opts : List Setting) (filenames : List Text) (s : CppLintState) {t : CppLintState}
    → one_of (codes "emacs" ∷ codes "vs7" ∷ []) s.output_format ≡ true
    → parse_arguments opts filenames s ≡ ok t
    → (filenames ≢ [])
      × IsConfigured t
      × (t.error_count ≡ s.error_count)
      × (t.errors_by_category ≡ s.errors_by_category)
unfolding parse_arguments
parse_arguments-IsConfigured opts filenames s {t} known e =
    let start : Chosen = record {
      verbosity = s.verbose_level;
      output_format = s.output_format;
      filters = [];
      counting_style = [];
      is_quiet = false;
    } in
    go filenames (choose opts start) refl e
  where
    go :
        (names : List Text) (r : Result Chosen)
        → choose opts (record {
          verbosity = s.verbose_level;
          output_format = s.output_format;
          filters = [];
          counting_style = [];
          is_quiet = false;
        })
          ≡ r
        → elim r [
          | leave l ↦ leave l
          | ok c ↦ elim names [
            | [] ↦ leave (usage (some (codes "No files were specified.")))
            | _ ∷ _ ↦ configure c s
          ]
        ]
          ≡ ok t
        → (names ≢ [])
          × IsConfigured t
          × (t.error_count ≡ s.error_count)
          × (t.errors_by_category ≡ s.errors_by_category)
    go names (leave l) chosen e = cc
    go [] (ok c) chosen e = cc
    go (name ∷ names) (ok c) chosen e =
        let h = choose-IsChosen opts _ {d = c} (known, ground (arith, text_eq_refl [])) chosen in
        let (configured, count, counts, _, _) = configure-IsConfigured c s {t = t} h e in
        (cc, configured, count, counts)
