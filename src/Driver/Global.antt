-- ===== src/Driver/Global.antt =====
-- The GLOBAL_NOLINT comments of a file.
use front_server.Common.{
  ℕ, ◌+◌, ◌≡◌, refl, inl, inr, Bool, true, false, ◌||◌, ◌&&◌, Option, none, some, ends_with, one_of,
  List, [], ◌∷◌, ◌++◌, Bool-cases, Option-cases, arith, All, All-append, Text, codes, text_eq,
  text_eq_iff, starts_with,
}
use front_server.Lint.Categories.{error_categories}
use front_server.Lint.{Lint, should_print_error, inner}
use front_server.Lint.Filters.{
  HasSigns, covers, last_cover, should_print_error-verdict, run_log-HasSigns, minus-has_sign,
}
use front_server.Driver.{
  Mark, unmarked, everything, known, unknown, mark_of, mark_of_group, global_filters,
  append_filters, marks_of, global_mark, suppression_global, parse_global_nolint_suppressions,
}
use front_server.Common.Regex.{finds, search, group_of}

-- A mark names the category before one that ends the search.
abbrev pub names : Text → List Mark → Bool
names category [] = false
names category (unmarked ∷ marks) = names category marks
names category (known k ∷ marks) = text_eq k category || names category marks
names category (_ ∷ marks) = false

abbrev IsMinus : List Text → Type 0
IsMinus = All (λ f. starts_with f (codes "-") ≡ true)

minus_sign : (category : Text) → starts_with (codes "-" ++ category) (codes "-") ≡ true
unfolding starts_with codes
minus_sign category = refl

starts_with_refl : (s : Text) → starts_with s s ≡ true
unfolding starts_with
starts_with_refl [] = refl
starts_with_refl (c ∷ s) = ground (arith, starts_with_refl s)

covers_self : (category : Text) → covers category (codes "-" ++ category) ≡ true
unfolding codes
covers_self category = starts_with_refl category

global_filters-IsMinus : (n : ℕ) (marks : List Mark) → IsMinus (global_filters n marks).0
unfolding global_filters
global_filters-IsMinus n [] = tt
global_filters-IsMinus n (unmarked ∷ marks) = global_filters-IsMinus (n + 1) marks
global_filters-IsMinus n (everything ∷ marks) = tt
global_filters-IsMinus n (known k ∷ marks) = (minus_sign k, global_filters-IsMinus (n + 1) marks)
global_filters-IsMinus n (unknown k ∷ marks) = tt

last_cover-IsMinus :
    (category : Text) (fs : List Text) {g : Text}
    → IsMinus fs
    → last_cover category fs ≡ some g
    → starts_with g (codes "-") ≡ true
last_cover-IsMinus category [] h e = cc
last_cover-IsMinus category (f ∷ fs) {g} h e = elim (Option-cases (last_cover category fs)) [
  | inl missing ↦ ground arith
  | inr (g', found) ↦ last_cover-IsMinus category fs h.1 (ground arith)
]

last_cover-global :
    (category : Text) (n : ℕ) (marks : List Mark)
    → names category marks ≡ true
    → (g : Text) × (last_cover category (global_filters n marks).0 ≡ some g)
unfolding global_filters
last_cover-global category n [] h = absurd (ground arith)
last_cover-global category n (unmarked ∷ marks) h = last_cover-global category (n + 1) marks h
last_cover-global category n (everything ∷ marks) h = absurd (ground arith)
last_cover-global category n (unknown k ∷ marks) h = absurd (ground arith)
last_cover-global category n (known k ∷ marks) h =
    elim (Option-cases (last_cover category (global_filters (n + 1) marks).0)) [
      | inr (g, found) ↦ (g, rw found)
      | inl missing ↦ elim (Bool-cases (text_eq k category)) [
        | inl same ↦
            let e : k ≡ category = (text_eq_iff k category).0 same in
            (codes "-" ++ k, rw (missing, e, covers_self category))
        | inr other ↦
            let (g, found) = last_cover-global category (n + 1) marks (rw other at h) in
            absurd (ground arith)
      ]
    ]

last_cover-append :
    (category : Text) (fs gs : List Text) {g : Text}
    → last_cover category gs ≡ some g
    → last_cover category (fs ++ gs) ≡ some g
last_cover-append category [] gs e = e
last_cover-append category (f ∷ fs) gs {g} e = rw (last_cover-append category fs gs {g = g} e)

minus-HasSigns : (fs : List Text) → IsMinus fs → HasSigns fs
minus-HasSigns [] h = tt
minus-HasSigns (f ∷ fs) h = (minus-has_sign f h.0, minus-HasSigns fs h.1)

-- A filter that silences one category of the program.
abbrev pub Silences : Text → Type 0
Silences f =
    (category : Text) × (f ≡ codes "-" ++ category) × (one_of error_categories category ≡ true)

-- A mark that names a category names one of the program.
abbrev IsSound : Mark → Type 0
IsSound unmarked = Unit
IsSound everything = Unit
IsSound (known category) = one_of error_categories category ≡ true
IsSound (unknown category) = Unit

mark_of_group-IsSound : (group : Option Text) → IsSound (mark_of_group group)
unfolding mark_of_group
mark_of_group-IsSound none = tt
mark_of_group-IsSound (some category) = elim (Bool-cases (text_eq category (codes "(*)"))) [
  | inl star ↦ rw star tt
  | inr other ↦
      elim (Bool-cases (starts_with category (codes "(") && ends_with category (codes ")"))) [
        | inr bare ↦ rw (other, bare) tt
        | inl framed ↦ elim (Bool-cases (one_of error_categories (inner category))) [
          | inl listed ↦ rw (other, framed, listed) listed
          | inr strange ↦ rw (other, framed, strange) tt
        ]
      ]
]

mark_of-IsSound : (line : Text) → IsSound (mark_of line)
unfolding mark_of
mark_of-IsSound line = elim (Bool-cases (finds global_mark line)) [
  | inr bare ↦ rw bare tt
  | inl marked ↦ elim (Option-cases (search suppression_global line)) [
    | inl missing ↦ rw (marked, missing) tt
    | inr (m, found) ↦ rw (marked, found) (mark_of_group-IsSound (group_of 1 m))
  ]
]

marks_of-IsSound : (lines : List Text) → All IsSound (marks_of lines)
unfolding marks_of
marks_of-IsSound [] = tt
marks_of-IsSound (line ∷ lines) = (mark_of-IsSound line, marks_of-IsSound lines)

global_filters-Silences :
    (n : ℕ) (marks : List Mark) → All IsSound marks → All Silences (global_filters n marks).0
unfolding global_filters
global_filters-Silences n [] h = tt
global_filters-Silences n (unmarked ∷ marks) h = global_filters-Silences (n + 1) marks h.1
global_filters-Silences n (everything ∷ marks) h = tt
global_filters-Silences n (known k ∷ marks) h =
    ((k, refl, h.0), global_filters-Silences (n + 1) marks h.1)
global_filters-Silences n (unknown k ∷ marks) h = tt

-- The filters behind `ParseGlobalNolintSuppressions`: those before, and the new ones.
abbrev extended : List Text → Lint → List Text
extended lines l = l.state.filters ++ (global_filters 0 (marks_of lines)).0

parse_global_nolint_suppressions-extended :
    (tty : Bool) (filename : Text) (lines : List Text) (l : Lint)
    → HasSigns l.state.filters
    → (l' : Lint) × (parse_global_nolint_suppressions tty filename lines l ≡ some l')
      × (l'.state.filters ≡ extended lines l)
      × HasSigns l'.state.filters
unfolding parse_global_nolint_suppressions append_filters
parse_global_nolint_suppressions-extended tty filename lines l h =
    let marks = marks_of lines in
    let signs =
      All-append _ l.state.filters (global_filters 0 marks).0 h
        (minus-HasSigns (global_filters 0 marks).0 (global_filters-IsMinus 0 marks)) in
    let (l', runs, same) =
      run_log-HasSigns tty filename (global_filters 0 marks).1
        (append_filters (global_filters 0 marks).0 l) signs in
    (l', runs, same, rw same signs)

-- With a sign on every filter, `ParseGlobalNolintSuppressions` fails no assertion. Behind it the
-- filters are those before with some appended, each of them a minus in front of a category of
-- `_ERROR_CATEGORIES`, so that every filter has a sign again.
pub parse_global_nolint_suppressions-HasSigns :
    (tty : Bool) (filename : Text) (lines : List Text) (l : Lint)
    → HasSigns l.state.filters
    → (l' : Lint) × (added : List Text) × (parse_global_nolint_suppressions tty filename lines l
        ≡ some l')
      × (l'.state.filters ≡ l.state.filters ++ added)
      × All Silences added
      × HasSigns l'.state.filters
parse_global_nolint_suppressions-HasSigns tty filename lines l h =
    let (l', runs, filters, signs) =
      parse_global_nolint_suppressions-extended tty filename lines l h in
    (
      l',
      (global_filters 0 (marks_of lines)).0,
      runs,
      filters,
      global_filters-Silences 0 (marks_of lines) (marks_of-IsSound lines),
      signs,
    )

-- A GLOBAL_NOLINT comment that names a category, with no comment that ends the search before it,
-- silences the category for good: while the filters are those that
-- `ParseGlobalNolintSuppressions` left behind, no error of the category is printed, in any line
-- and with any confidence, which holds in other files too.
pub parse_global_nolint_suppressions-silences :
    (tty : Bool) (filename : Text) (lines : List Text) (l later : Lint) {l' : Lint}
    (category : Text) (confidence linenum : ℕ)
    → HasSigns l.state.filters
    → names category (marks_of lines) ≡ true
    → parse_global_nolint_suppressions tty filename lines l ≡ some l'
    → later.state.filters ≡ l'.state.filters
    → should_print_error category confidence linenum later ≡ some false
parse_global_nolint_suppressions-silences tty filename lines l later {l'} category confidence
      linenum h named runs same =
    let (m, runs', filters, signs) =
      parse_global_nolint_suppressions-extended tty filename lines l h in
    let marks = marks_of lines in
    let (g, found) = last_cover-global category 0 marks named in
    let minus =
      last_cover-IsMinus category (global_filters 0 marks).0 {g = g}
        (global_filters-IsMinus 0 marks) found in
    let e : later.state.filters ≡ m.state.filters = ground arith in
    let last : last_cover category later.state.filters ≡ some g =
      rw (e, filters)
        (last_cover-append category l.state.filters (global_filters 0 marks).0 {g = g} found) in
    let v = should_print_error-verdict category confidence linenum later (rw e signs) in
    ground (arith, v, last, minus)
