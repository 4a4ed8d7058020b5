-- ===== src/File/Guard.antt =====
-- `CheckForHeaderGuard` accepts a file with a guard.
use front_server.Common.{
  ℕ, ◌+◌, ◌≡◌, refl, sym, ap, ◌∙◌, ◌≢◌, ◌↔◌, inl, inr, Bool-cases, Option-cases, text_eq_iff, true,
  Option, none, some, List, [], ◌∷◌, ◌++◌, if◌then◌else◌, arith, Text, codes, text_eq, text_eq_refl,
  starts_with, words, all,
}
use front_server.Common.Regex.{Regex, matches, all_of, lit, plus, space, chars, is_word}
use front_server.Lint.{Log}
use front_server.File.{
  Guards, no_guards, argument_of, see_ifndef, see_define, see_endif, see_line, find_guards,
  guard_error, endif_pattern, check_endif, check_rest, check_style, check_guards,
  check_for_header_guard,
}

-- The argument of `#ifndef` or `#define` on a line.
abbrev pub ifndef_of : Text → Option Text
ifndef_of line = argument_of (codes "#ifndef") (words line)

abbrev pub define_of : Text → Option Text
define_of line = argument_of (codes "#define") (words line)

see_line-ifndef :
    (line : Text) (n : ℕ) (g : Guards)
    → (see_line line n g).ifndef ≡ elim g.ifndef [ none ↦ ifndef_of line | some v ↦ some v ]
unfolding see_line see_ifndef see_define see_endif
see_line-ifndef line n g = ground arith

see_line-define :
    (line : Text) (n : ℕ) (g : Guards)
    → (see_line line n g).define ≡ elim g.define [ none ↦ define_of line | some v ↦ some v ]
unfolding see_line see_ifndef see_define see_endif
see_line-define line n g = ground arith

see_line-endif :
    (line : Text) (n : ℕ) (g : Guards)
    → (see_line line n g).endif ≡ (if starts_with line (codes "#endif") then some line else g.endif)
unfolding see_line see_ifndef see_define see_endif
see_line-endif line n g = ground arith

-- The first value that the lines give.
abbrev pub first : (Text → Option Text) → List Text → Option Text
first f [] = none
first f (line ∷ lines) = elim (f line) [ none ↦ first f lines | some v ↦ some v ]

-- The last line that begins with `#endif`.
abbrev pub last_endif : Option Text → List Text → Option Text
last_endif endif [] = endif
last_endif endif (line ∷ lines) =
    last_endif (if starts_with line (codes "#endif") then some line else endif) lines

find_guards_lem :
    (lines : List Text) (n : ℕ) (g : Guards)
    → let r = find_guards lines n g in
      (r.ifndef ≡ elim g.ifndef [ none ↦ first ifndef_of lines | some v ↦ some v ])
      × (r.define ≡ elim g.define [ none ↦ first define_of lines | some v ↦ some v ])
      × (r.endif ≡ last_endif g.endif lines)
unfolding find_guards
find_guards_lem [] n g = ground arith
find_guards_lem (line ∷ lines) n g =
    let (a, b, c) = find_guards_lem lines (n + 1) (see_line line n g) in
    (
      ground (arith, see_line-ifndef line n g),
      ground (arith, see_line-define line n g),
      c ∙ ap (λ (e : Option Text). last_endif e lines) (see_line-endif line n g),
    )

-- #endif\s+//\s+VARIABLE, for a variable that stands for itself
abbrev pub endif_regex : Text → Regex
endif_regex cppvar =
    all_of (lit "#endif" ∷ plus space ∷ lit "/" ∷ lit "/" ∷ plus space ∷ chars cppvar ∷ [])

-- What `re` documents of patterns: letters, digits and underscores stand for themselves.
abbrev pub ReadsWords : (Text → Option Regex) → Type 0
ReadsWords compile =
    (cppvar : Text)
    → all is_word cppvar ≡ true
    → compile (endif_pattern cppvar) ≡ some (endif_regex cppvar)

-- The file has a guard: its first `#ifndef` and its first `#define` name one variable, which
-- begins with the expected one, and its last line that begins with `#endif` names that in a comment.
abbrev pub IsGuarded : Text → List Text → Type 0
IsGuarded cppvar lines =
    (guard : Text) × (endif : Text) × (first ifndef_of lines ≡ some guard)
    × (first define_of lines ≡ some guard)
    × (starts_with guard cppvar ≡ true)
    × (last_endif none lines ≡ some endif)
    × (matches (endif_regex cppvar) endif ≡ true)

-- The same of what the loop has found, for any pattern.
abbrev Accepts : Text → Regex → Guards → Type 0
Accepts cppvar pattern g =
    (guard : Text) × (endif : Text) × (g.ifndef ≡ some guard)
    × (g.define ≡ some guard)
    × (starts_with guard cppvar ≡ true)
    × (g.endif ≡ some endif)
    × (matches pattern endif ≡ true)

some_injective {ℓ} : {A : Type ℓ} {x y : A} → some x ≡ some y → x ≡ y
some_injective e = cc

append-eq-nil {ℓ} : {A : Type ℓ} (xs ys : List A) → xs ++ ys ≡ [] → (xs ≡ []) × (ys ≡ [])
append-eq-nil [] ys e = (refl, e)
append-eq-nil (x ∷ xs) ys e = cc

guard_error-ne-nil : (n : ℕ) (message : Text) → guard_error n message ≢ []
unfolding guard_error
guard_error-ne-nil n message e = cc

-- A report behind whatever a NOLINT comment adds is no empty log.
report-ne-nil : (log : Log) (n : ℕ) (message : Text) → log ++ guard_error n message ≢ []
report-ne-nil log n message e = guard_error-ne-nil n message (append-eq-nil log _ e).1

check_style_iff :
    (cppvar : Text) (lines : List Text) (g : Guards) (guard : Text)
    → (check_style cppvar lines g guard ≡ []) ↔ (starts_with guard cppvar ≡ true)
unfolding check_style
check_style_iff cppvar lines g guard = elim (Bool-cases (starts_with guard cppvar)) [
  | inl good ↦ rw good (λ _. refl, λ _. refl)
  | inr bad ↦ rw bad (λ e. absurd (report-ne-nil _ _ _ e), λ e. absurd (ground arith))
]

module _ (compile : Text → Option Regex) (cppvar : Text) (pattern : Regex)
    (compiled : compile (endif_pattern cppvar) ≡ some pattern) (lines : List Text)
    (g : Guards) where
  check_endif_iff :
      (endif : Text)
      → (check_endif compile cppvar lines g endif ≡ some []) ↔ (matches pattern endif ≡ true)
  unfolding check_endif
  check_endif_iff endif = elim (Bool-cases (matches pattern endif)) [
    | inl good ↦ rw (check_endif, compiled, good) (λ _. refl, λ _. refl)
    | inr bad ↦
        rw (check_endif, compiled, bad)
          (λ e. absurd (report-ne-nil _ _ _ (some_injective e)), λ e. absurd (ground arith))
  ]

  check_rest-nil :
      (guard define : Text)
      → check_rest compile cppvar lines g guard define ≡ some []
      → (endif : Text) × (g.endif ≡ some endif) × (define ≡ guard) × (matches pattern endif ≡ true)
  unfolding check_rest guard_error
  check_rest-nil guard define e = elim (Option-cases g.endif) [
    | inl missing ↦ absurd (ground arith)
    | inr (endif, found) ↦ elim (Bool-cases (text_eq define guard)) [
      | inl same ↦ (
        endif,
        found,
        (text_eq_iff define guard).0 same,
        (check_endif_iff endif).0 (ground (arith, e)),
      )
      | inr differs ↦ absurd (ground arith)
    ]
  ]

  check_guards-Accepts : check_guards compile cppvar lines g ≡ some [] → Accepts cppvar pattern g
  unfolding check_guards guard_error
  check_guards-Accepts e = elim (Option-cases g.ifndef) [
    | inl missing ↦ absurd (ground arith)
    | inr (guard, found) ↦ elim (Option-cases g.define) [
      | inl missing ↦ absurd (ground arith)
      | inr (define, defined) ↦
          elim (Option-cases (check_rest compile cppvar lines g guard define)) [
            | inl failed ↦ absurd (ground arith)
            | inr (log, checked) ↦
                let (styled, rest) =
                  append-eq-nil (check_style cppvar lines g guard) log (ground arith) in
                let (endif, ended, same, matched) =
                  check_rest-nil guard define (checked ∙ ap some rest) in
                (
                  guard,
                  endif,
                  found,
                  rw same at defined,
                  (check_style_iff cppvar lines g guard).0 styled,
                  ended,
                  matched,
                )
          ]
    ]
  ]

  Accepts-check_guards : Accepts cppvar pattern g → check_guards compile cppvar lines g ≡ some []
  unfolding check_guards check_rest
  Accepts-check_guards (guard, endif, found, defined, styled, ended, matched) = ground (
    arith,
    found,
    defined,
    ended,
    text_eq_refl guard,
    (check_style_iff cppvar lines g guard).1 styled,
    (check_endif_iff endif).1 matched,
  )

-- For an expected variable of letters, digits and underscores, `CheckForHeaderGuard` reports
-- nothing exactly on a file with a guard: its first `#ifndef` and its first `#define` with an
-- argument name one variable, which begins with the expected one, and its last line that begins
-- with `#endif` names the expected one in a comment. In a pattern such a variable is taken to stand
-- for itself.
pub check_for_header_guard_iff :
    (compile : Text → Option Regex) (cppvar : Text) (lines : List Text)
    → ReadsWords compile
    → all is_word cppvar ≡ true
    → (check_for_header_guard compile cppvar lines ≡ some []) ↔ IsGuarded cppvar lines
unfolding check_for_header_guard no_guards
check_for_header_guard_iff compile cppvar lines reads word =
    let g = find_guards lines 0 no_guards in
    let (a, b, c) = find_guards_lem lines 0 no_guards in
    let compiled = reads cppvar word in
    (
      λ e.
          let (guard, endif, found, defined, styled, ended, matched) =
            check_guards-Accepts compile cppvar (endif_regex cppvar) compiled lines g e in
          (guard, endif, sym a ∙ found, sym b ∙ defined, styled, sym c ∙ ended, matched),
      λ (guard, endif, found, defined, styled, ended, matched).
          Accepts-check_guards compile cppvar (endif_regex cppvar) compiled lines g
            (guard, endif, a ∙ found, b ∙ defined, styled, c ∙ ended, matched),
    )
