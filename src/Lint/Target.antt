-- ===== src/Lint/Target.antt =====
-- Which line a NOLINT comment is for.
use mathlib.Core.List.{reverse, reverse-append, reverse-reverse}
use front_server.Common.{
  ℕ, ◌+◌, ◌≡◌, ◌≢◌, refl, sym, ap, ◌∙◌, true, false, [], ◌∷◌, ◌++◌, arith, all, Text, codes,
  is_space, lstrip, rstrip, strip, starts_with, starts_with_iff,
}
use front_server.Lint.{nolint_target}

-- Where the target line lies: the line of the comment is nothing but the comment behind white space,
-- and the target is one line further on, or the line begins with something else than a comment, and
-- the target is that line.
pub data Target (raw_line : Text) : ℕ → Type 0 where
  alone :
      (indent rest : Text)
      → all is_space indent ≡ true
      → raw_line ≡ indent ++ (codes "// NOLINT" ++ rest)
      → Target raw_line 1
  behind :
      (indent : Text) (c : ℕ) (rest : Text)
      → all is_space indent ≡ true
      → is_space c ≡ false
      → c ≢ b'/'
      → raw_line ≡ indent ++ c ∷ rest
      → Target raw_line 0

lstrip-solid :
    (s : Text) (c : ℕ) (t : Text) → is_space c ≡ false → lstrip (s ++ c ∷ t) ≡ lstrip s ++ c ∷ t
unfolding lstrip
lstrip-solid [] c t h = rw h refl
lstrip-solid (a ∷ s) c t h = ground (arith, lstrip-solid s c t h)

lstrip-blank : (s : Text) → all is_space s ≡ true → lstrip s ≡ []
unfolding lstrip
lstrip-blank [] h = refl
lstrip-blank (a ∷ s) h = ground (arith, lstrip-blank s)

lstrip-indent :
    (indent : Text) (c : ℕ) (t : Text)
    → all is_space indent ≡ true
    → is_space c ≡ false
    → lstrip (indent ++ c ∷ t) ≡ c ∷ t
lstrip-indent indent c t blank solid =
    lstrip-solid indent c t solid ∙ ap (λ s. s ++ c ∷ t) (lstrip-blank indent blank)

-- What `rstrip` leaves of a text begins with whatever the text begins with up to no white space.
rstrip-solid :
    (s : Text) (c : ℕ) (t : Text)
    → is_space c ≡ false
    → rstrip ((s ++ c ∷ []) ++ t) ≡ (s ++ c ∷ []) ++ rstrip t
unfolding rstrip
rstrip-solid s c t solid =
    let start : reverse (s ++ c ∷ []) ≡ c ∷ reverse s = reverse-append s (c ∷ []) in
    let turned : reverse ((s ++ c ∷ []) ++ t) ≡ reverse t ++ c ∷ reverse s =
      reverse-append (s ++ c ∷ []) t ∙ ap (λ u. reverse t ++ u) start in
    ap (λ u. reverse (lstrip u)) turned
    ∙ ap reverse (lstrip-solid (reverse t) c (reverse s) solid)
    ∙ reverse-append (lstrip (reverse t)) (c ∷ reverse s)
    ∙ ap (λ u. u ++ rstrip t) (ap reverse (sym start) ∙ reverse-reverse (s ++ c ∷ []))

strip-indent :
    (indent : Text) (c : ℕ) (t : Text)
    → all is_space indent ≡ true
    → is_space c ≡ false
    → strip (indent ++ c ∷ t) ≡ rstrip (c ∷ t)
unfolding strip
strip-indent indent c t blank solid = ap rstrip (lstrip-indent indent c t blank solid)

alone_begins :
    (indent rest : Text)
    → all is_space indent ≡ true
    → starts_with (strip (indent ++ (codes "// NOLINT" ++ rest))) (codes "// NOLINT") ≡ true
unfolding codes is_space
alone_begins indent rest blank =
    (starts_with_iff (strip (indent ++ (codes "// NOLINT" ++ rest))) (codes "// NOLINT")).1 (
      rstrip rest,
      strip-indent indent b'/' (codes "/ NOLINT" ++ rest) blank refl
          ∙ rstrip-solid (codes "// NOLIN") b'T' rest refl,
    )

code_begins :
    (indent : Text) (c : ℕ) (rest : Text)
    → all is_space indent ≡ true
    → is_space c ≡ false
    → c ≢ b'/'
    → starts_with (strip (indent ++ c ∷ rest)) (codes "// NOLINT") ≡ false
unfolding codes starts_with
code_begins indent c rest blank solid other =
    ap (λ s. starts_with s (codes "// NOLINT"))
      (strip-indent indent c rest blank solid ∙ rstrip-solid [] c rest solid)
    ∙ ground (arith, other)

pub nolint_target-Target :
    (raw_line : Text) (linenum : ℕ) {further : ℕ}
    → Target raw_line further
    → nolint_target raw_line linenum ≡ linenum + further
nolint_target-Target raw_line linenum (alone indent rest blank e) =
    rw (e, alone_begins indent rest blank) refl
nolint_target-Target raw_line linenum (behind indent c rest blank solid other e) =
    rw (e, code_begins indent c rest blank solid other) (omega arith)
