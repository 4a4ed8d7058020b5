-- ===== src/Lint/Suppressions.antt =====
-- The NOLINT suppressions.
use mathlib.Core.List.{reverse-append}
use mathlib.Core.Bool.{false≢true}
use front_server.Common.{
  ℕ, ◌≡◌, refl, ◌⊎◌, inl, inr, ◌↔◌, Bool, true, false, ◌||◌, ◌&&◌, Option, some, none, List, [],
  ◌∷◌, Bool-cases, arith, any, ◌==◌, ◌++◌, Text, codes, text_eq, text_eq_iff, one_of, starts_with,
  ends_with, length, length-append, take, ap, ◌-◌, ◌+◌, sym, ◌∙◌,
}
use front_server.Lint.Categories.{error_categories}
use front_server.Lint.Target.{Target, nolint_target-Target}
use front_server.Lint.{
  Suppressions, key_eq, lines_for, add_suppression, is_error_suppressed_by_nolint, Lint, suppress,
  apply, run_log, nolint_category, nolint_target, nolint_events, inner, parse_nolint_suppressions,
}

abbrev pub has_line : Option Text → ℕ → Suppressions → Bool
has_line key linenum m = any (◌==◌ linenum) (lines_for key m)

key_eq_iff : (a b : Option Text) → (key_eq a b ≡ true) ↔ (a ≡ b)
unfolding key_eq
key_eq_iff (some a) (some b) = ground (arith, text_eq_iff a b)
key_eq_iff _ _ = ground arith

has_line-add :
    (key other : Option Text) (added linenum : ℕ) (m : Suppressions)
    → has_line other linenum (add_suppression key added m)
      ≡ ((key_eq key other && linenum == added) || has_line other linenum m)
unfolding lines_for add_suppression
has_line-add key other added linenum [] = ground arith
has_line-add key other added linenum ((k, ls) ∷ m) = ground (
  arith,
  has_line-add key other added linenum m,
  key_eq_iff k key,
  key_eq_iff k other,
  key_eq_iff key other,
)

-- Adding line `added` under a key suppresses on that line the key's category, or every category
-- if the key is `None`, and changes nothing else.
pub is_error_suppressed_by_nolint-add_suppression :
    (key : Option Text) (added : ℕ) (category : Text) (linenum : ℕ) (m : Suppressions)
    → is_error_suppressed_by_nolint category linenum (add_suppression key added m) ≡ (
        (linenum == added && (key_eq key (some category) || key_eq key none))
        || is_error_suppressed_by_nolint category linenum m)
unfolding is_error_suppressed_by_nolint
is_error_suppressed_by_nolint-add_suppression key added category linenum m =
    ground (
      arith,
      has_line-add key (some category) added linenum m,
      has_line-add key none added linenum m,
    )

-- A NOLINT comment with no category, or with `(*)`, suppresses every category on its target line
-- and changes nothing on the other lines. The target is the line of the comment if the first
-- character of that line behind white space is no slash, and the next line if `// NOLINT` stands
-- behind the white space.
pub parse_nolint_suppressions-all :
    (tty : Bool) (filename raw_line : Text) (linenum : ℕ) (l : Lint) (category : Text) (at : ℕ)
    {further : ℕ}
    → (nolint_category raw_line ≡ some none)
      ⊎ (nolint_category raw_line ≡ some (some (codes "(*)")))
    → Target raw_line further
    → (l' : Lint) × (run_log tty filename (parse_nolint_suppressions raw_line linenum) l ≡ some l')
      × (is_error_suppressed_by_nolint category at l'.suppressions
          ≡ (at == linenum + further || is_error_suppressed_by_nolint category at l.suppressions))
unfolding parse_nolint_suppressions nolint_events run_log apply key_eq
parse_nolint_suppressions-all tty filename raw_line linenum l category at h target = (
  record l { suppressions = add_suppression none (nolint_target raw_line linenum) l.suppressions },
  ground (arith, text_eq_iff (codes "(*)") (codes "(*)")),
  ground (
    arith,
    is_error_suppressed_by_nolint-add_suppression none (nolint_target raw_line linenum) category at
        l.suppressions,
  )
      ∙ ap (λ (n : ℕ). at == n || is_error_suppressed_by_nolint category at l.suppressions)
          (nolint_target-Target raw_line linenum target),
)

take-append {ℓ} : {A : Type ℓ} (xs ys : List A) → take (length xs) (xs ++ ys) ≡ xs
take-append [] ys = refl
take-append (x ∷ xs) ys = ap (◌∷◌ x) (take-append xs ys)

inner-parens : (named : Text) → inner (codes "(" ++ named ++ codes ")") ≡ named
unfolding codes
inner-parens named =
    let e : length (b'(' ∷ (named ++ b')' ∷ [])) - 2 ≡ length named =
      omega (arith, length-append named (b')' ∷ [])) in
    rw e (take-append named (b')' ∷ []))

starts_with-parens :
    (named : Text) → starts_with (codes "(" ++ named ++ codes ")") (codes "(") ≡ true
unfolding starts_with codes
starts_with-parens named = refl

ends_with-parens : (named : Text) → ends_with (codes "(" ++ named ++ codes ")") (codes ")") ≡ true
unfolding ends_with starts_with codes
ends_with-parens named = rw (reverse-append (b'(' ∷ named) (b')' ∷ []))

star_unknown : one_of error_categories (codes "*") ≡ false
unfolding text_eq codes
star_unknown = refl

inner_star : inner (codes "(*)") ≡ codes "*"
unfolding codes
inner_star = refl

parens-ne-star :
    (named : Text)
    → one_of error_categories named ≡ true
    → text_eq (codes "(" ++ named ++ codes ")") (codes "(*)") ≡ false
parens-ne-star named known =
    elim (Bool-cases (text_eq (codes "(" ++ named ++ codes ")") (codes "(*)"))) [
      | inr differs ↦ differs
      | inl same ↦
          let e : named ≡ codes "*" =
            sym (inner-parens named) ∙ ap inner ((text_eq_iff _ _).0 same) ∙ inner_star in
          absurd (false≢true (sym star_unknown ∙ rw (← e) known))
    ]

nolint_events-parens :
    (named : Text) (linenum : ℕ)
    → one_of error_categories named ≡ true
    → nolint_events (some (codes "(" ++ named ++ codes ")")) linenum
      ≡ suppress (some named) linenum ∷ []
unfolding nolint_events
nolint_events-parens named linenum known = rw (
  nolint_events,
  parens-ne-star named known,
  starts_with-parens named,
  ends_with-parens named,
  inner-parens named,
  known,
)

-- A NOLINT comment with a known category in parentheses suppresses that category alone, on its
-- target line alone.
pub parse_nolint_suppressions-one :
    (tty : Bool) (filename raw_line : Text) (linenum : ℕ) (l : Lint) (named category : Text)
    (at : ℕ)
    → nolint_category raw_line ≡ some (some (codes "(" ++ named ++ codes ")"))
    → one_of error_categories named ≡ true
    → (l' : Lint) × (run_log tty filename (parse_nolint_suppressions raw_line linenum) l ≡ some l')
      × (is_error_suppressed_by_nolint category at l'.suppressions ≡ (
          (at == nolint_target raw_line linenum && text_eq named category)
          || is_error_suppressed_by_nolint category at l.suppressions))
unfolding parse_nolint_suppressions run_log apply key_eq
parse_nolint_suppressions-one tty filename raw_line linenum l named category at h known = (
  record l {
    suppressions = add_suppression (some named) (nolint_target raw_line linenum) l.suppressions;
  },
  rw (
    parse_nolint_suppressions,
    h,
    nolint_events-parens named (nolint_target raw_line linenum) known,
  ),
  ground (
    arith,
    is_error_suppressed_by_nolint-add_suppression (some named) (nolint_target raw_line linenum)
        category at l.suppressions,
  ),
)
