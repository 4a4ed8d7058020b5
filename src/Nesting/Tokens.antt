-- ===== src/Nesting/Tokens.antt =====
-- The first token of a line: a brace, a semicolon or a closing parenthesis.
use front_server.Common.{
  ℕ, suc, ◌-◌, ◌≡◌, refl, ◌∙◌, Bool, true, false, not, Option, none, some, [], ◌∷◌, ◌++◌, ◌==◌,
  arith, length, take, take_all, All, Text, codes,
}
use front_server.Common.Regex.{
  Found, Place, run, match, all_of, dot, none_in, one_in, in_set, group_of, eol, group, star,
}
use front_server.Common.Regex.Laws.{
  place, behind, run-star_sat, run-star_every, run-star_none, run-sat, run-sat_fails,
}
use front_server.Nesting.Patterns.{first_token}
use front_server.Nesting.{group_text}

abbrev pub is_token : ℕ → Bool
is_token = in_set (codes "{;)}")

abbrev pub IsFree : Text → Type 0
IsFree = All (λ c. not (is_token c) ≡ true)

-- A line holds no newline.
abbrev pub IsLine : Text → Type 0
IsLine = All (λ c. not (c == 10) ≡ true)

-- What the pattern goes on with behind the characters that are no tokens.
abbrev token_on : Place → Option Place
token_on q = run (all_of (group 1 (one_in "{;)}") ∷ group 2 (star dot) ∷ eol ∷ [])) q some

free_is_none : (c : ℕ) → not (is_token c) ≡ true → is_token c ≡ false
free_is_none c h = ground arith

-- What the pattern goes on with behind the token, whose group begins with `here`.
abbrev rest_on : Text → Place → Option Place
rest_on here q =
    run (all_of (group 2 (star dot) ∷ eol ∷ []))
      (record q { groups = (1, take (length here - length q.rest) here) ∷ q.groups }) some

token_on-none : (prev : Option ℕ) (t : Text) → IsFree t → token_on (place prev t []) ≡ none
unfolding run all_of one_in
token_on-none prev [] h = refl
token_on-none prev (c ∷ t) h =
    run-sat_fails is_token [] (rest_on (c ∷ t)) prev c t (free_is_none c h.0)

run-first_token-none : (s : Text) → IsFree s → run first_token (place none s []) some ≡ none
unfolding first_token all_of none_in one_in run dot
run-first_token-none s h = run-star_none (λ c. not (is_token c)) [] token_on none s h token_on-none

pub first_token-none : (s : Text) → IsFree s → match first_token s ≡ none
unfolding match
first_token-none s h = rw (run-first_token-none s h)

take_one : (c : ℕ) (s : Text) → take (length (c ∷ s) - length s) (c ∷ s) ≡ c ∷ []
take_one c s = let e : suc (length s) - length s ≡ 1 = omega arith in rw e

-- What the pattern goes on with behind the rest of the line.
abbrev end_on : Text → Place → Option Place
end_on here q =
    run (all_of (eol ∷ []))
      (record q { groups = (2, take (length here - length q.rest) here) ∷ q.groups }) some

run-rest_on :
    (prev : Option ℕ) (c : ℕ) (rest : Text)
    → IsLine rest
    → rest_on (c ∷ rest) (place prev rest [])
      ≡ some (
          place (behind prev rest) [] (
            (2, take (length rest - 0) rest)
            ∷ (1, take (length (c ∷ rest) - length rest) (c ∷ rest))
            ∷ []))
unfolding run all_of dot
run-rest_on prev c rest l =
    run-star_every (λ a. not (a == 10))
      ((1, take (length (c ∷ rest) - length rest) (c ∷ rest)) ∷ []) (end_on rest) prev rest l refl

run-first_token-some :
    (s : Text) (c : ℕ) (rest : Text)
    → IsFree s
    → is_token c ≡ true
    → IsLine rest
    → run first_token (place none (s ++ c ∷ rest) []) some
      ≡ some (
          place (behind (some c) rest) [] (
            (2, take (length rest - 0) rest)
            ∷ (1, take (length (c ∷ rest) - length rest) (c ∷ rest))
            ∷ []))
unfolding first_token all_of none_in one_in run dot
run-first_token-some s c rest h t l =
    run-star_sat (λ c. not (is_token c)) [] token_on none s (c ∷ rest) h (rw t)
      (run-sat is_token [] (rest_on (c ∷ rest)) (behind none s) c rest t
        ∙ run-rest_on (some c) c rest l)

pub first_token-some :
    (s : Text) (c : ℕ) (rest : Text)
    → IsFree s
    → is_token c ≡ true
    → IsLine rest
    → (m : Found) × (match first_token (s ++ c ∷ rest) ≡ some m)
      × (group_text 1 m ≡ c ∷ [])
      × (group_text 2 m ≡ rest)
unfolding match group_of group_text
first_token-some s c rest h t l =
    let e : length rest - 0 ≡ length rest = omega arith in
    (
      record {
        before = [];
        matched = take (length (s ++ c ∷ rest) - 0) (s ++ c ∷ rest);
        after = [];
        groups =
            (2, take (length rest - 0) rest)
            ∷ (1, take (length (c ∷ rest) - length rest) (c ∷ rest))
            ∷ [];
      },
      rw (run-first_token-some s c rest h t l),
      take_one c rest,
      rw e (take_all rest),
    )
