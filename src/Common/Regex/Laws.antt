-- ===== src/Common/Regex/Laws.antt =====
-- How a loop over single characters runs in the matcher.
use Prim.Native.Nat.{ℕ, zero, suc, ◌≤◌}
use mathlib.Core.Path.{◌≡◌, refl, subst}
use mathlib.Core.Bool.{Bool, true, false}
use mathlib.Core.List.{List, [], ◌∷◌, ◌++◌, append-nil}
use mathlib.Core.Option.{Option, none, some}
use native.Mathlib.Omega.{arith}
use front_server.Common.Tests.{lt→ltb, ==_refl}
use front_server.Common.Lists.{length, length-append, All}
use front_server.Common.Strings.{Text}
use front_server.Common.Regex.{Place, sat, star, chars, run, rounds, or_else, step_sat}

-- The character before the place behind a text.
abbrev pub behind : Option ℕ → Text → Option ℕ
behind prev [] = prev
behind prev (c ∷ s) = behind (some c) s

abbrev pub place : Option ℕ → Text → List (ℕ × Text) → Place
place prev rest groups = record { prev = prev; rest = rest; groups = groups }

-- The text begins with no character that passes the test.
abbrev pub Stops : (ℕ → Bool) → Text → Type 0
Stops ok [] = Unit
Stops ok (c ∷ s) = ok c ≡ false

module _ (ok : ℕ → Bool) (groups : List (ℕ × Text)) (k : Place → Option Place) where
  rounds-stop :
      (n : ℕ) (prev : Option ℕ) (rest : Text)
      → Stops ok rest
      → rounds (run (sat ok)) n (place prev rest groups) k ≡ k (place prev rest groups)
  unfolding run rounds
  rounds-stop zero prev rest h = refl
  rounds-stop (suc n) prev [] h = refl
  rounds-stop (suc n) prev (c ∷ rest) h = rw (h, step_sat, or_else)

  rounds-sat :
      (n : ℕ) (prev : Option ℕ) (s rest : Text) {q : Place}
      → All (λ c. ok c ≡ true) s
      → length s ≤ n
      → Stops ok rest
      → k (place (behind prev s) rest groups) ≡ some q
      → rounds (run (sat ok)) n (place prev (s ++ rest) groups) k ≡ some q
  unfolding run rounds
  rounds-sat n prev [] rest h fits stop e = rw (rounds-stop n prev rest stop) e
  rounds-sat zero prev (c ∷ s) rest h fits stop e = absurd (omega arith)
  rounds-sat (suc n) prev (c ∷ s) rest h fits stop e = rw (
    h.0,
    step_sat,
    lt→ltb (length (s ++ rest)) (suc (length (s ++ rest))) (omega arith),
    rounds-sat n (some c) s rest h.1 (omega arith) stop e,
    or_else,
  )

  rounds-none :
      (n : ℕ) (prev : Option ℕ) (s : Text)
      → All (λ c. ok c ≡ true) s
      → ((prev' : Option ℕ) (t : Text) → All (λ c. ok c ≡ true) t → k (place prev' t groups) ≡ none)
      → rounds (run (sat ok)) n (place prev s groups) k ≡ none
  unfolding run rounds
  rounds-none zero prev s h fails = fails prev s h
  rounds-none (suc n) prev [] h fails = fails prev [] h
  rounds-none (suc n) prev (c ∷ s) h fails = rw (
    h.0,
    step_sat,
    lt→ltb (length s) (suc (length s)) (omega arith),
    rounds-none n (some c) s h.1 fails,
    or_else,
    fails prev (c ∷ s) h,
  )

  -- A loop that takes all the characters that pass, and from there on succeeds.
  pub run-star_sat :
      (prev : Option ℕ) (s rest : Text) {q : Place}
      → All (λ c. ok c ≡ true) s
      → Stops ok rest
      → k (place (behind prev s) rest groups) ≡ some q
      → run (star (sat ok)) (place prev (s ++ rest) groups) k ≡ some q
  unfolding run
  run-star_sat prev s rest h stop e =
      rounds-sat (length (s ++ rest)) prev s rest h (omega (arith, length-append s rest)) stop e

  -- A loop over characters that all pass, from where nothing succeeds.
  pub run-star_none :
      (prev : Option ℕ) (s : Text)
      → All (λ c. ok c ≡ true) s
      → ((prev' : Option ℕ) (t : Text) → All (λ c. ok c ≡ true) t → k (place prev' t groups) ≡ none)
      → run (star (sat ok)) (place prev s groups) k ≡ none
  unfolding run
  run-star_none prev s h fails = rounds-none (length s) prev s h fails

  pub run-sat :
      (prev : Option ℕ) (c : ℕ) (s : Text)
      → ok c ≡ true
      → run (sat ok) (place prev (c ∷ s) groups) k ≡ k (place (some c) s groups)
  unfolding run
  run-sat prev c s h = rw (h, step_sat)

  pub run-sat_fails :
      (prev : Option ℕ) (c : ℕ) (s : Text)
      → ok c ≡ false
      → run (sat ok) (place prev (c ∷ s) groups) k ≡ none
  unfolding run
  run-sat_fails prev c s h = rw (h, step_sat)

  -- A loop that takes all that is left.
  pub run-star_every :
      (prev : Option ℕ) (s : Text) {q : Place}
      → All (λ c. ok c ≡ true) s
      → k (place (behind prev s) [] groups) ≡ some q
      → run (star (sat ok)) (place prev s groups) k ≡ some q
  run-star_every prev s {q} h e =
      subst (λ (t : Text). run (star (sat ok)) (place prev t groups) k ≡ some q) (append-nil s)
        (run-star_sat prev s [] h tt e)

-- A literal at its own text.
pub run-chars :
    (s rest : Text) (prev : Option ℕ) (groups : List (ℕ × Text)) (k : Place → Option Place)
    → run (chars s) (place prev (s ++ rest) groups) k ≡ k (place (behind prev s) rest groups)
unfolding run chars
run-chars [] rest prev groups k = refl
run-chars (c ∷ s) rest prev groups k = rw (==_refl c, step_sat) (run-chars s rest (some c) groups k)
