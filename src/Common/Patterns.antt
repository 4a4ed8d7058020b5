-- ===== src/Common/Patterns.antt =====
-- Further shapes of patterns, and the functions of Python's `re` that go over all matches.
use Prim.Native.String.{String}
use Prim.Native.Nat.{ℕ, zero, suc, ◌-◌}
use mathlib.Core.Bool.{Bool, true, false, ◌&&◌, ◌||◌}
use mathlib.Core.List.{List, [], ◌∷◌}
use mathlib.Core.Option.{Option, none, some}
use front_server.Common.Tests.{ltb, leb}
use front_server.Common.Lists.{length}
use front_server.Common.Strings.{Text, codes, text_eq, lower, split_on}
use front_server.Common.Regex.{Regex, eps, sat, seq, run, substitute, in_set}

abbrev pub in_range : ℕ → ℕ → ℕ → Bool
in_range a b c = leb a c && leb c b

-- \d
unfoldable pub digit : Regex
digit = sat (in_range b'0' b'9')

-- [A-Z0-9] and the other characters given
unfoldable pub upper_or : String → Regex
unfolding in_set codes
upper_or s = sat (λ c. in_range b'A' b'Z' c || in_set (codes s) c)

-- [a-zA-Z] and the other characters given
unfoldable pub letter_or : String → Regex
unfolding in_set codes
letter_or s = sat (λ c. in_range b'A' b'Z' c || in_range b'a' b'z' c || in_set (codes s) c)

chars_any_case : Text → Regex
unfolding lower text_eq
chars_any_case [] = eps
chars_any_case (a ∷ s) =
    seq (sat (λ c. text_eq (lower (c ∷ [])) (lower (a ∷ [])))) (chars_any_case s)

-- A text in letters of either case.
unfoldable pub any_case : String → Regex
unfolding chars_any_case codes
any_case s = chars_any_case (codes s)

-- The loop of `r.finditer(s)`: the groups of each match, for a pattern that matches no empty text.
-- `skip` characters belong to the last match.
iterate_from : Regex → ℕ → Option ℕ → Text → List (List (ℕ × Text))
unfolding run
iterate_from r skip prev [] = []
iterate_from r (suc skip) prev (c ∷ s) = iterate_from r skip (some c) s
iterate_from r zero prev (c ∷ s) =
    elim (run r (record { prev = prev; rest = c ∷ s; groups = [] }) some) [
      | none ↦ iterate_from r 0 (some c) s
      | some q ↦ elim (ltb (length q.rest) (suc (length s))) [
        | true ↦ q.groups ∷ iterate_from r (length s - length q.rest) (some c) s
        | false ↦ iterate_from r 0 (some c) s
      ]
    ]

-- `r.finditer(s)`
unfoldable pub iterate : Regex → Text → List (List (ℕ × Text))
unfolding iterate_from
iterate r s = iterate_from r 0 none s

-- `len(r.findall(s))`
unfoldable pub count_matches : Regex → Text → ℕ
unfolding iterate
count_matches r s = length (iterate r s)

-- No character has this code.
abbrev cut : ℕ
cut = 1114112

-- `r.split(s)`, for a pattern that matches no empty text
unfoldable pub split_by : Regex → Text → List Text
unfolding substitute split_on
split_by r s = split_on cut (substitute r (cut ∷ []) s)

-- Unfolding this unfolds the functions of this module, for a run at a concrete text.
unfoldable pub shape_run : Unit {0}
unfolding digit upper_or letter_or any_case iterate count_matches split_by
shape_run = tt
