-- ===== src/Common/Regex.antt =====
-- Python's regular expressions, as far as the linter uses them: a backtracking matcher.
pub mod Laws
use Prim.Native.String.{String}
use Prim.Native.Nat.{ℕ, zero, suc, ◌-◌}
use mathlib.Core.Bool.{Bool, true, false, not, ◌&&◌, ◌||◌}
use mathlib.Core.List.{List, [], ◌∷◌, ◌++◌}
use mathlib.Core.Option.{Option, none, some}
use front_server.Common.Tests.{ltb, leb, ◌==◌, if◌then◌else◌}
use front_server.Common.Lists.{length, take}
use front_server.Common.Strings.{Text, codes, is_space}

pub data Regex : Type 0 where
  eps : Regex
  sat : (ℕ → Bool) → Regex
  seq : Regex → Regex → Regex
  alt : Regex → Regex → Regex
  star : Regex → Regex
  group : ℕ → Regex → Regex
  bol eol boundary : Regex
  ahead : Bool → Regex → Regex
  back : ℕ → Regex

-- A place in the text: the character before it, what is left, and the groups matched so far,
-- the latest first.
pub record Place : Type 0 where
  pub prev : Option ℕ
  pub rest : Text
  pub groups : List (ℕ × Text)

-- \w
unfoldable pub is_word : ℕ → Bool
is_word c =
    (leb b'a' c && leb c b'z')
    || (leb b'A' c && leb c b'Z')
    || (leb b'0' c && leb c b'9')
    || c == b'_'

prev_word : Option ℕ → Bool
unfolding is_word
prev_word none = false
prev_word (some c) = is_word c

next_word : Text → Bool
unfolding is_word
next_word [] = false
next_word (c ∷ _) = is_word c

-- `$` holds at the end, and before a newline that ends the text.
at_end : Text → Bool
at_end [] = true
at_end (c ∷ []) = c == 10
at_end (_ ∷ _ ∷ _) = false

unfoldable pub last_group : ℕ → List (ℕ × Text) → Option Text
last_group n [] = none
last_group n ((k, t) ∷ gs) = if k == n then some t else last_group n gs

abbrev Cont : Type 0
Cont = Place → Option Place

step_sat : (ℕ → Bool) → List (ℕ × Text) → Text → Cont → Option Place
step_sat ok gs [] k = none
step_sat ok gs (c ∷ s) k = elim (ok c) [
  | true ↦ k (record { prev = some c; rest = s; groups = gs })
  | false ↦ none
]

check : Bool → Place → Cont → Option Place
check b p k = elim b [ true ↦ k p | false ↦ none ]

or_else : Option Place → (Unit {0} → Option Place) → Option Place
or_else (some q) other = some q
or_else none other = other tt

-- A greedy loop: one more round, if it consumes something, and else what follows.
rounds : (Place → Cont → Option Place) → ℕ → Place → Cont → Option Place
unfolding or_else
rounds body zero p k = k p
rounds body (suc n) p k =
    or_else
      (body p (λ q. elim (ltb (length q.rest) (length p.rest)) [
        | true ↦ rounds body n q k
        | false ↦ none
      ]))
      (λ _. k p)

looked : Bool → Option Place → Place → Cont → Option Place
looked true (some q) p k = k p
looked true none p k = none
looked false (some q) p k = none
looked false none p k = k p

-- A text that stands at the place.
step_text : Text → Place → Cont → Option Place
step_text [] p k = k p
step_text (a ∷ t) p k = elim p.rest [
  | [] ↦ none
  | c ∷ s ↦ elim (c == a) [
    | true ↦ step_text t (record { prev = some c; rest = s; groups = p.groups }) k
    | false ↦ none
  ]
]

-- The first match, in the order of Python's `re`, of `r` at `p` that `k` goes on from. A round of
-- a loop consumes a character, so the length of the rest is enough fuel.
unfoldable pub run : Regex → Place → Cont → Option Place
unfolding prev_word next_word at_end step_sat check or_else rounds looked last_group step_text
run eps p k = k p
run (sat ok) p k = step_sat ok p.groups p.rest k
run (seq r s) p k = run r p (λ q. run s q k)
run (alt r s) p k = or_else (run r p k) (λ _. run s p k)
run (star r) p k = rounds (run r) (length p.rest) p k
run (group n r) p k =
    run r p
      (λ q. k (record q { groups = (n, take (length p.rest - length q.rest) p.rest) ∷ q.groups }))
run bol p k = check (elim p.prev [ none ↦ true | some _ ↦ false ]) p k
run eol p k = check (at_end p.rest) p k
run boundary p k =
    check (elim (prev_word p.prev) [ true ↦ not (next_word p.rest) | false ↦ next_word p.rest ]) p k
run (ahead positive r) p k = looked positive (run r p some) p k
run (back n) p k = elim (last_group n p.groups) [ none ↦ none | some t ↦ step_text t p k ]

-- A match: the text before it, the text of it, the text after it, and its groups.
pub record Found : Type 0 where
  pub before : Text
  pub matched : Text
  pub after : Text
  pub groups : List (ℕ × Text)

found : Text → Text → Option Place → Option Found
found before here none = none
found before here (some q) = some (record {
  before = before;
  matched = take (length here - length q.rest) here;
  after = q.rest;
  groups = q.groups;
})

-- `re.match(r, s)`
unfoldable pub match : Regex → Text → Option Found
unfolding run found
match r s = found [] s (run r (record { prev = none; rest = s; groups = [] }) some)

search_from : Regex → Option ℕ → Text → Text → Option Found
unfolding run found
search_from r prev before [] =
    found before [] (run r (record { prev = prev; rest = []; groups = [] }) some)
search_from r prev before (c ∷ s) =
    elim (found before (c ∷ s) (run r (record { prev = prev; rest = c ∷ s; groups = [] }) some)) [
      | some m ↦ some m
      | none ↦ search_from r (some c) (before ++ c ∷ []) s
    ]

-- `re.search(r, s)`
unfoldable pub search : Regex → Text → Option Found
unfolding search_from
search r s = search_from r none [] s

abbrev pub is_some {ℓ} : {A : Type ℓ} → Option A → Bool
is_some none = false
is_some (some _) = true

abbrev pub matches : Regex → Text → Bool
matches r s = is_some (match r s)

abbrev pub finds : Regex → Text → Bool
finds r s = is_some (search r s)

-- `m.group(n)`, with `none` for a group that took no part
unfoldable pub group_of : ℕ → Found → Option Text
unfolding last_group
group_of n m = last_group n m.groups

-- The loop of `r.sub(new, s)`: a match that consumes nothing leaves the text alone, which no
-- pattern of the linter's substitutions has. `skip` characters belong to the last match.
sub_from : Regex → Text → ℕ → Option ℕ → Text → Text
unfolding run
sub_from r new skip prev [] = []
sub_from r new (suc skip) prev (c ∷ s) = sub_from r new skip (some c) s
sub_from r new zero prev (c ∷ s) =
    elim (run r (record { prev = prev; rest = c ∷ s; groups = [] }) some) [
      | none ↦ c ∷ sub_from r new 0 (some c) s
      | some q ↦ elim (ltb (length q.rest) (suc (length s))) [
        | true ↦ new ++ sub_from r new (length s - length q.rest) (some c) s
        | false ↦ c ∷ sub_from r new 0 (some c) s
      ]
    ]

-- `r.sub(new, s)`
unfoldable pub substitute : Regex → Text → Text → Text
unfolding sub_from
substitute r new s = sub_from r new 0 none s

-- Shapes that patterns are built from.
unfoldable pub chars : Text → Regex
chars [] = eps
chars (c ∷ s) = seq (sat (λ a. a == c)) (chars s)

unfoldable pub lit : String → Regex
unfolding chars codes
lit s = chars (codes s)

unfoldable pub in_set : Text → ℕ → Bool
in_set [] c = false
in_set (a ∷ s) c = c == a || in_set s c

unfoldable pub one_in : String → Regex
unfolding in_set codes
one_in s = sat (in_set (codes s))

unfoldable pub none_in : String → Regex
unfolding in_set codes
none_in s = sat (λ c. not (in_set (codes s) c))

unfoldable pub optional : Regex → Regex
optional r = alt r eps

unfoldable pub plus : Regex → Regex
plus r = seq r (star r)

unfoldable pub space : Regex
unfolding is_space
space = sat is_space

unfoldable pub word : Regex
unfolding is_word
word = sat is_word

-- `.`
unfoldable pub dot : Regex
dot = sat (λ c. not (c == 10))

unfoldable pub all_of : List Regex → Regex
all_of [] = eps
all_of (r ∷ rs) = seq r (all_of rs)

unfoldable pub any_of : List Regex → Regex
any_of [] = sat (λ _. false)
any_of (r ∷ rs) = alt r (any_of rs)

-- Unfolding this unfolds the matcher and the shapes, for a run at a concrete text.
unfoldable pub regex_run : Unit {0}
unfolding match search group_of substitute chars lit one_in none_in optional plus space word dot
    all_of any_of
regex_run = tt
