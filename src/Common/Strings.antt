-- ===== src/Common/Strings.antt =====
-- Python's strings as lists of code points, with the string methods that the linter calls.
use Prim.Native.Char.{code}
use Prim.Native.String.{String}
use Prim.Native.Nat.{ℕ, zero, suc, ◌+◌, ◌-◌, ◌/◌, ◌%◌}
use mathlib.Core.Path.{◌≡◌, refl}
use mathlib.Core.Logic.{◌↔◌}
use mathlib.Core.Bool.{Bool, true, false, ◌&&◌, ◌||◌}
use mathlib.Core.List.{List, [], ◌∷◌, ◌++◌, map, reverse}
use mathlib.Core.Option.{Option, none, some}
use native.Mathlib.Omega.{arith}
use front_server.Common.Tests.{ltb, leb, ◌==◌, if◌then◌else◌}
use front_server.Common.Lists.{length, any}

abbrev pub Text : Type 0
Text = List ℕ

-- The code points of a literal.
unfoldable pub codes : String → Text
codes String.[] = []
codes (String.◌∷◌ c s) = code c ∷ codes s

-- `s == t`
unfoldable pub text_eq : Text → Text → Bool
text_eq [] [] = true
text_eq (a ∷ s) (b ∷ t) = a == b && text_eq s t
text_eq _ _ = false

pub text_eq_iff : (s t : Text) → (text_eq s t ≡ true) ↔ (s ≡ t)
unfolding text_eq
text_eq_iff (a ∷ s) (b ∷ t) = ground (arith, text_eq_iff s t)
text_eq_iff _ _ = ground arith

pub text_eq_refl : (s : Text) → text_eq s s ≡ true
text_eq_refl s = (text_eq_iff s s).1 refl

-- `s in (t, u, ...)`
abbrev pub one_of : List Text → Text → Bool
one_of ts s = any (text_eq s) ts

-- `s < t`
unfoldable pub text_lt : Text → Text → Bool
text_lt _ [] = false
text_lt [] (b ∷ t) = true
text_lt (a ∷ s) (b ∷ t) = ltb a b || (a == b && text_lt s t)

-- `s.startswith(t)`
unfoldable pub starts_with : Text → Text → Bool
starts_with _ [] = true
starts_with [] (b ∷ t) = false
starts_with (a ∷ s) (b ∷ t) = a == b && starts_with s t

-- `s.endswith(t)`
unfoldable pub ends_with : Text → Text → Bool
unfolding starts_with
ends_with s t = starts_with (reverse s) (reverse t)

-- `s.find(t)`, with `none` for -1
unfoldable pub find : Text → Text → Option ℕ
unfolding starts_with
find [] t = if starts_with [] t then some 0 else none
find (a ∷ s) t =
    let rest = find s t in
    if starts_with (a ∷ s) t then some 0 else elim rest [ none ↦ none | some i ↦ some (suc i) ]

-- `t in s`
unfoldable pub contains : Text → Text → Bool
unfolding find
contains s t = elim (find s t) [ none ↦ false | some _ ↦ true ]

-- `s.count(c)` for one character
unfoldable pub count : ℕ → Text → ℕ
count c [] = 0
count c (a ∷ s) = (if a == c then 1 else 0) + count c s

-- The loop of `s.replace(old, new)` for a nonempty `old`; `skip` characters are still covered
-- by the last replacement.
replace_from : Text → Text → ℕ → Text → Text
unfolding starts_with
replace_from old new skip [] = []
replace_from old new (suc skip) (a ∷ s) = replace_from old new skip s
replace_from old new zero (a ∷ s) =
    let here = new ++ replace_from old new (length old - 1) s in
    let later = a ∷ replace_from old new 0 s in if starts_with (a ∷ s) old then here else later

unfoldable pub replace : Text → Text → Text → Text
unfolding replace_from
replace old new s = replace_from old new 0 s

-- `s.count(t)` for a nonempty `t`: occurrences that do not overlap, from the left
count_from : Text → ℕ → Text → ℕ
unfolding starts_with
count_from t skip [] = 0
count_from t (suc skip) (a ∷ s) = count_from t skip s
count_from t zero (a ∷ s) =
    let here = suc (count_from t (length t - 1) s) in
    let later = count_from t 0 s in if starts_with (a ∷ s) t then here else later

unfoldable pub count_text : Text → Text → ℕ
unfolding count_from
count_text t s = count_from t 0 s

-- What `strip`, `split` and `isspace` take for white space (the ASCII part).
unfoldable pub is_space : ℕ → Bool
is_space c = c == 32 || (leb 9 c && leb c 13)

-- `s.lstrip()`
unfoldable pub lstrip : Text → Text
unfolding is_space
lstrip [] = []
lstrip (a ∷ s) = let rest = lstrip s in if is_space a then rest else a ∷ s

-- `s.rstrip()`
unfoldable pub rstrip : Text → Text
unfolding lstrip
rstrip s = reverse (lstrip (reverse s))

-- `s.strip()`
unfoldable pub strip : Text → Text
unfolding rstrip lstrip
strip s = rstrip (lstrip s)

-- `s.lstrip(c)` for one character
unfoldable pub lstrip_char : ℕ → Text → Text
lstrip_char c [] = []
lstrip_char c (a ∷ s) = let rest = lstrip_char c s in if a == c then rest else a ∷ s

-- `s.rstrip(c)` for one character
unfoldable pub rstrip_char : ℕ → Text → Text
unfolding lstrip_char
rstrip_char c s = reverse (lstrip_char c (reverse s))

-- `s.split(c)` for one character
unfoldable pub split_on : ℕ → Text → List Text
split_on c [] = [] ∷ []
split_on c (a ∷ s) =
    let rest = split_on c s in
    if a == c then [] ∷ rest else elim rest [ [] ↦ (a ∷ []) ∷ [] | w ∷ ws ↦ (a ∷ w) ∷ ws ]

-- `s.split()`: the words between white space. The flag says that a word is being read.
words_from : Bool → Text → List Text
unfolding is_space
words_from inside [] = if inside then [] ∷ [] else []
words_from inside (a ∷ s) =
    let ended = words_from false s in
    let more = words_from true s in
    if is_space a
    then (if inside then [] ∷ ended else ended)
    else elim more [ [] ↦ (a ∷ []) ∷ [] | w ∷ ws ↦ (a ∷ w) ∷ ws ]

unfoldable pub words : Text → List Text
unfolding words_from
words s = words_from false s

-- `s.lower()` on ASCII
unfoldable pub lower : Text → Text
lower = map (λ c. if leb b'A' c && leb c b'Z' then c + 32 else c)

-- `'%d' % n`
digits_from : ℕ → ℕ → Text → Text
digits_from zero n acc = acc
digits_from (suc fuel) n acc =
    let rest = digits_from fuel (n / 10) ((b'0' + n % 10) ∷ acc) in
    if ltb n 10 then (b'0' + n) ∷ acc else rest

unfoldable pub show : ℕ → Text
unfolding digits_from
show n = digits_from (suc n) n []

-- Unfolding this unfolds the functions of this module, for a run at a concrete text.
unfoldable pub text_run : Unit {0}
unfolding codes text_eq text_lt starts_with ends_with find contains count replace count_text lstrip
    rstrip strip lstrip_char rstrip_char split_on words lower show
text_run = tt
