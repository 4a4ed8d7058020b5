-- ===== src/Include/Order.antt =====
-- The order of the sections, over all the includes of a scope.
use front_server.Common.{
  ℕ, ◌≤◌, ◌≡◌, ◌⊎◌, Bool, true, false, ◌&&◌, Option, none, some, List, [], ◌∷◌, leb, arith, Text,
}
use front_server.Include.{
  HeaderType, c_sys, cpp_sys, likely_my, possible_my, ScopedIncludeState, next_section,
  check_next_include_order,
}

-- The section never moves back nor past the last one, and a header out of order leaves it alone.
pub check_next_include_order-section :
    (t : HeaderType) (s : ScopedIncludeState)
    → s.section ≤ 4
    → let r = check_next_include_order t s in
      (s.section ≤ r.0.section) × (r.0.section ≤ 4) × ((r.1 ≡ none) ⊎ (r.0.section ≡ s.section))
unfolding check_next_include_order next_section
check_next_include_order-section c_sys s h = ground arith
check_next_include_order-section _ s h = ground arith

-- The messages of the calls for one header after another.
abbrev pub messages : List HeaderType → ScopedIncludeState → List (Option Text)
messages [] s = []
messages (t ∷ ts) s = let r = check_next_include_order t s in r.1 ∷ messages ts r.0

abbrev pub accepts : List (Option Text) → Bool
accepts [] = true
accepts (none ∷ ms) = accepts ms
accepts (some _ ∷ ms) = false

-- Where a header belongs once a header that is not the file's own has been seen.
abbrev pub weight : HeaderType → ℕ
weight c_sys = 2
weight cpp_sys = 3
weight _ = 4

abbrev is_own : HeaderType → Bool
is_own likely_my = true
is_own possible_my = true
is_own _ = false

abbrev pub ascends : ℕ → List HeaderType → Bool
ascends n [] = true
ascends n (t ∷ ts) = leb n (weight t) && ascends (weight t) ts

-- The file's own headers first, in any number, then headers of ascending weight.
abbrev pub in_order : List HeaderType → Bool
in_order [] = true
in_order (likely_my ∷ ts) = in_order ts
in_order (possible_my ∷ ts) = in_order ts
in_order (t ∷ ts) = ascends (weight t) ts
