-- ===== src/Include/Line/Shows.antt =====
-- The operations of the include states on a stack of scopes held by value.
use mathlib.Core.List.{concat-ne-nil}
use mathlib.Core.Path.{subst}
use front_server.Common.{
  ℕ, zero, suc, ◌<◌, ◌≡◌, refl, ap, sym, ◌∙◌, some, List, [], ◌∷◌, ◌++◌, arith, length,
  length-append, length-set, get_elem?, get_elem?-append, set,
}
use front_server.Include.{
  ScopedIncludeState, IncludeState, push, pop, top, set_top, last, plain, enter_line,
}
use front_server.Include.Scopes.{pop-append}

-- The positions below `bound` on the stack lead to the scopes, and ascend.
abbrev pub LeadsTo : List ScopedIncludeState → ℕ → List ℕ → List ScopedIncludeState → Type 0
LeadsTo scopes bound stack [] = stack ≡ []
LeadsTo scopes bound stack (scope ∷ below) =
    (front : List ℕ) × (id : ℕ) × (stack ≡ front ++ id ∷ [])
    × (id < bound)
    × (get_elem? scopes id ≡ some scope)
    × LeadsTo scopes id front below

LeadsTo-frame :
    (ss ss' : List ScopedIncludeState) (bound bound' : ℕ) (stack : List ℕ)
    (view : List ScopedIncludeState)
    → bound < suc bound'
    → ((j : ℕ) → j < bound → get_elem? ss' j ≡ get_elem? ss j)
    → LeadsTo ss bound stack view
    → LeadsTo ss' bound' stack view
LeadsTo-frame ss ss' b b' stack [] l same h = h
LeadsTo-frame ss ss' b b' stack (scope ∷ view) l same (front, id, e, lt, here, below) = (
  front,
  id,
  e,
  omega arith,
  same id lt ∙ here,
  LeadsTo-frame ss ss' id id front view (omega arith) (λ j k. same j (omega arith)) below,
)

get_elem?-append_left {ℓ} :
    {A : Type ℓ} (xs ys : List A) (j : ℕ) → j < length xs → get_elem? (xs ++ ys) j ≡ get_elem? xs j
get_elem?-append_left [] ys j l = absurd (omega arith)
get_elem?-append_left (x ∷ xs) ys zero l = refl
get_elem?-append_left (x ∷ xs) ys (suc j) l = get_elem?-append_left xs ys j (omega arith)

get_elem?-set_other {ℓ} :
    {A : Type ℓ} (xs : List A) (i j : ℕ) (v : A) → j < i → get_elem? (set xs i v) j ≡ get_elem? xs j
get_elem?-set_other [] i j v l = refl
get_elem?-set_other (x ∷ xs) zero j v l = absurd (omega arith)
get_elem?-set_other (x ∷ xs) (suc i) zero v l = refl
get_elem?-set_other (x ∷ xs) (suc i) (suc j) v l = get_elem?-set_other xs i j v (omega arith)

get_elem?-set_here {ℓ} :
    {A : Type ℓ} (xs : List A) (i : ℕ) (v : A) {x : A}
    → get_elem? xs i ≡ some x
    → get_elem? (set xs i v) i ≡ some v
get_elem?-set_here [] i v e = cc
get_elem?-set_here (x ∷ xs) zero v e = refl
get_elem?-set_here (x ∷ xs) (suc i) v e = get_elem?-set_here xs i v e

last-append {ℓ} : {A : Type ℓ} (xs : List A) (x : A) → last (xs ++ x ∷ []) ≡ some x
last-append [] x = refl
last-append (y ∷ []) x = refl
last-append (y ∷ z ∷ xs) x = last-append (z ∷ xs) x

-- The state shows the scopes.
abbrev pub Shows : IncludeState → List ScopedIncludeState → Type 0
Shows s view = LeadsTo s.all (length s.all) s.stack view

pub push-Shows :
    (scope : ScopedIncludeState) (s : IncludeState) (view : List ScopedIncludeState)
    → Shows s view
    → Shows (push scope s) (scope ∷ view)
unfolding push
push-Shows scope s view h = (
  s.stack,
  length s.all,
  refl,
  omega (arith, length-append s.all (scope ∷ [])),
  get_elem?-append s.all scope [],
  LeadsTo-frame s.all (s.all ++ scope ∷ []) (length s.all) (length s.all) s.stack view (omega arith)
      (get_elem?-append_left s.all (scope ∷ [])) h,
)

pub pop-Shows :
    (s : IncludeState) (scope : ScopedIncludeState) (view : List ScopedIncludeState)
    → Shows s (scope ∷ view)
    → (s' : IncludeState) × (pop s ≡ some s') × Shows s' view
pop-Shows s scope view (front, id, e, lt, here, below) = (
  record { stack = front; all = s.all },
  pop-append s.stack front id s.all e,
  LeadsTo-frame s.all s.all id (length s.all) front view (omega arith) (λ j k. refl) below,
)

pub top-Shows :
    (s : IncludeState) (scope : ScopedIncludeState) (view : List ScopedIncludeState)
    → Shows s (scope ∷ view)
    → top s ≡ some scope
unfolding top
top-Shows s scope view (front, id, e, lt, here, below) =
    let found : last s.stack ≡ some id = ap last e ∙ last-append front id in rw (top, found) here

pub set_top-Shows :
    (s : IncludeState) (scope new : ScopedIncludeState) (view : List ScopedIncludeState)
    → Shows s (scope ∷ view)
    → Shows (set_top new s) (new ∷ view)
unfolding set_top
set_top-Shows s scope new view (front, id, e, lt, here, below) =
    let found : last s.stack ≡ some id = ap last e ∙ last-append front id in
    let changed : set_top new s ≡ record s { all = set s.all id new } = rw (set_top, found) refl in
    subst (λ (t : IncludeState). Shows t (new ∷ view)) (sym changed)
      (
        front,
        id,
        e,
        omega (arith, lt, length-set s.all id new),
        get_elem?-set_here s.all id new here,
        LeadsTo-frame s.all (set s.all id new) id id front view (omega arith)
            (λ j k. get_elem?-set_other s.all id j new k) below,
      )

pub enter_line-plain :
    (stack : List ℕ) (scopes : List ScopedIncludeState) (front : List ℕ) (id : ℕ)
    → stack ≡ front ++ id ∷ []
    → enter_line plain (record { stack = stack; all = scopes })
      ≡ some (record { stack = stack; all = scopes })
unfolding enter_line
enter_line-plain [] scopes front id e = absurd (concat-ne-nil id front (sym e))
enter_line-plain (x ∷ xs) scopes front id e = refl
