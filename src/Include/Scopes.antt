-- ===== src/Include/Scopes.antt =====
-- The stack of scopes under conditional directives, and the union of all scopes.
use mathlib.Core.List.{concat-ne-nil}
use front_server.Common.{
  ℕ, suc, zero, ◌≡◌, refl, ap, sym, ◌∙◌, Option, none, some, List, [], ◌∷◌, ◌++◌, if◌then◌else◌,
  arith, length-append, Text, text_eq, text_eq_iff, length, Option-cases, All, inl, inr,
}
use front_server.Include.{
  ScopedIncludeState, put, get, IncludeState, push, pop, init_of, copy_entries, copy_scopes,
  get_all, LineKind, opens, splits, closes, plain, enter_line,
}

get-put :
    (key other : Text) (v : ℕ) (d : List (Text × ℕ))
    → get other (put key v d) ≡ (if text_eq key other then some v else get other d)
unfolding get put
get-put key other v [] = refl
get-put key other v ((k, w) ∷ d) =
    ground
      (arith, get-put key other v d, text_eq_iff k key, text_eq_iff k other, text_eq_iff key other)

-- A dictionary holds a key once.
abbrev pub IsDict : List (Text × ℕ) → Type 0
IsDict [] = Unit
IsDict ((k, v) ∷ d) = (get k d ≡ none) × IsDict d

put-IsDict : (key : Text) (v : ℕ) (d : List (Text × ℕ)) → IsDict d → IsDict (put key v d)
unfolding put get
put-IsDict key v [] h = (refl, tt)
put-IsDict key v ((k, w) ∷ d) h =
    ground (arith, put-IsDict key v d h.1, get-put key k v d, text_eq_iff k key, text_eq_iff key k)

-- The later of two finds.
abbrev pub later : Option ℕ → Option ℕ → Option ℕ
later first none = first
later first (some v) = some v

later-none : (o : Option ℕ) → later none o ≡ o
later-none none = refl
later-none (some v) = refl

get-copy_entries :
    (key : Text) (es d : List (Text × ℕ))
    → IsDict es
    → get key (copy_entries es d) ≡ later (get key d) (get key es)
unfolding get copy_entries
get-copy_entries key [] d h = refl
get-copy_entries key ((k, v) ∷ es) d h =
    ground (arith, get-copy_entries key es (put k v d) h.1, get-put k key v d, text_eq_iff k key)

-- What the last scope that holds the key has under it.
abbrev pub latest : Text → List ScopedIncludeState → Option ℕ
latest key [] = none
latest key (s ∷ ss) = later (get key s.entries) (latest key ss)

get-copy_scopes :
    (key : Text) (ss : List ScopedIncludeState) (d : List (Text × ℕ))
    → All (λ s. IsDict s.entries) ss
    → get key (copy_scopes ss d) ≡ later (get key d) (latest key ss)
unfolding copy_scopes
get-copy_scopes key [] d h = refl
get-copy_scopes key (s ∷ ss) d h = ground (
  arith,
  get-copy_scopes key ss (copy_entries s.entries d) h.1,
  get-copy_entries key s.entries d h.0,
)

-- `get_all` maps a header to the line of its include in the last scope that holds it, also if that
-- scope is no longer on the stack, and to nothing if no scope does.
pub get-get_all :
    (key : Text) (s : IncludeState)
    → All (λ scope. IsDict scope.entries) s.all
    → get key (get_all s) ≡ latest key s.all
unfolding get_all get
get-get_all key s h = get-copy_scopes key s.all [] h ∙ later-none (latest key s.all)

-- The scopes after the includes and conditional directives of a file, by their kinds, one by one.
abbrev pub run_lines : List LineKind → IncludeState → Option IncludeState
run_lines [] s = some s
run_lines (k ∷ ks) s = elim (enter_line k s) [ none ↦ none | some s' ↦ run_lines ks s' ]

pub init_of-append {ℓ} : {A : Type ℓ} (xs : List A) (x : A) → init_of (xs ++ x ∷ []) ≡ xs
init_of-append [] x = refl
init_of-append (y ∷ []) x = refl
init_of-append (y ∷ z ∷ xs) x = ap (◌∷◌ y) (init_of-append (z ∷ xs) x)

pub pop-append :
    (stack below : List ℕ) (id : ℕ) (scopes : List ScopedIncludeState)
    → stack ≡ below ++ id ∷ []
    → pop (record { stack = stack; all = scopes }) ≡ some (record { stack = below; all = scopes })
unfolding pop
pop-append [] below id scopes e = absurd (concat-ne-nil id below (sym e))
pop-append (x ∷ xs) below id scopes e =
    ap (λ (st : List ℕ). some (record { stack = st; all = scopes }))
      (ap init_of e ∙ init_of-append below id)

-- How many scopes are on the stack after such lines: an include opens the first scope, and to close
-- a scope where there is none is an error.
abbrev pub height : ℕ → List LineKind → Option ℕ
height n [] = some n
height n (opens ∷ ks) = height (suc n) ks
height zero (plain ∷ ks) = height 1 ks
height (suc n) (plain ∷ ks) = height (suc n) ks
height zero (_ ∷ ks) = none
height (suc n) (splits ∷ ks) = height (suc n) ks
height (suc n) (closes ∷ ks) = height n ks

length-init_of {ℓ} : {A : Type ℓ} (x : A) (xs : List A) → length (init_of (x ∷ xs)) ≡ length xs
length-init_of x [] = refl
length-init_of x (y ∷ ys) = ap suc (length-init_of y ys)

length-push :
    (scope : ScopedIncludeState) (s : IncludeState)
    → length (push scope s).stack ≡ suc (length s.stack)
unfolding push
length-push scope s = omega (arith, length-append s.stack (length s.all ∷ []))

abbrev pub depth_of : Option IncludeState → Option ℕ
depth_of none = none
depth_of (some s) = some (length s.stack)

pub depth_of-enter_line :
    (k : LineKind) (stack : List ℕ) (scopes : List ScopedIncludeState)
    → depth_of (enter_line k (record { stack = stack; all = scopes }))
      ≡ height (length stack) (k ∷ [])
unfolding enter_line pop
depth_of-enter_line opens stack scopes = ap some (length-push _ _)
depth_of-enter_line plain [] scopes = ap some (length-push _ _)
depth_of-enter_line plain (x ∷ xs) scopes = refl
depth_of-enter_line closes [] scopes = refl
depth_of-enter_line closes (x ∷ xs) scopes = ap some (length-init_of x xs)
depth_of-enter_line splits [] scopes = refl
depth_of-enter_line splits (x ∷ xs) scopes =
    ap some (length-push _ _ ∙ ap suc (length-init_of x xs))

pub height_cons :
    (n : ℕ) (k : LineKind) (ks : List LineKind)
    → height n (k ∷ ks) ≡ elim (height n (k ∷ [])) [ none ↦ none | some m ↦ height m ks ]
height_cons zero opens ks = refl
height_cons zero _ ks = refl
height_cons (suc n) opens ks = refl
height_cons (suc n) _ ks = refl

-- Such lines raise the `IndexError` of `pop` exactly where that count fails, and otherwise leave as
-- many scopes as it says.
pub depth_of-run_lines :
    (ks : List LineKind) (s : IncludeState) → depth_of (run_lines ks s) ≡ height (length s.stack) ks
depth_of-run_lines [] s = refl
depth_of-run_lines (k ∷ ks) s = elim (Option-cases (enter_line k s)) [
  | inl failed ↦
      let e : height (length s.stack) (k ∷ []) ≡ none =
        sym (depth_of-enter_line k s.stack s.all) ∙ ap depth_of failed in
      rw (failed, run_lines, height_cons (length s.stack) k ks, e)
  | inr (s', entered) ↦
      let e : height (length s.stack) (k ∷ []) ≡ some (length s'.stack) =
        sym (depth_of-enter_line k s.stack s.all) ∙ ap depth_of entered in
      rw (entered, run_lines, height_cons (length s.stack) k ks, e) (depth_of-run_lines ks s')
]
