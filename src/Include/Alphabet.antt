-- ===== src/Include/Alphabet.antt =====
-- The alphabetical order that `CheckIncludeAlphabeticalOrder` asks of the includes of a scope.
use front_server.Common.{
  ℕ, ◌+◌, ◌≡◌, refl, sym, ◌∙◌, ◌↔◌, Bool, true, false, not, ◌&&◌, none, some, List, [], ◌∷◌, arith,
  All, Text, text_lt, text_run,
}
use front_server.Include.{
  ScopedIncludeState, init_scope, canonicalize_alphabetical_order, has_dir,
  check_include_alphabetical_order,
}

abbrev canonical : Text → Text
canonical = canonicalize_alphabetical_order

-- The headers of includes on lines one after another, the first with number `n`, are accepted.
abbrev pub accepts_all : List Text → ℕ → ScopedIncludeState → Bool
accepts_all [] n s = true
accepts_all (h ∷ hs) n s =
    let r = check_include_alphabetical_order h n s in
    let rest = accepts_all hs (n + 1) r.0 in elim r.1 [ none ↦ rest | some _ ↦ false ]

-- Each header and its canonical form have a directory.
abbrev pub HaveDirs : List Text → Type 0
HaveDirs = All (λ h. (has_dir h ≡ true) × (has_dir (canonicalize_alphabetical_order h) ≡ true))

-- No canonical form comes before that of an earlier header.
abbrev pub IsAscending : List Text → Type 0
IsAscending [] = Unit
IsAscending (h ∷ hs) =
    All
      (λ g. text_lt (canonicalize_alphabetical_order g) (canonicalize_alphabetical_order h) ≡ false)
      hs
    × IsAscending hs

text_lt_trans : (a b c : Text) → text_lt b a ≡ false → text_lt c b ≡ false → text_lt c a ≡ false
unfolding text_lt
text_lt_trans [] b c p q = refl
text_lt_trans (x ∷ a) [] c p q = absurd (ground arith)
text_lt_trans (x ∷ a) (y ∷ b) [] p q = absurd (ground arith)
text_lt_trans (x ∷ a) (y ∷ b) (z ∷ c) p q = ground (arith, text_lt_trans a b c)

-- Not before the last header.
abbrev steps : Text → List Text → Bool
steps last [] = true
steps last (h ∷ hs) = not (text_lt (canonical h) last) && steps (canonical h) hs

abbrev seen : ScopedIncludeState → Text → ℕ → ScopedIncludeState
seen s h n = record s { last_header = canonical h; last_line = n }

accepts_all-steps :
    (hs : List Text) (n : ℕ) (s : ScopedIncludeState)
    → HaveDirs hs
    → has_dir s.last_header ≡ true
    → n ≡ s.last_line + 1
    → accepts_all hs n s ≡ steps s.last_header hs
unfolding check_include_alphabetical_order
accepts_all-steps [] n s h d e = refl
accepts_all-steps (x ∷ hs) n s h d e =
    ground (arith, d, h.0, accepts_all-steps hs (n + 1) (seen s x n) h.1 h.0.1 refl)

abbrev NotBefore : Text → List Text → Type 0
NotBefore last = All (λ g. text_lt (canonicalize_alphabetical_order g) last ≡ false)

NotBefore-trans :
    (last next : Text) (hs : List Text)
    → text_lt next last ≡ false
    → NotBefore next hs
    → NotBefore last hs
NotBefore-trans last next [] e h = tt
NotBefore-trans last next (x ∷ hs) e h =
    (text_lt_trans last next (canonical x) e h.0, NotBefore-trans last next hs e h.1)

steps_iff :
    (last : Text) (hs : List Text) → (steps last hs ≡ true) ↔ (NotBefore last hs × IsAscending hs)
steps_iff last [] = (λ e. (tt, tt), λ h. refl)
steps_iff last (x ∷ hs) =
    let (to, from) = steps_iff (canonical x) hs in
    (
      λ e.
          let first : text_lt (canonical x) last ≡ false = ground arith in
          let (later, ascends) = to (ground arith) in
          ((first, NotBefore-trans last (canonical x) hs first later), (later, ascends)),
      λ ((first, _), (later, ascends)). rw first (from (later, ascends)),
    )

no_dir : has_dir [] ≡ false
unfolding text_run
no_dir = refl

accepts_all-first :
    (x : Text) (hs : List Text) (n : ℕ)
    → HaveDirs (x ∷ hs)
    → accepts_all (x ∷ hs) n init_scope ≡ steps (canonical x) hs
unfolding check_include_alphabetical_order init_scope
accepts_all-first x hs n h =
    ground (arith, h.0, no_dir, accepts_all-steps hs (n + 1) (seen init_scope x n) h.1 h.0.1 refl)

-- In a new scope, `CheckIncludeAlphabeticalOrder` accepts the headers of includes on lines one
-- after another exactly if no canonical form comes before that of an earlier header, also of one
-- that is not next to it. Each header and its canonical form are taken to have a directory.
pub check_include_alphabetical_order-IsAscending :
    (headers : List Text) (n : ℕ)
    → HaveDirs headers
    → (accepts_all headers n init_scope ≡ true) ↔ IsAscending headers
check_include_alphabetical_order-IsAscending [] n h = (λ e. tt, λ u. refl)
check_include_alphabetical_order-IsAscending (x ∷ hs) n h =
    let (to, from) = steps_iff (canonical x) hs in
    let e = accepts_all-first x hs n h in
    (λ accepted. to (sym e ∙ accepted), λ ascends. e ∙ from ascends)
