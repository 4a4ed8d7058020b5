-- ===== src/Lint/Counts.antt =====
-- The error counters of `_CppLintState`.
use front_server.Common.{
  ℕ, ◌+◌, ◌≡◌, refl, inl, inr, Bool, true, List, [], ◌∷◌, if◌then◌else◌, Option-cases, arith, Text,
  text_eq, text_eq_iff, some,
}
use front_server.Lint.{
  CppLintState, bump, counts_categories, increment_error_count, Lint, Report, Event, report,
  suppress, Log, apply, run_log, error, count_key,
}

abbrev pub total : List (Text × ℕ) → ℕ
total [] = 0
total ((c, n) ∷ d) = n + total d

-- `d.get(category, 0)`
abbrev pub tally : Text → List (Text × ℕ) → ℕ
tally category [] = 0
tally category ((c, n) ∷ d) = if text_eq c category then n else tally category d

total-bump : (category : Text) (d : List (Text × ℕ)) → total (bump category d) ≡ total d + 1
unfolding bump
total-bump category [] = omega arith
total-bump category ((c, n) ∷ d) = ground (arith, total-bump category d)

tally-bump :
    (category other : Text) (d : List (Text × ℕ))
    → tally other (bump category d) ≡ tally other d + (if text_eq category other then 1 else 0)
unfolding bump
tally-bump category other [] = ground arith
tally-bump category other ((c, n) ∷ d) = ground (
  arith,
  tally-bump category other d,
  text_eq_iff c category,
  text_eq_iff c other,
  text_eq_iff category other,
)

-- Every error is counted under one key, as often as it is counted in all.
abbrev pub IsTallied : CppLintState → Type 0
IsTallied s = (counts_categories s.counting ≡ true) × (total s.errors_by_category ≡ s.error_count)

increment_error_count-IsTallied :
    (category : Text) (s : CppLintState)
    → IsTallied s
    → IsTallied (increment_error_count category s)
unfolding increment_error_count
increment_error_count-IsTallied category s h =
    rw h.0
      (h.0, omega (arith, h.1, total-bump (count_key s.counting category) s.errors_by_category))

error-IsTallied :
    (tty : Bool) (filename : Text) (r : Report) (l : Lint) {l' : Lint}
    → error tty filename r l ≡ some l'
    → IsTallied l.state
    → IsTallied l'.state
unfolding error
error-IsTallied tty filename r l e h =
    ground (arith, increment_error_count-IsTallied r.category l.state h)

apply-IsTallied :
    (tty : Bool) (filename : Text) (e : Event) (l : Lint) {l' : Lint}
    → apply tty filename e l ≡ some l'
    → IsTallied l.state
    → IsTallied l'.state
unfolding apply
apply-IsTallied tty filename (report r) l e h = error-IsTallied tty filename r l e h
apply-IsTallied tty filename (suppress key linenum) l e h = ground arith

-- While errors are counted by category, whatever a check reports keeps the sum of the counts by
-- category equal to the error count.
pub run_log-IsTallied :
    (tty : Bool) (filename : Text) (log : Log) (l : Lint) {l' : Lint}
    → run_log tty filename log l ≡ some l'
    → IsTallied l.state
    → IsTallied l'.state
unfolding run_log
run_log-IsTallied tty filename [] l e h = ground arith
run_log-IsTallied tty filename (x ∷ log) l {l'} e h = elim (Option-cases (apply tty filename x l)) [
  | inl failed ↦ absurd (ground arith)
  | inr (m, applied) ↦
      run_log-IsTallied tty filename log m {l' = l'} (ground arith)
        (apply-IsTallied tty filename x l applied h)
]

-- While errors are counted by category, an error adds one to the count of its own key, the whole
-- category or its part before the slash, adds nothing to that of any other key, and adds one to
-- the error count.
pub tally-increment_error_count :
    (category key : Text) (s : CppLintState)
    → counts_categories s.counting ≡ true
    → (tally key (increment_error_count category s).errors_by_category
        ≡ tally key s.errors_by_category
          + (if text_eq (count_key s.counting category) key then 1 else 0))
      × ((increment_error_count category s).error_count ≡ s.error_count + 1)
unfolding increment_error_count
tally-increment_error_count category key s h =
    rw h (tally-bump (count_key s.counting category) key s.errors_by_category, refl)
