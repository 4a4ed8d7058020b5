-- ===== src/Lint/Written.antt =====
-- The count of errors against the lines that are written.
use front_server.Common.{
  ◌+◌, ◌≡◌, Bool, true, some, [], ◌∷◌, inl, inr, arith, length, length-append, Text, Option-cases,
}
use front_server.Lint.{
  Log, Event, report, suppress, Report, Lint, CppLintState, error, apply, run_log, error_line,
  increment_error_count,
}

-- Of a quiet program: it stays quiet, and for every error that is counted one line is written.
abbrev pub Accounts : Lint → Lint → Type 0
Accounts l l' =
    l.state.quiet ≡ true
    → (l'.state.quiet ≡ true)
      × (l'.state.error_count + length l.written ≡ l.state.error_count + length l'.written)

pub Accounts-trans : (l m n : Lint) → Accounts l m → Accounts m n → Accounts l n
Accounts-trans l m n a b q =
    let (q', e) = a q in let (q'', e') = b q' in (q'', omega (arith, e, e'))

increment_error_count-quiet :
    (category : Text) (s : CppLintState)
    → ((increment_error_count category s).quiet ≡ s.quiet)
      × ((increment_error_count category s).error_count ≡ s.error_count + 1)
unfolding increment_error_count
increment_error_count-quiet category s = ground arith

pub error-Accounts :
    (tty : Bool) (filename : Text) (r : Report) (l : Lint) {l' : Lint}
    → error tty filename r l ≡ some l'
    → Accounts l l'
unfolding error
error-Accounts tty filename r l {l'} e q = ground (
  arith,
  e,
  q,
  increment_error_count-quiet r.category l.state,
  length-append l.written (error_line tty l.state.output_format filename r ∷ []),
)

apply-Accounts :
    (tty : Bool) (filename : Text) (e : Event) (l : Lint) {l' : Lint}
    → apply tty filename e l ≡ some l'
    → Accounts l l'
unfolding apply
apply-Accounts tty filename (report r) l e q = error-Accounts tty filename r l e q
apply-Accounts tty filename (suppress key linenum) l e q = ground (arith, e, q)

pub run_log-Accounts :
    (tty : Bool) (filename : Text) (log : Log) (l : Lint) {l' : Lint}
    → run_log tty filename log l ≡ some l'
    → Accounts l l'
unfolding run_log
run_log-Accounts tty filename [] l e q = ground (arith, e, q)
run_log-Accounts tty filename (x ∷ log) l {l'} e q = elim (Option-cases (apply tty filename x l)) [
  | inl failed ↦ absurd (ground arith)
  | inr (m, applied) ↦
      Accounts-trans l m l' (apply-Accounts tty filename x l applied)
        (run_log-Accounts tty filename log m {l' = l'} (ground arith)) q
]
