-- ===== src/Include/Line/Depth.antt =====
-- What `CheckIncludeLine` leaves of the number of open scopes.
use front_server.Common.{
  ℕ, ◌≡◌, refl, sym, ap, ◌∙◌, some, List, [], ◌∷◌, inl, inr, Option-cases, arith, length, Text,
}
use front_server.Lint.{Log}
use front_server.Include.{
  ScopedIncludeState, IncludeState, LineKind, opens, splits, closes, plain, line_kind, enter_line,
  last, top, set_top,
}
use front_server.Include.Scopes.{height, depth_of, depth_of-enter_line}
use front_server.Include.Line.{check_in_scope, check_include_line, check_plain}

set_top-stack : (scope : ScopedIncludeState) (s : IncludeState) → (set_top scope s).stack ≡ s.stack
unfolding set_top
set_top-stack scope s = elim (Option-cases (last s.stack)) [
  | inl missing ↦ rw (set_top, missing) refl
  | inr (i, found) ↦ rw (set_top, found) refl
]

check_in_scope-stack :
    (k : LineKind) (repository_name filename line : Text) (linenum : ℕ) (s : IncludeState)
    {s' : IncludeState} {log : Log}
    → check_in_scope k repository_name filename line linenum s ≡ some (s', log)
    → s'.stack ≡ s.stack
unfolding check_in_scope
check_in_scope-stack opens repository_name filename line linenum s e = cc
check_in_scope-stack splits repository_name filename line linenum s e = cc
check_in_scope-stack closes repository_name filename line linenum s e = cc
check_in_scope-stack plain repository_name filename line linenum s {s'} e =
    elim (Option-cases (top s)) [
      | inl missing ↦ absurd (ground (arith, e, missing))
      | inr (scope, found) ↦
          let same : set_top (check_plain repository_name filename line linenum scope).0 s ≡ s' =
            ground (arith, e, found) in
          ap (λ (t : IncludeState). t.stack) (sym same) ∙ set_top-stack _ s
    ]

-- Where `CheckIncludeLine` returns, it leaves as many scopes open as the count for the line says.
pub check_include_line-height :
    (repository_name filename line : Text) (linenum : ℕ) (s : IncludeState) {s' : IncludeState}
    {log : Log}
    → check_include_line repository_name filename line linenum s ≡ some (s', log)
    → height (length s.stack) (line_kind line ∷ []) ≡ some (length s'.stack)
unfolding check_include_line
check_include_line-height repository_name filename line linenum s {s'} {log} e =
    elim (Option-cases (enter_line (line_kind line) s)) [
      | inl failed ↦ absurd (ground (arith, e, failed))
      | inr (t, entered) ↦
          let same : s'.stack ≡ t.stack =
            check_in_scope-stack (line_kind line) repository_name filename line linenum t {s' = s'}
              {log = log} (ground (arith, e, entered)) in
          sym (depth_of-enter_line (line_kind line) s.stack s.all)
          ∙ ap depth_of entered
          ∙ ap (λ (st : List ℕ). some (length st)) (sym same)
    ]
