-- ===== src/Include/Line/Stack.antt =====
-- The stack of scopes in `CheckIncludeLine` against one that holds its scopes by value.
use front_server.Common.{ℕ, suc, ◌≡◌, refl, Option, none, some, List, [], ◌∷◌, ◌++◌, Text}
use front_server.Lint.{Log}
use front_server.Include.{
  ScopedIncludeState, init_scope, IncludeState, push, pop, line_kind, LineKind, opens, splits,
  closes, plain, enter_line,
}
use front_server.Include.Line.{check_plain, check_in_scope, check_include_line, check_include_lines}
use front_server.Include.Line.Shows.{
  Shows, push-Shows, pop-Shows, top-Shows, set_top-Shows, enter_line-plain,
}

-- `CheckIncludeLine` with the open scopes in a list of their own, the innermost first.
module _ (repository_name filename : Text) where
  abbrev look :
      Text
      → ℕ
      → ScopedIncludeState
      → List ScopedIncludeState
      → Option (List ScopedIncludeState × Log)
  look line linenum scope below =
      let (scope', log) = check_plain repository_name filename line linenum scope in
      some (scope' ∷ below, log)

  abbrev pub line_by_value :
      LineKind → Text → ℕ → List ScopedIncludeState → Option (List ScopedIncludeState × Log)
  line_by_value opens line linenum scopes = some (init_scope ∷ scopes, [])
  line_by_value splits line linenum [] = none
  line_by_value splits line linenum (scope ∷ scopes) = some (init_scope ∷ scopes, [])
  line_by_value closes line linenum [] = none
  line_by_value closes line linenum (scope ∷ scopes) = some (scopes, [])
  line_by_value plain line linenum [] = look line linenum init_scope []
  line_by_value plain line linenum (scope ∷ scopes) = look line linenum scope scopes

  abbrev pub lines_by_value :
      List Text → ℕ → List ScopedIncludeState → Option (List ScopedIncludeState × Log)
  lines_by_value [] linenum scopes = some (scopes, [])
  lines_by_value (line ∷ lines) linenum scopes =
      elim (line_by_value (line_kind line) line linenum scopes) [
        | none ↦ none
        | some (scopes', log) ↦ elim (lines_by_value lines (suc linenum) scopes') [
          | none ↦ none
          | some (end, logs) ↦ some (end, log ++ logs)
        ]
      ]

-- The two results agree: both are the error, or the same reports and the same scopes.
abbrev pub Agree : Option (IncludeState × Log) → Option (List ScopedIncludeState × Log) → Type 0
Agree none none = Unit
Agree (some (s, log)) (some (view, log')) = Shows s view × (log ≡ log')
Agree _ _ = ⊥

join-Agree :
    (log log' : Log) (r : Option (IncludeState × Log)) (r' : Option (List ScopedIncludeState × Log))
    → log ≡ log'
    → Agree r r'
    → Agree
        (elim r [ none ↦ none | some (t, logs) ↦ some (t, log ++ logs) ])
        (elim r' [ none ↦ none | some (t, logs) ↦ some (t, log' ++ logs) ])
join-Agree log log' none none e a = tt
join-Agree log log' none (some p) e a = a
join-Agree log log' (some p) none e a = a
join-Agree log log' (some (t, logs)) (some (v, logs')) e (shows, same) = (shows, cc)

bind-Agree :
    (f : IncludeState → Option (IncludeState × Log))
    (g : List ScopedIncludeState → Option (List ScopedIncludeState × Log))
    (r : Option (IncludeState × Log)) (r' : Option (List ScopedIncludeState × Log))
    → ((s : IncludeState) (view : List ScopedIncludeState) → Shows s view → Agree (f s) (g view))
    → Agree r r'
    → Agree
        (elim r [
          | none ↦ none
          | some (s, log) ↦ elim (f s) [ none ↦ none | some (t, logs) ↦ some (t, log ++ logs) ]
        ])
        (elim r' [
          | none ↦ none
          | some (v, log) ↦ elim (g v) [ none ↦ none | some (t, logs) ↦ some (t, log ++ logs) ]
        ])
bind-Agree f g none none h a = tt
bind-Agree f g none (some p) h a = absurd a
bind-Agree f g (some p) none h a = absurd a
bind-Agree f g (some (s, log)) (some (v, log')) h (shows, same) =
    join-Agree log log' (f s) (g v) same (h s v shows)

module _ (repository_name filename : Text) where
  check_in_scope-plain :
      (line : Text) (linenum : ℕ) (s : IncludeState) (scope : ScopedIncludeState)
      (view : List ScopedIncludeState)
      → Shows s (scope ∷ view)
      → Agree
          (check_in_scope plain repository_name filename line linenum s)
          (line_by_value repository_name filename plain line linenum (scope ∷ view))
  unfolding check_in_scope
  check_in_scope-plain line linenum s scope view h =
      rw (check_in_scope, top-Shows s scope view h) (set_top-Shows s scope _ view h, refl)

  -- One line, for a kind and the state behind the directives.
  in_kind : LineKind → Text → ℕ → IncludeState → Option (IncludeState × Log)
  in_kind kind line linenum s = elim (enter_line kind s) [
    | none ↦ none
    | some s' ↦ check_in_scope kind repository_name filename line linenum s'
  ]

  in_kind-Agree :
      (kind : LineKind) (line : Text) (linenum : ℕ) (s : IncludeState)
      (view : List ScopedIncludeState)
      → Shows s view
      → Agree
          (in_kind kind line linenum s)
          (line_by_value repository_name filename kind line linenum view)
  unfolding in_kind enter_line pop check_in_scope
  in_kind-Agree opens line linenum s view h =
      unfold check_in_scope in (push-Shows init_scope s view h, refl)
  in_kind-Agree splits line linenum s [] h = rw (in_kind, enter_line, pop, h) tt
  in_kind-Agree splits line linenum s (scope ∷ view) h =
      let (s', e, h') = pop-Shows s scope view h in
      rw (in_kind, enter_line, e, check_in_scope) (push-Shows init_scope s' view h', refl)
  in_kind-Agree closes line linenum s [] h = rw (in_kind, enter_line, pop, h) tt
  in_kind-Agree closes line linenum s (scope ∷ view) h =
      let (s', e, h') = pop-Shows s scope view h in
      rw (in_kind, enter_line, e, check_in_scope) (h', refl)
  in_kind-Agree plain line linenum s [] h =
      rw (in_kind, enter_line, h)
        (check_in_scope-plain line linenum (push init_scope s) init_scope []
          (push-Shows init_scope s [] h))
  in_kind-Agree plain line linenum s (scope ∷ view) (front, id, e, lt, here, below) =
      rw (in_kind, enter_line-plain s.stack s.all front id e)
        (check_in_scope-plain line linenum s scope view (front, id, e, lt, here, below))

  check_include_line-Agree :
      (line : Text) (linenum : ℕ) (s : IncludeState) (view : List ScopedIncludeState)
      → Shows s view
      → Agree
          (check_include_line repository_name filename line linenum s)
          (line_by_value repository_name filename (line_kind line) line linenum view)
  unfolding check_include_line in_kind
  check_include_line-Agree line linenum s view h =
      in_kind-Agree (line_kind line) line linenum s view h

  -- From a state that shows the given scopes, `CheckIncludeLine` reports over the lines of a file the
  -- same, and fails with an `IndexError` for the same lines, as with a stack that holds
  -- these scopes by value: an assignment to the scope at the top reaches no other open scope.
  pub check_include_lines-Agree :
      (lines : List Text) (linenum : ℕ) (s : IncludeState) (view : List ScopedIncludeState)
      → Shows s view
      → Agree
          (check_include_lines repository_name filename lines linenum s)
          (lines_by_value repository_name filename lines linenum view)
  unfolding check_include_lines
  check_include_lines-Agree [] linenum s view h = (h, refl)
  check_include_lines-Agree (line ∷ lines) linenum s view h =
      bind-Agree (check_include_lines repository_name filename lines (suc linenum))
        (lines_by_value repository_name filename lines (suc linenum)) _ _
        (check_include_lines-Agree lines (suc linenum))
        (check_include_line-Agree line linenum s view h)
