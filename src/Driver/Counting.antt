-- ===== src/Driver/Counting.antt =====
-- What `ParseGlobalNolintSuppressions` does to the globals.
use front_server.Common.{◌≡◌, refl, Bool, some, List, [], Text}
use front_server.Lint.{Lint, Suppressions, run_log}
use front_server.Lint.Written.{Accounts, run_log-Accounts}
use front_server.Driver.{global_filters, append_filters, marks_of, parse_global_nolint_suppressions}

pub parse_global_nolint_suppressions-Accounts :
    (tty : Bool) (filename : Text) (lines : List Text) (l : Lint) {l' : Lint}
    → parse_global_nolint_suppressions tty filename lines l ≡ some l'
    → Accounts l l'
unfolding parse_global_nolint_suppressions append_filters
parse_global_nolint_suppressions-Accounts tty filename lines l e =
    run_log-Accounts tty filename (global_filters 0 (marks_of lines)).1
      (append_filters (global_filters 0 (marks_of lines)).0 l) e

-- Without an error of its own, `ParseGlobalNolintSuppressions` only appends filters.
pub parse_global_nolint_suppressions-append_filters :
    (tty : Bool) (filename : Text) (lines : List Text) (l : Lint)
    → (global_filters 0 (marks_of lines)).1 ≡ []
    → parse_global_nolint_suppressions tty filename lines l
      ≡ some (append_filters (global_filters 0 (marks_of lines)).0 l)
unfolding parse_global_nolint_suppressions run_log
parse_global_nolint_suppressions-append_filters tty filename lines l e =
    rw (parse_global_nolint_suppressions, e) refl

pub append_filters-suppressions :
    (filters : List Text) (l : Lint) (suppressions : Suppressions)
    → append_filters filters (record l { suppressions = suppressions })
      ≡ record (append_filters filters l) { suppressions = suppressions }
unfolding append_filters
append_filters-suppressions filters l suppressions = refl
