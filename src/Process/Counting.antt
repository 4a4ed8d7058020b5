-- ===== src/Process/Counting.antt =====
-- The count of errors and the lines written, over whole runs of the program.
use front_server.Common.{
  if◌then◌else◌, ℕ, ◌≡◌, refl, Bool, true, false, not, ◌&&◌, Option, none, some, List, [], ◌∷◌,
  ◌++◌, inl, inr, arith, Text, codes, Option-cases, Bool-cases, text_eq, one_of,
}
use front_server.Lint.{Lint, Log, run_log, reset_nolint_suppressions, set_verbose_level}
use front_server.Lint.Written.{Accounts, Accounts-trans, error-Accounts, run_log-Accounts}
use front_server.Driver.{parse_global_nolint_suppressions}
use front_server.Driver.Counting.{parse_global_nolint_suppressions-Accounts}
use front_server.Missing.{
  file_extension, header_extensions, source_extensions, is_header_file_extension,
}
use front_server.Process.{
  Host, tell, check_file, first_marker, last_marker, strip_returns, read_lines, process_file_data,
  process_read, process_file, process_files,
}

tell-Accounts : (message : Text) (l : Lint) → Accounts l (tell message l)
unfolding tell
tell-Accounts message l q = ground (arith, q)

-- A step that may fail, and one behind it.
chain-Accounts :
    (l : Lint) (r : Option Lint) (f : Lint → Option Lint) {n : Lint}
    → ((m : Lint) → r ≡ some m → Accounts l m)
    → ((m n' : Lint) → f m ≡ some n' → Accounts m n')
    → (elim r [ none ↦ none | some m ↦ f m ]) ≡ some n
    → Accounts l n
chain-Accounts l none f {n} a b e q = cc
chain-Accounts l (some m) f {n} a b e q = Accounts-trans l m n (a m refl) (b m n e) q

log-Accounts :
    (tty : Bool) (filename : Text) (r : Option Log) (m n : Lint)
    → (elim r [ none ↦ none | some log ↦ run_log tty filename log (reset_nolint_suppressions m) ])
      ≡ some n
    → Accounts m n
unfolding reset_nolint_suppressions
log-Accounts tty filename none m n e q = cc
log-Accounts tty filename (some log) m n e q =
    run_log-Accounts tty filename log (reset_nolint_suppressions m) e q

process_file_data-Accounts :
    (h : Host) (filename ext : Text) (lines : List Text) (l n : Lint)
    → process_file_data h filename ext lines l ≡ some n
    → Accounts l n
unfolding process_file_data
process_file_data-Accounts h filename ext lines l n e =
    let marked = first_marker ∷ lines ++ last_marker ∷ [] in
    let checks = λ (m : Lint).
      check_file h filename (is_header_file_extension ext) m.state.verbose_level marked in
    chain-Accounts l (parse_global_nolint_suppressions h.tty filename marked l)
      (λ m. elim (checks m) [
        | none ↦ none
        | some log ↦ run_log h.tty filename log (reset_nolint_suppressions m)
      ])
      {n = n} (λ m d. parse_global_nolint_suppressions-Accounts h.tty filename marked l {l' = m} d)
      (λ m n' d. log-Accounts h.tty filename (checks m) m n' d) e

some-Accounts : (l m n : Lint) → Accounts l m → some m ≡ some n → Accounts l n
some-Accounts l m n a e q = let (quiet, count) = a q in ground (arith, quiet, count, e)

return-Accounts :
    (b : Bool) (m : Lint) (other : Option Lint) {n : Lint}
    → ((n' : Lint) → other ≡ some n' → Accounts m n')
    → (if b then other else some m) ≡ some n
    → Accounts m n
return-Accounts true m other {n} a e q = a n e q
return-Accounts false m other {n} a e q = ground (arith, e, q)

process_read-Accounts :
    (h : Host) (filename : Text) (lines : List Text) (l n : Lint)
    → process_read h filename lines l ≡ some n
    → Accounts l n
unfolding process_read
process_read-Accounts h filename lines l n e =
    elim (Bool-cases (
      not (text_eq filename (codes "-"))
      && not (one_of (header_extensions ++ source_extensions) (file_extension filename)))) [
        | inl ignored ↦ some-Accounts l _ n (tell-Accounts _ l) (rw (process_read, ignored) at e)
        | inr taken ↦
            chain-Accounts l
              (process_file_data h filename (file_extension filename) (strip_returns lines).0 l) _
              {n = n}
              (λ m d.
                process_file_data-Accounts h filename (file_extension filename)
                  (strip_returns lines).0 l m d)
              (λ m n' d.
                return-Accounts ((strip_returns lines).1 && not h.crlf) m _ {n = n'}
                  (λ k c. error-Accounts h.tty filename _ m {l' = k} c) d)
              (rw (process_read, taken) at e)
      ]

process_file-Accounts :
    (h : Host) (filename : Text) (vlevel : ℕ) (l n : Lint)
    → process_file h filename vlevel l ≡ some n
    → Accounts l n
unfolding process_file set_verbose_level
process_file-Accounts h filename vlevel l n e =
    let set : Lint = record l { state = record l.state { verbose_level = vlevel } } in
    elim (Option-cases (read_lines h filename)) [
      | inl missing ↦ some-Accounts set _ n (tell-Accounts _ set) (rw (process_file, missing) at e)
      | inr (lines, found) ↦
          chain-Accounts set (process_read h filename lines set)
            (λ m. some (tell (codes "Done processing " ++ filename ++ codes "\n") m)) {n = n}
            (λ m d. process_read-Accounts h filename lines set m d)
            (λ m n' d. some-Accounts m _ n' (tell-Accounts _ m) d) (rw (process_file, found) at e)
    ]

-- In a quiet run over files, each error that is counted is one line written to stderr, and nothing
-- else is written.
pub process_files-Accounts :
    (h : Host) (filenames : List Text) (l : Lint) {n : Lint}
    → process_files h filenames l ≡ some n
    → Accounts l n
unfolding process_files
process_files-Accounts h [] l {n} e q = ground (arith, e, q)
process_files-Accounts h (filename ∷ filenames) l {n} e q =
    chain-Accounts l (process_file h filename l.state.verbose_level l) (process_files h filenames)
      {n = n} (λ m d. process_file-Accounts h filename l.state.verbose_level l m d)
      (λ m n' d. process_files-Accounts h filenames m {n = n'} d) e q
