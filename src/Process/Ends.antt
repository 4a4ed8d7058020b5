-- ===== src/Process/Ends.antt =====
-- When the program ends by `sys.exit`.
use front_server.Common.{
  ℕ, ◌≡◌, ◌≢◌, refl, Bool, true, false, not, ◌&&◌, Option, none, some, List, [], ◌∷◌, ◌++◌, inl,
  inr, arith, All, Text, codes, Option-cases, text_eq, one_of, ltb, if◌then◌else◌,
}
use front_server.Lint.{
  Lint, CppLintState, Log, Report, error, run_log, reset_nolint_suppressions, set_verbose_level,
  reset_error_counts, print_error_counts,
}
use front_server.Lint.Filters.{
  HasSigns, run_log-HasSigns, error-HasSigns, logged, logged-filters, verdict,
}
use front_server.Driver.{Setting, ok, parse_arguments, parse_global_nolint_suppressions}
use front_server.Driver.Global.{parse_global_nolint_suppressions-HasSigns}
use front_server.Driver.Options.{parse_arguments-IsConfigured}
use front_server.Missing.{
  file_extension, header_extensions, source_extensions, is_header_file_extension,
}
use front_server.Process.{
  Host, tell, check_file, first_marker, last_marker, strip_returns, read_lines, process_file_data,
  process_read, process_file, process_files, main, finish, exits,
}

-- The step succeeds, and leaves filters that all have a sign.
abbrev Succeeds : Option Lint → Type 0
Succeeds r = (l' : Lint) × (r ≡ some l') × HasSigns l'.state.filters

chain-Succeeds :
    (r : Option Lint) (f : Lint → Option Lint)
    → Succeeds r
    → ((m : Lint) → r ≡ some m → HasSigns m.state.filters → Succeeds (f m))
    → Succeeds (elim r [ none ↦ none | some m ↦ f m ])
chain-Succeeds none f (m, e, s) b = cc
chain-Succeeds (some m) f (m', e, s) b = b m refl (ground (arith, e, s))

error-Succeeds :
    (tty : Bool) (filename : Text) (r : Report) (l : Lint)
    → HasSigns l.state.filters
    → Succeeds (error tty filename r l)
error-Succeeds tty filename r l s =
    let printed = verdict r.category r.confidence r.linenum l in
    (
      logged printed tty filename r l,
      error-HasSigns tty filename r l s,
      rw (logged-filters printed tty filename r l) s,
    )

tell-HasSigns :
    (message : Text) (l : Lint) → HasSigns l.state.filters → HasSigns (tell message l).state.filters
unfolding tell
tell-HasSigns message l s =
    elim l.state.quiet
      as (λ b.
        HasSigns
          (if b then l else record l { written = l.written ++ message ∷ [] }).state.filters) [
            | true ↦ s
            | false ↦ s
          ]

log-Succeeds :
    (tty : Bool) (filename : Text) (r : Option Log) (m : Lint)
    → r ≢ none
    → HasSigns m.state.filters
    → Succeeds
        (elim r [ none ↦ none | some log ↦ run_log tty filename log (reset_nolint_suppressions m) ])
unfolding reset_nolint_suppressions
log-Succeeds tty filename none m e s = absurd (e refl)
log-Succeeds tty filename (some log) m e s =
    let (l', runs, same) = run_log-HasSigns tty filename log (reset_nolint_suppressions m) s in
    (l', runs, rw same s)

-- The checks of a file end without an exception, for the lines that it has.
abbrev pub ChecksEnd : Host → Text → Type 0
ChecksEnd h filename =
    (verbose_level : ℕ) (lines : List Text)
    → read_lines h filename ≡ some lines
    → check_file h filename (is_header_file_extension (file_extension filename)) verbose_level
        (first_marker ∷ (strip_returns lines).0 ++ last_marker ∷ [])
      ≢ none

process_file_data-Succeeds :
    (h : Host) (filename ext : Text) (lines : List Text) (l : Lint)
    → ((verbose_level : ℕ)
        → check_file h filename
            (is_header_file_extension ext)
            verbose_level
            (first_marker ∷ lines ++ last_marker ∷ [])
          ≢ none)
    → HasSigns l.state.filters
    → Succeeds (process_file_data h filename ext lines l)
unfolding process_file_data
process_file_data-Succeeds h filename ext lines l ends s =
    let marked = first_marker ∷ lines ++ last_marker ∷ [] in
    let (m, added, parsed, filters, minus, signs) =
      parse_global_nolint_suppressions-HasSigns h.tty filename marked l s in
    chain-Succeeds (parse_global_nolint_suppressions h.tty filename marked l) _ (m, parsed, signs)
      (λ k _ signs'. log-Succeeds h.tty filename _ k (ends k.state.verbose_level) signs')

return-Succeeds :
    (b : Bool) (m : Lint) (other : Option Lint)
    → HasSigns m.state.filters
    → Succeeds other
    → Succeeds (if b then other else some m)
return-Succeeds true m other s a = a
return-Succeeds false m other s a = (m, refl, s)

process_read-Succeeds :
    (h : Host) (filename : Text) (lines : List Text) (l : Lint)
    → read_lines h filename ≡ some lines
    → ChecksEnd h filename
    → HasSigns l.state.filters
    → Succeeds (process_read h filename lines l)
unfolding process_read
process_read-Succeeds h filename lines l read ends s =
    elim (not (text_eq filename (codes "-"))
        && not (one_of (header_extensions ++ source_extensions) (file_extension filename)))
      as (λ b. Succeeds (
        if b
        then some (
            tell
              (codes "Ignoring "
                ++ filename
                ++ codes "; not a ['h', 'hh', 'hpp', 'hxx', 'cc', 'cpp', 'cxx', 'inl'] file\n")
              l)
        else elim (process_file_data h filename (file_extension filename) (strip_returns lines).0
            l) [
              | none ↦ none
              | some m ↦
                  if (strip_returns lines).1 && not h.crlf
                  then error h.tty filename
                      (record {
                        linenum = 0;
                        category = codes "whitespace/newline";
                        confidence = 1;
                        message =
                            codes "One or more unexpected \\r (^M) found;better to use only a \\n";
                      })
                      m
                  else some m
            ])) [
              | true ↦ (_, refl, tell-HasSigns _ l s)
              | false ↦
                  chain-Succeeds
                    (process_file_data h filename (file_extension filename) (strip_returns lines).0
                      l)
                    _
                    (process_file_data-Succeeds h filename (file_extension filename)
                      (strip_returns lines).0 l (λ v. ends v lines read) s)
                    (λ m _ signs.
                      return-Succeeds ((strip_returns lines).1 && not h.crlf) m _ signs
                        (error-Succeeds h.tty filename _ m signs))
            ]

process_file-Succeeds :
    (h : Host) (filename : Text) (vlevel : ℕ) (l : Lint)
    → ChecksEnd h filename
    → HasSigns l.state.filters
    → Succeeds (process_file h filename vlevel l)
unfolding process_file set_verbose_level
process_file-Succeeds h filename vlevel l ends s =
    let set : Lint = record l { state = record l.state { verbose_level = vlevel } } in
    elim (Option-cases (read_lines h filename)) [
      | inl missing ↦ rw (process_file, missing) (_, refl, tell-HasSigns _ set s)
      | inr (lines, found) ↦
          rw (process_file, found)
            (chain-Succeeds (process_read h filename lines set) _
              (process_read-Succeeds h filename lines set found ends s)
              (λ m _ signs. (_, refl, tell-HasSigns _ m signs)))
    ]

process_files-Succeeds :
    (h : Host) (filenames : List Text) (l : Lint)
    → All (ChecksEnd h) filenames
    → HasSigns l.state.filters
    → Succeeds (process_files h filenames l)
unfolding process_files
process_files-Succeeds h [] l ends s = (l, refl, s)
process_files-Succeeds h (filename ∷ filenames) l ends s =
    chain-Succeeds (process_file h filename l.state.verbose_level l) (process_files h filenames)
      (process_file-Succeeds h filename l.state.verbose_level l ends.0 s)
      (λ m _ signs. process_files-Succeeds h filenames m ends.1 signs)

-- If `ParseArguments` accepts the arguments and the checks of each file end without an exception,
-- `main` ends by `sys.exit`, whatever filters the files add by their GLOBAL_NOLINT comments: with
-- status 1 if an error was counted since the counts were reset, and else with status 0. The output
-- format at the start is taken to be a known one.
pub main-exits :
    (h : Host) (opts : List Setting) (filenames : List Text) (l : Lint) {state : CppLintState}
    → one_of (codes "emacs" ∷ codes "vs7" ∷ []) l.state.output_format ≡ true
    → parse_arguments opts filenames l.state ≡ ok state
    → All (ChecksEnd h) filenames
    → (l' : Lint) × (process_files h filenames (record l { state = reset_error_counts state })
        ≡ some l')
      × (main h (some (opts, filenames)) l
          ≡ exits
              (if ltb 0 l'.state.error_count then 1 else 0)
              (l'.written ++ print_error_counts l'.state))
unfolding main finish reset_error_counts
main-exits h opts filenames l {state} known parsed ends =
    let (_, configured, _, _) =
      parse_arguments-IsConfigured opts filenames l.state {t = state} known parsed in
    let (l', runs, _) =
      process_files-Succeeds h filenames (record l { state = reset_error_counts state }) ends
        configured.0 in
    (l', runs, rw (main, parsed, runs) refl)
