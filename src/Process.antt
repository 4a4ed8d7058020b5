-- ===== src/Process.antt =====
-- `ProcessLine`, `ProcessFileData`, `ReadWithEncodingDetect`, `ProcessFile` and `main` of
-- utils/tools/cpplint.py. What the host of the program says is a parameter. The list of extra checks,
-- which the program leaves empty, is left out.
pub mod Usage
pub mod Counting
pub mod Isolation
pub mod Ends
pub mod Reading
mod Examples
use front_server.Common.{
  ℕ, zero, suc, ◌+◌, Bool, true, false, ◌&&◌, ◌||◌, Option, none, some, List, [], ◌∷◌, ◌++◌, not,
  ltb, ◌==◌, if◌then◌else◌, length, Text, codes, text_eq, one_of, ends_with, rstrip_char, split_on,
  map,
}
use front_server.Common.Regex.{Regex}
use front_server.Lint.{
  Log, Lint, CppLintState, report_at, run_log, error, parse_nolint_suppressions,
  reset_nolint_suppressions, reset_error_counts, print_error_counts, set_verbose_level,
}
use front_server.Lint.Categories.{error_categories}
use front_server.Cleanse.{CleansedLines, cleansed_lines, remove_multi_line_comments, line_at}
use front_server.Include.{IncludeState, init_include, get_all}
use front_server.Nesting.{
  NestingState, init_nesting, update, check_class_finished, Stack, InlineAsm, no_asm, inside_asm,
  end_asm, block_asm,
}
use front_server.Function.{FunctionState, init_function, check_for_function_lengths}
use front_server.File.{
  check_for_copyright, check_for_header_guard, check_for_unicode_replacement_characters,
  check_for_newline_at_eof,
}
use front_server.Line.{
  check_for_multiline_comments_and_strings, check_posix_threading, check_invalid_increment,
}
use front_server.Style.{Unicode, check_style}
use front_server.Language.{check_language, check_make_pair_uses_deduction}
use front_server.Constructs.{check_for_non_standard_constructs}
use front_server.Missing.{
  Files, header_extensions, source_extensions, file_extension, is_header_file_extension,
  check_for_include_what_you_use,
}
use front_server.Driver.{
  Setting, Leaving, usage, categories, value_error, ok, leave, parse_arguments,
  parse_global_nolint_suppressions,
}
use front_server.Process.Usage.{usage_text}

-- What the program is told by its host: the names that `FileInfo` derives from the file system, the
-- files that the check of missing includes opens, the contents of a file decoded by UTF-8 and by
-- GBK, the standard input, the year, Unicode, what `sre_compile.compile` makes of a pattern, and whether stderr is a terminal on a posix system and
-- lines end with a carriage return.
pub record Host : Type 0 where
  pub repository_name : Text → Text
  pub full_name : Text → Text
  pub guard_variable : Text → Text
  pub files : Files
  pub utf8 : Text → Option Text
  pub gbk : Text → Option Text
  pub stdin : Option Text
  pub year : ℕ
  pub unicode : Unicode
  pub compile : Text → Option Regex
  pub tty : Bool
  pub crlf : Bool

-- The states that `ProcessFileData` makes for a file.
pub record FileState : Type 0 where
  pub includes : IncludeState
  pub function : FunctionState
  pub nesting : NestingState

-- `nesting_state.stack and nesting_state.stack[-1].inline_asm != _NO_ASM`
pub inside_assembly : Stack → Bool
inside_assembly [] = false
inside_assembly (b ∷ stack) = elim b.inline_asm [
  | no_asm ↦ false
  | inside_asm ↦ true
  | end_asm ↦ true
  | block_asm ↦ true
]

module _ (h : Host) (filename : Text) (is_header : Bool) (verbose_level : ℕ) where
  -- The checks of `ProcessLine` behind the test for assembly, with the blocks already updated.
  pub check_line : CleansedLines → ℕ → FileState → Option (FileState × Log)
  unfolding check_for_function_lengths check_for_multiline_comments_and_strings check_style
      check_language check_for_non_standard_constructs check_posix_threading check_invalid_increment
      check_make_pair_uses_deduction
  check_line clean_lines linenum s =
      let (function, function_log) =
        check_for_function_lengths verbose_level clean_lines linenum s.function in
      elim (check_style h.unicode (h.guard_variable filename) is_header clean_lines linenum
        s.nesting.stack) [
          | none ↦ none
          | some style_log ↦
              elim (check_language (h.repository_name filename) filename is_header clean_lines
                linenum s.includes) [
                  | none ↦ none
                  | some (includes, language_log) ↦ some (
                    record s { includes = includes; function = function },
                    function_log
                        ++ check_for_multiline_comments_and_strings clean_lines linenum
                        ++ style_log
                        ++ language_log
                        ++ check_for_non_standard_constructs clean_lines linenum s.nesting.stack
                        ++ check_posix_threading clean_lines linenum
                        ++ check_invalid_increment clean_lines linenum
                        ++ check_make_pair_uses_deduction clean_lines linenum,
                  )
                ]
        ]

  -- `ProcessLine`; `none` is an exception or a loop that does not end.
  pub process_line : CleansedLines → ℕ → FileState → Option (FileState × Log)
  unfolding parse_nolint_suppressions update inside_assembly check_line
  process_line clean_lines linenum s =
      let nolint_log = parse_nolint_suppressions (line_at clean_lines.raw_lines linenum) linenum in
      let (nesting, nesting_log) = update clean_lines linenum s.nesting in
      let s' = record s { nesting = nesting } in
      if inside_assembly nesting.stack
      then some (s', nolint_log ++ nesting_log)
      else elim (check_line clean_lines linenum s') [
        | none ↦ none
        | some (t, log) ↦ some (t, nolint_log ++ nesting_log ++ log)
      ]

  -- The loop of `ProcessFileData` over the lines, `count` of them from number `linenum` on.
  pub process_lines : CleansedLines → ℕ → ℕ → FileState → Option (FileState × Log)
  unfolding process_line
  process_lines clean_lines zero linenum s = some (s, [])
  process_lines clean_lines (suc count) linenum s = elim (process_line clean_lines linenum s) [
    | none ↦ none
    | some (t, log) ↦ elim (process_lines clean_lines count (suc linenum) t) [
      | none ↦ none
      | some (end, logs) ↦ some (end, log ++ logs)
    ]
  ]

  keys_of : List (Text × ℕ) → List Text
  keys_of [] = []
  keys_of ((key, _) ∷ entries) = key ∷ keys_of entries

  -- The reports of `ProcessFileData` from the call of `RemoveMultiLineComments` on.
  pub check_lines : List Text → Option Log
  unfolding remove_multi_line_comments cleansed_lines process_lines init_include init_function
      check_class_finished get_all keys_of check_for_include_what_you_use
      check_for_unicode_replacement_characters check_for_newline_at_eof
  check_lines lines = elim (remove_multi_line_comments lines) [
    | none ↦ none
    | some (left, comment_log) ↦
        let clean_lines = cleansed_lines left in
        let start : FileState = record {
          includes = init_include;
          function = init_function;
          nesting = init_nesting;
        } in
        elim (process_lines clean_lines clean_lines.num_lines 0 start) [
          | none ↦ none
          | some (end, line_log) ↦ some (
              comment_log
              ++ line_log
              ++ check_class_finished end.nesting.stack
              ++ check_for_include_what_you_use h.files (h.full_name filename) filename clean_lines
                  (keys_of (get_all end.includes))
              ++ check_for_unicode_replacement_characters left
              ++ check_for_newline_at_eof left)
        ]
  ]

  -- The reports of `ProcessFileData` behind the reset of the suppressions.
  unfoldable pub check_file : List Text → Option Log
  unfolding check_for_copyright check_for_header_guard check_lines
  check_file lines =
      let guard_log = check_for_header_guard h.compile (h.guard_variable filename) lines in
      elim (if is_header then guard_log else some []) [
        | none ↦ none
        | some header_log ↦ elim (check_lines lines) [
          | none ↦ none
          | some log ↦ some (check_for_copyright h.year lines ++ header_log ++ log)
        ]
      ]

abbrev first_marker : Text
first_marker = codes "// marker so line numbers and indices both start at 1"

abbrev last_marker : Text
last_marker = codes "// marker so line numbers end in a known way"

-- `ProcessFileData`; `none` is an exception or a loop that does not end.
pub process_file_data : Host → Text → Text → List Text → Lint → Option Lint
unfolding parse_global_nolint_suppressions reset_nolint_suppressions is_header_file_extension
    check_file run_log
process_file_data h filename extension lines l =
    let marked = first_marker ∷ lines ++ last_marker ∷ [] in
    elim (parse_global_nolint_suppressions h.tty filename marked l) [
      | none ↦ none
      | some l' ↦
          elim (check_file h filename (is_header_file_extension extension) l'.state.verbose_level
            marked) [
              | none ↦ none
              | some log ↦ run_log h.tty filename log (reset_nolint_suppressions l')
            ]
    ]

-- `ReadWithEncodingDetect`; `none` is an `IOError`.
pub read_with_encoding_detect : Host → Text → Option (List Text)
unfolding split_on
read_with_encoding_detect h filename = elim (h.utf8 filename) [
  | none ↦ none
  | some utf8_text ↦ elim (h.gbk filename) [
    | none ↦ none
    | some gbk_text ↦
        let utf8_lines = split_on 10 utf8_text in
        let gbk_lines = split_on 10 gbk_text in
        some (if ltb (length gbk_lines) (length utf8_lines) then utf8_lines else gbk_lines)
  ]
]

-- The lines that `ProcessFile` reads.
pub read_lines : Host → Text → Option (List Text)
unfolding read_with_encoding_detect
read_lines h filename =
    if text_eq filename (codes "-")
    then elim h.stdin [ none ↦ none | some text ↦ some (split_on 10 text) ]
    else read_with_encoding_detect h filename

-- The loop of `ProcessFile` that removes carriage returns, and whether it found one.
pub strip_returns : List Text → List Text × Bool
unfolding ends_with rstrip_char
strip_returns [] = ([], false)
strip_returns (line ∷ lines) =
    let (stripped, found) = strip_returns lines in
    if ends_with line (13 ∷ [])
    then (rstrip_char 13 line ∷ stripped, true)
    else (line ∷ stripped, found)

-- A message to stderr, unless the program is quiet.
pub tell : Text → Lint → Lint
tell message l = if l.state.quiet then l else record l { written = l.written ++ message ∷ [] }

-- The checks of `ProcessFile` for the lines that it read.
pub process_read : Host → Text → List Text → Lint → Option Lint
unfolding strip_returns file_extension tell process_file_data error
process_read h filename lines l =
    let (stripped, carriage_return_found) = strip_returns lines in
    let extension = file_extension filename in
    if not (text_eq filename (codes "-"))
      && not (one_of (header_extensions ++ source_extensions) extension)
    then some (
        tell
          (codes "Ignoring "
            ++ filename
            ++ codes "; not a ['h', 'hh', 'hpp', 'hxx', 'cc', 'cpp', 'cxx', 'inl'] file\n")
          l)
    else elim (process_file_data h filename extension stripped l) [
      | none ↦ none
      | some l' ↦
          if carriage_return_found && not h.crlf
          then error h.tty filename
              (record {
                linenum = 0;
                category = codes "whitespace/newline";
                confidence = 1;
                message = codes "One or more unexpected \\r (^M) found;better to use only a \\n";
              })
              l'
          else some l'
    ]

-- `ProcessFile`; `none` is an exception or a loop that does not end.
pub process_file : Host → Text → ℕ → Lint → Option Lint
unfolding set_verbose_level read_lines tell process_read
process_file h filename vlevel l =
    let (state, _) = set_verbose_level vlevel l.state in
    let set = record l { state = state } in
    elim (read_lines h filename) [
      | none ↦
          some
            (tell (codes "Skipping input '" ++ filename ++ codes "': Can't open for reading\n") set)
      | some lines ↦ elim (process_read h filename lines set) [
        | none ↦ none
        | some l' ↦ some (tell (codes "Done processing " ++ filename ++ codes "\n") l')
      ]
    ]

-- The loop of `main` over the files.
pub process_files : Host → List Text → Lint → Option Lint
unfolding process_file
process_files h [] l = some l
process_files h (filename ∷ filenames) l = elim (process_file h filename l.state.verbose_level l) [
  | none ↦ none
  | some l' ↦ process_files h filenames l'
]

-- How the program ends: by `sys.exit`, with the status and what was written to stderr, or by an
-- exception or not at all.
pub data Ending : Type 0 where
  exits : ℕ → List Text → Ending
  fails : Ending

-- `PrintUsage`, `PrintCategories` and the `ValueError` of `SetFilters`
pub leave_program : Leaving → Ending
unfolding usage_text
leave_program (usage none) = exits 1 (usage_text ∷ [])
leave_program (usage (some message)) =
    exits 1 (usage_text ∷ (codes "\nFATAL ERROR: " ++ message ++ codes "\n") ∷ [])
leave_program categories =
    exits 0 (map (λ category. codes "  " ++ category ++ codes "\n") error_categories)
leave_program (value_error message) = fails

-- The end of `main`.
pub finish : Lint → Ending
unfolding print_error_counts
finish l =
    exits (if ltb 0 l.state.error_count then 1 else 0) (l.written ++ print_error_counts l.state)

-- `main`, for what `getopt` makes of the arguments, with `none` for its error
pub main : Host → Option (List Setting × List Text) → Lint → Ending
unfolding parse_arguments leave_program reset_error_counts process_files finish
main h none l = leave_program (usage (some (codes "Invalid arguments.")))
main h (some (opts, filenames)) l = elim (parse_arguments opts filenames l.state) [
  | leave l' ↦ leave_program l'
  | ok state ↦ elim (process_files h filenames (record l { state = reset_error_counts state })) [
    | none ↦ fails
    | some l' ↦ finish l'
  ]
]
