-- ===== src/Missing.antt =====
-- `CheckForIncludeWhatYouUse` and `UpdateIncludeState` of utils/tools/cpplint.py. The files that
-- the code opens are a parameter: the lines of a path, with their ends, or nothing for an `IOError`.
-- A dictionary that the code iterates over is in the order of insertion here.
pub mod Tables
pub mod Once
mod Examples
use mathlib.Core.List.{reverse}
use front_server.Common.{
  ℕ, suc, Bool, true, false, ◌&&◌, ◌||◌, Option, none, some, List, [], ◌∷◌, ◌++◌, not,
  if◌then◌else◌, Text, codes, text_eq, one_of, contains, ends_with, starts_with, split_last,
}
use front_server.Common.Regex.{
  Regex, boundary, star, optional, eol, space, dot, lit, chars, none_in, alt, all_of, finds, search,
  substitute, in_set,
}
use front_server.Lint.{Log, Event, report_at}
use front_server.Cleanse.{CleansedLines, cleanse_comments}
use front_server.Include.Line.{included}
use front_server.Modules.{files_belong_to_same_module}
use front_server.Missing.Tables.{headers_containing_templates, algorithm_functions}

-- `_HEADER_EXTENSIONS`
abbrev pub header_extensions : List Text
header_extensions = codes "h" ∷ codes "hh" ∷ codes "hpp" ∷ codes "hxx" ∷ []

-- `_SOURCE_EXTENSIONS`
abbrev pub source_extensions : List Text
source_extensions = codes "cc" ∷ codes "cpp" ∷ codes "cxx" ∷ codes "inl" ∷ []

-- `filename[filename.rfind('.') + 1:]`
unfoldable pub file_extension : Text → Text
unfolding split_last
file_extension filename = elim (split_last b'.' filename) [
  | none ↦ filename
  | some (_, extension) ↦ extension
]

-- `IsHeaderFileExtension`
unfoldable pub is_header_file_extension : Text → Bool
is_header_file_extension extension = one_of header_extensions extension

-- `IsHeaderFile`
unfoldable pub is_header_file : Text → Bool
unfolding is_header_file_extension file_extension
is_header_file filename = is_header_file_extension (file_extension filename)

-- `IsSourceFile`
unfoldable pub is_source_file : Text → Bool
unfolding file_extension
is_source_file filename = one_of source_extensions (file_extension filename)

-- The keys of the include state: `setdefault`.
pub add_key : Text → List Text → List Text
add_key key keys = if one_of keys key then keys else keys ++ key ∷ []

-- The loop of `UpdateIncludeState` over the lines of the file.
pub add_includes : List Text → List Text → List Text
unfolding add_key included cleanse_comments
add_includes [] keys = keys
add_includes (line ∷ lines) keys = elim (included (cleanse_comments line)) [
  | none ↦ add_includes lines keys
  | some (include, _) ↦ add_includes lines (add_key include keys)
]

abbrev pub Files : Type 0
Files = Text → Option (List Text)

-- `UpdateIncludeState`
pub update_include_state : Files → Text → List Text → Bool × List Text
unfolding add_includes
update_include_state files filename keys = elim (files filename) [
  | none ↦ (false, keys)
  | some lines ↦ (true, add_includes lines keys)
]

-- What a header is required for: the number of the line and the template.
pub record Need : Type 0 where
  pub header : Text
  pub line : ℕ
  pub template : Text

-- `required[header] = (linenum, template)`
pub require : Need → List Need → List Need
require need [] = need ∷ []
require need (n ∷ needs) =
    if text_eq n.header need.header then need ∷ needs else n ∷ require need needs

-- `_RE_PATTERN_STRING`: \bstring\b
string_regex : Regex
string_regex = all_of (boundary ∷ lit "string" ∷ boundary ∷ [])

require_string : ℕ → Text → List Need → List Need
unfolding string_regex require
require_string linenum line needs = elim (search string_regex line) [
  | none ↦ needs
  | some m ↦
      if ends_with m.before (codes "std::") || not (ends_with m.before (codes "::"))
      then require (record { header = codes "<string>"; line = linenum; template = codes "string" })
          needs
      else needs
]

-- [^>.]\b...(<.*?>)?\([^\)], where only the existence of a match counts
algorithm_regex : Text → Regex
algorithm_regex template = all_of (
    none_in ">."
    ∷ boundary
    ∷ chars template
    ∷ optional (all_of (lit "<" ∷ star dot ∷ lit ">" ∷ []))
    ∷ lit "("
    ∷ none_in ")"
    ∷ [])

-- (\<|\b)...\s*\<
template_regex : Text → Regex
template_regex template =
    all_of (alt (lit "<") boundary ∷ chars template ∷ star space ∷ lit "<" ∷ [])

require_algorithms : ℕ → Text → List Text → List Need → List Need
unfolding algorithm_regex require
require_algorithms linenum line [] needs = needs
require_algorithms linenum line (template ∷ templates) needs =
    require_algorithms linenum line templates (
      if finds (algorithm_regex template) line
      then require (record { header = codes "<algorithm>"; line = linenum; template = template })
          needs
      else needs)

require_templates : ℕ → Text → Text → List Text → List Need → List Need
unfolding template_regex require
require_templates linenum line header [] needs = needs
require_templates linenum line header (template ∷ templates) needs =
    require_templates linenum line header templates (
      if finds (template_regex template) line
      then require (record { header = header; line = linenum; template = template ++ codes "<>" })
          needs
      else needs)

require_headers : ℕ → Text → List (Text × List Text) → List Need → List Need
unfolding require_templates
require_headers linenum line [] needs = needs
require_headers linenum line ((header, templates) ∷ table) needs =
    require_headers linenum line table (require_templates linenum line header templates needs)

-- One round of the loop over the lines.
pub require_line : ℕ → Text → List Need → List Need
unfolding require_string require_algorithms require_headers
require_line linenum line needs =
    if text_eq line [] || starts_with line (codes "#")
    then needs
    else let found =
        require_algorithms linenum line algorithm_functions (require_string linenum line needs) in
      if contains line (codes "<")
      then require_headers linenum line headers_containing_templates found
      else found

pub require_lines : ℕ → List Text → List Need → List Need
unfolding require_line
require_lines linenum [] needs = needs
require_lines linenum (line ∷ lines) needs =
    require_lines (suc linenum) lines (require_line linenum line needs)

-- The loop over the keys: the flag is `header_found`.
pub load_headers : Files → Text → List Text → Bool → List Text → Bool × List Text
unfolding update_include_state files_belong_to_same_module
load_headers files abs_filename [] header_found keys = (header_found, keys)
load_headers files abs_filename (header ∷ headers) header_found keys =
    let (same_module, common_path) = files_belong_to_same_module abs_filename header in
    let (loaded, keys') = update_include_state files (common_path ++ header) keys in
    elim same_module [
      | true ↦ load_headers files abs_filename headers (header_found || loaded) keys'
      | false ↦ load_headers files abs_filename headers header_found keys
    ]

strip_marks : Text → Text
strip_marks [] = []
strip_marks (c ∷ s) = let rest = strip_marks s in if in_set (codes "<>\"") c then rest else c ∷ s

-- `required_header_unstripped.strip('<>"')`
unfoldable pub bare_header : Text → Text
unfolding strip_marks
bare_header header = reverse (strip_marks (reverse (strip_marks header)))

unfoldable pub missing_error : Need → Event
missing_error need =
    report_at need.line (codes "build/include_what_you_use") 4
      (codes "Add #include " ++ need.header ++ codes " for " ++ need.template)

-- The loop that reports.
pub report_missing : List Text → List Need → Log
unfolding bare_header missing_error
report_missing keys [] = []
report_missing keys (need ∷ needs) =
    let rest = report_missing keys needs in
    if one_of keys (bare_header need.header) then rest else missing_error need ∷ rest

-- _flymake\.cc$
flymake : Regex
flymake = all_of (lit "_flymake.cc" ∷ eol ∷ [])

-- `CheckForIncludeWhatYouUse`, for the name that `FullName` returns and the keys of the include
-- state
unfoldable pub check_for_include_what_you_use :
    Files → Text → Text → CleansedLines → List Text → Log
unfolding require_lines load_headers report_missing flymake is_source_file
check_for_include_what_you_use files full_name filename clean_lines keys =
    let abs_filename = substitute flymake (codes ".cc") full_name in
    let (header_found, loaded) = load_headers files abs_filename keys false keys in
    if is_source_file filename && not header_found
    then []
    else report_missing loaded (require_lines 0 clean_lines.elided [])
