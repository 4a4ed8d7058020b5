-- ===== src/Missing/Once.antt =====
-- What the check of missing includes reports: no header twice, and none that the file includes.
use front_server.Common.{
  ℕ, suc, ◌≡◌, refl, ap, sym, Bool, true, false, not, ◌&&◌, ◌||◌, none, some, List, [], ◌∷◌, ◌++◌,
  inl, inr, arith, All, map, Text, text_eq, text_eq_iff, one_of, Bool-cases, Option-cases,
  if◌then◌else◌, codes,
}
use front_server.Cleanse.{CleansedLines, cleanse_comments}
use front_server.Include.Line.{included}
use front_server.Modules.{files_belong_to_same_module}
use front_server.Common.Regex.{substitute}
use front_server.Missing.Tables.{headers_containing_templates, algorithm_functions}
use front_server.Missing.{
  is_source_file, flymake, Need, Files, add_key, add_includes, update_include_state, require,
  require_string, require_algorithms, require_templates, require_headers, require_line,
  require_lines, load_headers, report_missing, bare_header, missing_error,
  check_for_include_what_you_use,
}

-- No two needs ask for the same header.
abbrev asks : Text → List Need → Bool
asks header [] = false
asks header (n ∷ ns) = text_eq n.header header || asks header ns

abbrev pub IsOnce : List Need → Type 0
IsOnce [] = Unit
IsOnce (n ∷ ns) = (asks n.header ns ≡ false) × IsOnce ns

asks-require :
    (header : Text) (need : Need) (ns : List Need)
    → asks header (require need ns) ≡ (text_eq need.header header || asks header ns)
unfolding require
asks-require header need [] = refl
asks-require header need (n ∷ ns) = elim (Bool-cases (text_eq n.header need.header)) [
  | inl same ↦
      let e : text_eq n.header header ≡ text_eq need.header header =
        ap (λ (t : Text). text_eq t header) ((text_eq_iff n.header need.header).0 same) in
      ground (arith, same, e)
  | inr other ↦ ground (arith, other, asks-require header need ns)
]

text_eq-flip : (s t : Text) → text_eq s t ≡ false → text_eq t s ≡ false
text_eq-flip s t h = elim (Bool-cases (text_eq t s)) [
  | inr other ↦ other
  | inl same ↦
      let e : text_eq s t ≡ true = (text_eq_iff s t).1 (sym ((text_eq_iff t s).0 same)) in cc
]

if-IsOnce :
    (b : Bool) (ns ns' : List Need) → IsOnce ns → IsOnce ns' → IsOnce (if b then ns else ns')
if-IsOnce true ns ns' h h' = h
if-IsOnce false ns ns' h h' = h'

require-IsOnce : (need : Need) (ns : List Need) → IsOnce ns → IsOnce (require need ns)
unfolding require
require-IsOnce need [] h = (refl, tt)
require-IsOnce need (n ∷ ns) h = elim (Bool-cases (text_eq n.header need.header)) [
  | inl same ↦
      let e : n.header ≡ need.header = (text_eq_iff n.header need.header).0 same in
      rw same (rw e at h.0, h.1)
  | inr other ↦
      let apart : text_eq need.header n.header ≡ false = text_eq-flip n.header need.header other in
      rw other
        (ground (arith, asks-require n.header need ns, apart, h.0), require-IsOnce need ns h.1)
]

require_string-IsOnce :
    (linenum : ℕ) (line : Text) (ns : List Need)
    → IsOnce ns
    → IsOnce (require_string linenum line ns)
unfolding require_string
require_string-IsOnce linenum line ns h = ground (
  arith,
  require-IsOnce (record { header = codes "<string>"; line = linenum; template = codes "string" })
      ns h,
  h,
)

require_algorithms-IsOnce :
    (linenum : ℕ) (line : Text) (templates : List Text) (ns : List Need)
    → IsOnce ns
    → IsOnce (require_algorithms linenum line templates ns)
unfolding require_algorithms
require_algorithms-IsOnce linenum line [] ns h = h
require_algorithms-IsOnce linenum line (t ∷ ts) ns h =
    require_algorithms-IsOnce linenum line ts _ (if-IsOnce _ _ _ (require-IsOnce _ ns h) h)

require_templates-IsOnce :
    (linenum : ℕ) (line header : Text) (templates : List Text) (ns : List Need)
    → IsOnce ns
    → IsOnce (require_templates linenum line header templates ns)
unfolding require_templates
require_templates-IsOnce linenum line header [] ns h = h
require_templates-IsOnce linenum line header (t ∷ ts) ns h =
    require_templates-IsOnce linenum line header ts _ (if-IsOnce _ _ _ (require-IsOnce _ ns h) h)

require_headers-IsOnce :
    (linenum : ℕ) (line : Text) (table : List (Text × List Text)) (ns : List Need)
    → IsOnce ns
    → IsOnce (require_headers linenum line table ns)
unfolding require_headers
require_headers-IsOnce linenum line [] ns h = h
require_headers-IsOnce linenum line ((header, templates) ∷ table) ns h =
    require_headers-IsOnce linenum line table _
      (require_templates-IsOnce linenum line header templates ns h)

require_line-IsOnce :
    (linenum : ℕ) (line : Text) (ns : List Need) → IsOnce ns → IsOnce (require_line linenum line ns)
unfolding require_line
require_line-IsOnce linenum line ns h =
    let found =
      require_algorithms-IsOnce linenum line algorithm_functions _
        (require_string-IsOnce linenum line ns h) in
    ground
      (arith, h, found, require_headers-IsOnce linenum line headers_containing_templates _ found)

require_lines-IsOnce :
    (linenum : ℕ) (lines : List Text) (ns : List Need)
    → IsOnce ns
    → IsOnce (require_lines linenum lines ns)
unfolding require_lines
require_lines-IsOnce linenum [] ns h = h
require_lines-IsOnce linenum (line ∷ lines) ns h =
    require_lines-IsOnce (suc linenum) lines _ (require_line-IsOnce linenum line ns h)

-- The needs whose header is not among the keys.
abbrev unmet : List Text → List Need → List Need
unmet keys [] = []
unmet keys (n ∷ ns) =
    if one_of keys (bare_header n.header) then unmet keys ns else n ∷ unmet keys ns

report_missing-unmet :
    (keys : List Text) (ns : List Need) → report_missing keys ns ≡ map missing_error (unmet keys ns)
unfolding report_missing
report_missing-unmet keys [] = refl
report_missing-unmet keys (n ∷ ns) = ground (arith, report_missing-unmet keys ns)

asks-unmet :
    (header : Text) (keys : List Text) (ns : List Need)
    → asks header ns ≡ false
    → asks header (unmet keys ns) ≡ false
asks-unmet header keys [] h = refl
asks-unmet header keys (n ∷ ns) h = ground (arith, asks-unmet header keys ns)

unmet-IsOnce : (keys : List Text) (ns : List Need) → IsOnce ns → IsOnce (unmet keys ns)
unmet-IsOnce keys [] h = tt
unmet-IsOnce keys (n ∷ ns) h =
    if-IsOnce (one_of keys (bare_header n.header)) (unmet keys ns) (n ∷ unmet keys ns)
      (unmet-IsOnce keys ns h.1) (asks-unmet n.header keys ns h.0, unmet-IsOnce keys ns h.1)

-- The header of a need is not among the keys.
abbrev pub IsUnmet : List Text → Need → Type 0
IsUnmet keys n = one_of keys (bare_header n.header) ≡ false

unmet-IsUnmet :
    (keys keys' : List Text) (ns : List Need)
    → ((key : Text) → one_of keys key ≡ true → one_of keys' key ≡ true)
    → All (IsUnmet keys) (unmet keys' ns)
unmet-IsUnmet keys keys' [] more = tt
unmet-IsUnmet keys keys' (n ∷ ns) more = elim (Bool-cases (one_of keys' (bare_header n.header))) [
  | inl met ↦ rw met (unmet-IsUnmet keys keys' ns more)
  | inr missing ↦
      let open_need : IsUnmet keys n = elim (Bool-cases (one_of keys (bare_header n.header))) [
        | inl there ↦ let there' = more (bare_header n.header) there in cc
        | inr none_there ↦ none_there
      ] in
      rw missing (open_need, unmet-IsUnmet keys keys' ns more)
]

one_of-append :
    (keys : List Text) (key other : Text)
    → one_of keys key ≡ true
    → one_of (keys ++ other ∷ []) key ≡ true
one_of-append [] key other h = cc
one_of-append (k ∷ keys) key other h = ground (arith, one_of-append keys key other)

-- The second keys have all the first have.
abbrev Extends : List Text → List Text → Type 0
Extends keys keys' = (key : Text) → one_of keys key ≡ true → one_of keys' key ≡ true

add_key-Extends : (key : Text) (keys : List Text) → Extends keys (add_key key keys)
unfolding add_key
add_key-Extends key keys other h = ground (arith, one_of-append keys other key h)

add_includes-Extends : (lines keys : List Text) → Extends keys (add_includes lines keys)
unfolding add_includes
add_includes-Extends [] keys other h = h
add_includes-Extends (line ∷ lines) keys other h =
    elim (included (cleanse_comments line))
      as (λ o.
        one_of
          (elim o as (λ _. List Text) [
            | none ↦ add_includes lines keys
            | some x ↦ add_includes lines (add_key x.0 keys)
          ])
          other
        ≡ true) [
          | none ↦ add_includes-Extends lines keys other h
          | some (include, _) ↦
              add_includes-Extends lines (add_key include keys) other
                (add_key-Extends include keys other h)
        ]

update_include_state-Extends :
    (files : Files) (filename : Text) (keys : List Text)
    → Extends keys (update_include_state files filename keys).1
unfolding update_include_state
update_include_state-Extends files filename keys other h = elim (Option-cases (files filename)) [
  | inl missing ↦ rw (update_include_state, missing) h
  | inr (lines, found) ↦ rw (update_include_state, found) (add_includes-Extends lines keys other h)
]

load_headers-Extends :
    (files : Files) (abs_filename : Text) (headers : List Text) (header_found : Bool)
    (keys : List Text)
    → Extends keys (load_headers files abs_filename headers header_found keys).1
unfolding load_headers
load_headers-Extends files abs_filename [] header_found keys other h = h
load_headers-Extends files abs_filename (header ∷ headers) header_found keys other h =
    let found = files_belong_to_same_module abs_filename header in
    let read = update_include_state files (found.1 ++ header) keys in
    elim found.0
      as (λ b.
        one_of
          (elim b as (λ _. Bool × List Text) [
            | true ↦ load_headers files abs_filename headers (header_found || read.0) read.1
            | false ↦ load_headers files abs_filename headers header_found keys
          ]).1
          other
        ≡ true) [
          | true ↦
              load_headers-Extends files abs_filename headers (header_found || read.0) read.1 other
                (update_include_state-Extends files (found.1 ++ header) keys other h)
          | false ↦ load_headers-Extends files abs_filename headers header_found keys other h
        ]

-- `CheckForIncludeWhatYouUse` reports needs that ask for different headers, none of which is a key
-- of the include state: it asks for no header twice, and for none that the file includes itself.
pub check_for_include_what_you_use-IsOnce :
    (files : Files) (full_name filename : Text) (clean_lines : CleansedLines) (keys : List Text)
    → (needs : List Need) × (check_for_include_what_you_use files full_name filename clean_lines
          keys
        ≡ map missing_error needs)
      × IsOnce needs
      × All (IsUnmet keys) needs
unfolding check_for_include_what_you_use
check_for_include_what_you_use-IsOnce files full_name filename clean_lines keys =
    let abs_filename = substitute flymake (codes ".cc") full_name in
    let (header_found, loaded) = load_headers files abs_filename keys false keys in
    let needs = require_lines 0 clean_lines.elided [] in
    elim (Bool-cases (is_source_file filename && not header_found)) [
      | inl quiet ↦ ([], rw (check_for_include_what_you_use, quiet) refl, tt, tt)
      | inr loud ↦ (
        unmet loaded needs,
        rw (check_for_include_what_you_use, loud) (report_missing-unmet loaded needs),
        unmet-IsOnce loaded needs (require_lines-IsOnce 0 clean_lines.elided [] tt),
        unmet-IsUnmet keys loaded needs (load_headers-Extends files abs_filename keys false keys),
      )
    ]
