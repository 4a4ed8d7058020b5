-- ===== src/Function.antt =====
-- The length of function bodies in utils/tools/cpplint.py: `_FunctionState` and
-- `CheckForFunctionLengths`. The count of the lines of a body goes on from line to line.
pub mod Level
pub mod Body
mod Examples
use front_server.Common.{
  ℕ, zero, suc, ◌+◌, ◌*◌, ◌/◌, ◌^◌, min, Bool, true, false, not, ◌||◌, Option, none, some, List, [],
  ◌∷◌, ◌++◌, ltb, if◌then◌else◌, drop, Text, codes, text_eq, is_space, lstrip, words, show,
}
use front_server.Common.Regex.{
  Regex, bol, eol, group, star, plus, sat, one_in, space, word, dot, lit, alt, all_of, any_of,
  matches, finds, match, search, group_of, is_some,
}
use front_server.Lint.{Report, Log, report, report_at}
use front_server.Cleanse.{CleansedLines, line_at}

-- `_FunctionState`
pub record FunctionState : Type 0 where
  pub in_a_function : Bool
  pub lines_in_function : ℕ
  pub current_function : Text

-- `_FunctionState.__init__`
unfoldable pub init_function : FunctionState
init_function = record { in_a_function = false; lines_in_function = 0; current_function = [] }

-- `_NORMAL_TRIGGER`
abbrev pub normal_trigger : ℕ
normal_trigger = 250

-- `_TEST_TRIGGER`
abbrev pub test_trigger : ℕ
test_trigger = 400

-- `Begin`
pub begin : Text → FunctionState → FunctionState
begin function_name s = record {
  in_a_function = true;
  lines_in_function = 0;
  current_function = function_name;
}

-- `Count`
pub count_line : FunctionState → FunctionState
count_line s =
    if s.in_a_function then record s { lines_in_function = s.lines_in_function + 1 } else s

-- The loop of `int(math.log(n, 2))` for n > 0. It halves `n`, so `n` is fuel enough.
pub log2_loop : ℕ → ℕ → ℕ
log2_loop zero n = 0
log2_loop (suc fuel) n = let rest = suc (log2_loop fuel (n / 2)) in if ltb n 2 then 0 else rest

pub floor_log2 : ℕ → ℕ
unfolding log2_loop
floor_log2 n = log2_loop n n

-- T(EST|est)
test_name : Regex
test_name = all_of (lit "T" ∷ alt (lit "EST") (lit "est") ∷ [])

pub base_trigger : Text → ℕ
unfolding test_name
base_trigger function = if matches test_name function then test_trigger else normal_trigger

-- The error level, for a base trigger and a number of lines.
pub error_level : ℕ → ℕ → ℕ
unfolding floor_log2
error_level base lines = min (floor_log2 (lines / base)) 5

-- The error of `Check`
pub long_function : ℕ → ℕ → FunctionState → Report
unfolding base_trigger error_level
long_function verbose_level linenum s =
    let base = base_trigger s.current_function in
    record {
      linenum = linenum;
      category = codes "readability/fn_size";
      confidence = error_level base s.lines_in_function;
      message =
          codes "Small and focused functions are preferred: "
          ++ s.current_function
          ++ codes " has "
          ++ show s.lines_in_function
          ++ codes " non-comment lines (error triggered by exceeding "
          ++ show (base * 2 ^ verbose_level)
          ++ codes " lines).";
    }

-- `Check`, at a verbosity that is not negative.
pub check : ℕ → ℕ → FunctionState → Log
unfolding base_trigger long_function
check verbose_level linenum s =
    if ltb (base_trigger s.current_function * 2 ^ verbose_level) s.lines_in_function
    then report (long_function verbose_level linenum s) ∷ []
    else []

-- `End`
pub end_ : FunctionState → FunctionState
end_ s = record s { in_a_function = false }

-- (\w(\w|::|\*|\&|\s)*)\(
declarator : Regex
declarator = all_of (
    group 1 (
      all_of
        (word ∷ star (group 2 (any_of (word ∷ lit "::" ∷ lit "*" ∷ lit "&" ∷ space ∷ []))) ∷ []))
    ∷ lit "("
    ∷ [])

-- [A-Z_]+$
macro_name : Regex
macro_name = all_of (plus (one_in "ABCDEFGHIJKLMNOPQRSTUVWXYZ_") ∷ eol ∷ [])

-- ((\w|:)*)\(
called_name : Regex
called_name = all_of (group 1 (star (group 2 (alt word (lit ":")))) ∷ lit "(" ∷ [])

-- (\(.*\))
parameters : Regex
parameters = group 1 (all_of (lit "(" ∷ star dot ∷ lit ")" ∷ []))

-- ^\}\s*$
function_end : Regex
function_end = all_of (bol ∷ lit "}" ∷ star space ∷ eol ∷ [])

-- ^\s*$
blank_line : Regex
blank_line = all_of (bol ∷ star space ∷ eol ∷ [])

last_word : List Text → Text
last_word [] = []
last_word (w ∷ []) = w
last_word (v ∷ w ∷ ws) = last_word (w ∷ ws)

-- `starting_func`
pub starts_function : Text → Bool
unfolding declarator macro_name last_word
starts_function line = elim (match declarator line) [
  | none ↦ false
  | some m ↦
      let name = last_word (words (elim (group_of 1 m) [ none ↦ [] | some t ↦ t ])) in
      text_eq name (codes "TEST") || text_eq name (codes "TEST_F") || not (matches macro_name name)
]

-- How the search for the start of a body ends: at a declaration or trivial function, at a brace,
-- with the lines so far joined, or nowhere.
pub data Start : Type 0 where
  trivial : Start
  opens : Text → Start
  nowhere : Start

-- The loop over the lines from the one that starts the function on.
pub find_start : List Text → Text → Start
find_start [] joined = nowhere
find_start (line ∷ lines) joined =
    let joined' = joined ++ (codes " " ++ lstrip line) in
    let later = find_start lines joined' in
    if finds (one_in ";}") line
    then trivial
    else if finds (lit "{") line
    then opens joined'
    else later

-- The name under which the body is counted. The search for the name succeeds on every line that
-- starts a function, since that has a parenthesis.
pub function_name : Text → Text → Text
unfolding called_name parameters
function_name line joined =
    let function : Text = elim (search called_name line) [
      | none ↦ []
      | some m ↦ elim (group_of 1 m) [ none ↦ [] | some t ↦ t ]
    ] in
    if matches (lit "TEST") function
    then elim (search parameters joined) [
      | none ↦ function
      | some m ↦ function ++ elim (group_of 1 m) [ none ↦ [] | some t ↦ t ]
    ]
    else function ++ codes "()"

-- What `CheckForFunctionLengths` takes a line for.
pub data FunctionLine : Type 0 where
  begins : Text → FunctionLine
  declares lacks_body ends counts blank : FunctionLine

pub function_line : CleansedLines → ℕ → FunctionLine
unfolding starts_function find_start function_name function_end blank_line
function_line clean_lines linenum =
    let line = line_at clean_lines.lines linenum in
    let started : FunctionLine = elim (find_start (drop linenum clean_lines.lines) []) [
      | trivial ↦ declares
      | opens joined ↦ begins (function_name line joined)
      | nowhere ↦ lacks_body
    ] in
    if starts_function line
    then started
    else if matches function_end line
    then ends
    else if matches blank_line line
    then blank
    else counts

pub apply_line : ℕ → ℕ → FunctionLine → FunctionState → FunctionState × Log
unfolding begin count_line check end_
apply_line verbose_level linenum (begins name) s = (begin name s, [])
apply_line verbose_level linenum declares s = (s, [])
apply_line verbose_level linenum lacks_body s = (
  s,
  report_at linenum (codes "readability/fn_size") 5
        (codes "Lint failed to find start of function body.")
      ∷ [],
)
apply_line verbose_level linenum ends s = (end_ s, check verbose_level linenum s)
apply_line verbose_level linenum counts s = (count_line s, [])
apply_line verbose_level linenum blank s = (s, [])

-- `CheckForFunctionLengths`
unfoldable pub check_for_function_lengths :
    ℕ → CleansedLines → ℕ → FunctionState → FunctionState × Log
unfolding function_line apply_line
check_for_function_lengths verbose_level clean_lines linenum s =
    apply_line verbose_level linenum (function_line clean_lines linenum) s
