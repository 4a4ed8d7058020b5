-- ===== src/Language/Arrays.antt =====
-- The part of `CheckLanguage` of utils/tools/cpplint.py about arrays of variable length.
use front_server.Common.{
  ℕ, Bool, true, false, ◌&&◌, ◌||◌, Option, none, some, List, [], ◌∷◌, ◌++◌, not, if◌then◌else◌,
  Text, codes, text_eq, contains, starts_with, lstrip_char, rstrip_char,
}
use front_server.Common.Regex.{
  Regex, group, star, plus, optional, space, word, dot, lit, sat, alt, all_of, any_of, finds,
  matches, match, group_of,
}
use front_server.Common.Patterns.{digit, in_range, upper_or, split_by}
use front_server.Lint.{Log, report_at, report_if}

-- \s*(.+::)?(\w+) [a-z]\w*\[(.+)];
array_declaration : Regex
array_declaration = all_of (
    star space
    ∷ optional (all_of (plus dot ∷ lit "::" ∷ []))
    ∷ group 2 (plus word)
    ∷ lit " "
    ∷ sat (in_range b'a' b'z')
    ∷ star word
    ∷ lit "["
    ∷ group 3 (plus dot)
    ∷ lit "];"
    ∷ [])

-- \s|\+|\-|\*|\/|<<|>>]
array_separator : Regex
array_separator = any_of (space ∷ lit "+" ∷ lit "-" ∷ lit "*" ∷ lit "/" ∷ lit "<<" ∷ lit ">>]" ∷ [])

-- sizeof\(.+\)
size_call : Regex
size_call = all_of (lit "sizeof(" ∷ plus dot ∷ lit ")" ∷ [])

-- arraysize\(\w+\)
array_size_call : Regex
array_size_call = all_of (lit "arraysize(" ∷ plus word ∷ lit ")" ∷ [])

-- The patterns that a constant token matches: \d+, 0[xX][0-9a-fA-F]+, k[A-Z0-9]\w*,
-- (.+::)?k[A-Z0-9]\w* and (.+::)?[A-Z][A-Z0-9_]*
constant_token : Regex
unfolding digit upper_or
constant_token = any_of (
    plus digit
    ∷ all_of (
        lit "0"
        ∷ alt (lit "x") (lit "X")
        ∷ plus (sat (λ c. in_range b'0' b'9' c || in_range b'A' b'F' c || in_range b'a' b'f' c))
        ∷ [])
    ∷ all_of (lit "k" ∷ upper_or "0123456789" ∷ star word ∷ [])
    ∷ all_of (
        optional (all_of (plus dot ∷ lit "::" ∷ []))
        ∷ lit "k"
        ∷ upper_or "0123456789"
        ∷ star word
        ∷ [])
    ∷ all_of (
        optional (all_of (plus dot ∷ lit "::" ∷ []))
        ∷ upper_or ""
        ∷ star (upper_or "0123456789_")
        ∷ [])
    ∷ [])

-- What the loop takes a token for.
pub data Token : Type 0 where
  constant size_word variable : Token

unfoldable pub token_of : Text → Token
unfolding size_call array_size_call constant_token
token_of tok =
    let bare = rstrip_char b')' (lstrip_char b'(' tok) in
    if finds size_call tok || finds array_size_call tok
    then constant
    else if text_eq bare [] || matches constant_token bare
    then constant
    else if starts_with bare (codes "sizeof")
    then size_word
    else variable

-- The loop over the tokens; the flag is `skip_next`, the result `is_const`.
unfoldable pub is_const_size : Bool → List Token → Bool
is_const_size skip_next [] = true
is_const_size true (tok ∷ tokens) = is_const_size false tokens
is_const_size false (constant ∷ tokens) = is_const_size false tokens
is_const_size false (size_word ∷ tokens) = is_const_size true tokens
is_const_size false (variable ∷ tokens) = false

unfoldable pub tokens_of : List Text → List Token
unfolding token_of
tokens_of [] = []
tokens_of (tok ∷ toks) = token_of tok ∷ tokens_of toks

array_error : ℕ → Option Text → Option Text → Log
unfolding array_separator tokens_of is_const_size
array_error linenum (some type) (some size) =
    report_if
      (not (text_eq type (codes "return"))
        && not (text_eq type (codes "delete"))
        && not (contains size (codes "]"))
        && not (is_const_size false (tokens_of (split_by array_separator size))))
      (report_at linenum (codes "runtime/arrays") 1 (
        codes "Do not use variable-length arrays.  Use an appropriately named "
        ++ codes "('k' followed by CamelCase) compile-time constant for the size."))
array_error linenum _ _ = []

unfoldable pub check_arrays : ℕ → Text → Log
unfolding array_declaration array_error
check_arrays linenum line = elim (match array_declaration line) [
  | none ↦ []
  | some m ↦ array_error linenum (group_of 2 m) (group_of 3 m)
]
