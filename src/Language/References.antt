-- ===== src/Language/References.antt =====
-- The part of `CheckLanguage` of utils/tools/cpplint.py about references.
use front_server.Common.{ℕ, ◌+◌, ◌&&◌, ◌||◌, [], ◌∷◌, not, ltb, ◌==◌, Text, codes, split_on}
use front_server.Common.Regex.{
  Regex, boundary, star, plus, optional, space, word, dot, lit, none_in, one_in, sat, is_word, alt,
  all_of, any_of, finds,
}
use front_server.Common.Patterns.{count_matches}
use front_server.Lint.{Log, report_at, report_if}

-- (?:[\w:]|<[^()]*>)+
type_names : Regex
type_names = plus (
    alt (sat (λ c. is_word c || c == b':')) (all_of (lit "<" ∷ star (none_in "()") ∷ lit ">" ∷ [])))

-- (\s?&|&\s?)
ampersand : Regex
ampersand = alt (all_of (optional space ∷ lit "&" ∷ [])) (all_of (lit "&" ∷ optional space ∷ []))

-- \([^()]*\b(?:[\w:]|<[^()]*>)+(\s?&|&\s?)\w+
any_reference : Regex
unfolding type_names ampersand
any_reference =
    all_of (lit "(" ∷ star (none_in "()") ∷ boundary ∷ type_names ∷ ampersand ∷ plus word ∷ [])

-- \([^()]*\bconst\s+(?:typename\s+)?(?:struct\s+)?(?:[\w:]|<[^()]*>)+(\s?&|&\s?)\w+
const_before : Regex
unfolding type_names ampersand
const_before = all_of (
    lit "("
    ∷ star (none_in "()")
    ∷ boundary
    ∷ lit "const"
    ∷ plus space
    ∷ optional (all_of (lit "typename" ∷ plus space ∷ []))
    ∷ optional (all_of (lit "struct" ∷ plus space ∷ []))
    ∷ type_names
    ∷ ampersand
    ∷ plus word
    ∷ [])

-- \([^()]*\b(?:[\w:]|<[^()]*>)+\s+const(\s?&|&\s?)[\w]+
const_behind : Regex
unfolding type_names ampersand
const_behind = all_of (
    lit "("
    ∷ star (none_in "()")
    ∷ boundary
    ∷ type_names
    ∷ plus space
    ∷ lit "const"
    ∷ ampersand
    ∷ plus word
    ∷ [])

-- (for|swap|Swap|operator[<>][<>])\s*\(\s*(?:(?:typename\s*)?[\w:]|<.*>)+\s*&
reference_allowed : Regex
reference_allowed = all_of (
    any_of (
      lit "for"
      ∷ lit "swap"
      ∷ lit "Swap"
      ∷ all_of (lit "operator" ∷ one_in "<>" ∷ one_in "<>" ∷ [])
      ∷ [])
    ∷ star space
    ∷ lit "("
    ∷ star space
    ∷ plus (
        alt
          (all_of (
            optional (all_of (lit "typename" ∷ star space ∷ []))
            ∷ sat (λ c. is_word c || c == b':')
            ∷ []))
          (all_of (lit "<" ∷ star dot ∷ lit ">" ∷ [])))
    ∷ star space
    ∷ lit "&"
    ∷ [])

-- `line.split('{', 1)[0]`
abbrev before_brace : Text → Text
before_brace line = elim (split_on b'{' line) [ [] ↦ [] | part ∷ _ ↦ part ]

unfoldable pub check_references : ℕ → Text → Log
unfolding any_reference const_before const_behind reference_allowed
check_references linenum line =
    let fnline = before_brace line in
    report_if
      (ltb (count_matches const_before fnline + count_matches const_behind fnline)
          (count_matches any_reference fnline)
        && not (finds reference_allowed fnline))
      (report_at linenum (codes "runtime/references") 2
        (codes "Is this a non-const reference? If so, make const or use a pointer."))
