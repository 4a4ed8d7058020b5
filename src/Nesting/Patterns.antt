-- ===== src/Nesting/Patterns.antt =====
-- The patterns of utils/tools/cpplint.py that `_NestingState` matches lines with.
use front_server.Common.{◌||◌, List, [], ◌∷◌, Text, codes, is_space, ◌==◌, leb, ◌&&◌}
use front_server.Common.Regex.{
  Regex, bol, eol, boundary, alt, group, star, plus, sat, one_in, none_in, space, word, dot,
  is_word, in_set, lit, chars, optional, all_of, any_of,
}

-- ^\s*#\s*(...)\b
directive_pattern : List Regex → Regex
directive_pattern names =
    all_of (bol ∷ star space ∷ lit "#" ∷ star space ∷ any_of names ∷ boundary ∷ [])

pub if_directive : Regex
unfolding directive_pattern
if_directive = directive_pattern (lit "if" ∷ lit "ifdef" ∷ lit "ifndef" ∷ [])

pub else_directive : Regex
unfolding directive_pattern
else_directive = directive_pattern (lit "else" ∷ lit "elif" ∷ [])

pub endif_directive : Regex
unfolding directive_pattern
endif_directive = directive_pattern (lit "endif" ∷ [])

-- `_MATCH_ASM`: ^\s*(?:asm|_asm|__asm|__asm__)(?:\s+(volatile|__volatile__))?\s*[{(]
pub match_asm : Regex
match_asm = all_of (
    bol
    ∷ star space
    ∷ any_of (lit "asm" ∷ lit "_asm" ∷ lit "__asm" ∷ lit "__asm__" ∷ [])
    ∷ optional
        (all_of (plus space ∷ group 1 (any_of (lit "volatile" ∷ lit "__volatile__" ∷ [])) ∷ []))
    ∷ star space
    ∷ one_in "{("
    ∷ [])

-- (^|[^:]):($|[^:])
pub bare_colon : Regex
bare_colon = all_of (alt bol (none_in ":") ∷ lit ":" ∷ alt eol (none_in ":") ∷ [])

-- };*\s*(//|/\*).*
comment_after_brace : List Regex → Regex
comment_after_brace rest =
    all_of (lit "}" ∷ star (lit ";") ∷ star space ∷ alt (lit "//") (lit "/*") ∷ star dot ∷ rest)

-- };*\s*(//|/\*).*\bnamespace\b
pub any_namespace_comment : Regex
unfolding comment_after_brace
any_namespace_comment = comment_after_brace (boundary ∷ lit "namespace" ∷ boundary ∷ [])

-- [\*/\.\\\s]*$
comment_end : List Regex
comment_end = star (sat (λ c. in_set (codes "*/.\\") c || is_space c)) ∷ eol ∷ []

-- };*\s*(//|/\*).*\bnamespace\s+NAME[\*/\.\\\s]*$
pub namespace_comment : Text → Regex
unfolding comment_after_brace comment_end
namespace_comment name =
    comment_after_brace (boundary ∷ lit "namespace" ∷ plus space ∷ chars name ∷ comment_end)

-- };*\s*(//|/\*).*\bnamespace[\*/\.\\\s]*$
pub anonymous_comment : Regex
unfolding comment_after_brace comment_end
anonymous_comment = comment_after_brace (boundary ∷ lit "namespace" ∷ comment_end)

-- ^\s*namespace\b\s*([:\w]+)?(.*)$
pub namespace_declaration : Regex
namespace_declaration = all_of (
    bol
    ∷ star space
    ∷ lit "namespace"
    ∷ boundary
    ∷ star space
    ∷ optional (group 1 (plus (sat (λ c. c == b':' || is_word c))))
    ∷ group 2 (star dot)
    ∷ eol
    ∷ [])

-- \s*(template\s*<[\w\s<>,:]*>\s*)?(class|struct)\s+([A-Z_]+\s+)*(\w+(?:::\w+)*)(([^=>]|<[^<>]*>)*)$
pub class_declaration : Regex
class_declaration = all_of (
    star space
    ∷ optional (
        group 1 (
          all_of (
            lit "template"
            ∷ star space
            ∷ lit "<"
            ∷ star (sat (λ c. is_word c || is_space c || in_set (codes "<>,:") c))
            ∷ lit ">"
            ∷ star space
            ∷ [])))
    ∷ group 2 (alt (lit "class") (lit "struct"))
    ∷ plus space
    ∷ star (
        group 3
          (all_of (plus (sat (λ c. (leb b'A' c && leb c b'Z') || c == b'_')) ∷ plus space ∷ [])))
    ∷ group 4 (all_of (plus word ∷ star (all_of (lit "::" ∷ plus word ∷ [])) ∷ []))
    ∷ group 5 (
        star (group 6 (alt (none_in "=>") (all_of (lit "<" ∷ star (none_in "<>") ∷ lit ">" ∷ [])))))
    ∷ eol
    ∷ [])

-- \s*(public|private|protected)\s*:
pub access_label : Regex
access_label = all_of (
    star space
    ∷ group 1 (any_of (lit "public" ∷ lit "private" ∷ lit "protected" ∷ []))
    ∷ star space
    ∷ lit ":"
    ∷ [])

-- ^[^{;)}]*([{;)}])(.*)$
unfoldable pub first_token : Regex
first_token =
    all_of (bol ∷ star (none_in "{;)}") ∷ group 1 (one_in "{;)}") ∷ group 2 (star dot) ∷ eol ∷ [])

-- Unfolding this unfolds the patterns, for a run at a concrete line.
unfoldable pub pattern_run : Unit {0}
unfolding if_directive else_directive endif_directive match_asm bare_colon any_namespace_comment
    namespace_comment anonymous_comment namespace_declaration class_declaration access_label
    first_token
pattern_run = tt
