-- ===== src/Missing/Tables.antt =====
-- The templates and functions that utils/tools/cpplint.py expects headers for.
use front_server.Common.{List, [], ◌∷◌, Text, codes}

-- `_HEADERS_CONTAINING_TEMPLATES`
abbrev pub headers_containing_templates : List (Text × List Text)
headers_containing_templates =
    (codes "<deque>", codes "deque" ∷ [])
    ∷ (
      codes "<functional>",
      codes "unary_function"
          ∷ codes "binary_function"
          ∷ codes "plus"
          ∷ codes "minus"
          ∷ codes "multiplies"
          ∷ codes "divides"
          ∷ codes "modulus"
          ∷ codes "negate"
          ∷ codes "equal_to"
          ∷ codes "not_equal_to"
          ∷ codes "greater"
          ∷ codes "less"
          ∷ codes "greater_equal"
          ∷ codes "less_equal"
          ∷ codes "logical_and"
          ∷ codes "logical_or"
          ∷ codes "logical_not"
          ∷ codes "unary_negate"
          ∷ codes "not1"
          ∷ codes "binary_negate"
          ∷ codes "not2"
          ∷ codes "bind1st"
          ∷ codes "bind2nd"
          ∷ codes "pointer_to_unary_function"
          ∷ codes "pointer_to_binary_function"
          ∷ codes "ptr_fun"
          ∷ codes "mem_fun_t"
          ∷ codes "mem_fun"
          ∷ codes "mem_fun1_t"
          ∷ codes "mem_fun1_ref_t"
          ∷ codes "mem_fun_ref_t"
          ∷ codes "const_mem_fun_t"
          ∷ codes "const_mem_fun1_t"
          ∷ codes "const_mem_fun_ref_t"
          ∷ codes "const_mem_fun1_ref_t"
          ∷ codes "mem_fun_ref"
          ∷ [],
    )
    ∷ (codes "<limits>", codes "numeric_limits" ∷ [])
    ∷ (codes "<list>", codes "list" ∷ [])
    ∷ (codes "<map>", codes "map" ∷ codes "multimap" ∷ [])
    ∷ (codes "<memory>", codes "allocator" ∷ [])
    ∷ (codes "<queue>", codes "queue" ∷ codes "priority_queue" ∷ [])
    ∷ (codes "<set>", codes "set" ∷ codes "multiset" ∷ [])
    ∷ (codes "<stack>", codes "stack" ∷ [])
    ∷ (codes "<string>", codes "char_traits" ∷ codes "basic_string" ∷ [])
    ∷ (codes "<utility>", codes "pair" ∷ [])
    ∷ (codes "<vector>", codes "vector" ∷ [])
    ∷ (codes "<ext/hash_map>", codes "__gnu_cxx::hash_map" ∷ codes "__gnu_cxx::hash_multimap" ∷ [])
    ∷ (codes "<ext/hash_set>", codes "__gnu_cxx::hash_set" ∷ codes "__gnu_cxx::hash_multiset" ∷ [])
    ∷ (codes "<ext/slist>", codes "__gnu_cxx::slist" ∷ [])
    ∷ []

-- The templates of `_re_pattern_algorithm_header`.
abbrev pub algorithm_functions : List Text
algorithm_functions =
    codes "std::copy"
    ∷ codes "std::max"
    ∷ codes "std::min"
    ∷ codes "std::min_element"
    ∷ codes "std::sort"
    ∷ codes "std::swap"
    ∷ codes "std::transform"
    ∷ []
