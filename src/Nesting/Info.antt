-- ===== src/Nesting/Info.antt =====
-- What the stack of `_NestingState` holds: `_BlockInfo`, `_ClassInfo` and `_NamespaceInfo`, with their
-- checks at the begin and the end of a block.
use front_server.Nesting.Patterns.{
  bare_colon, any_namespace_comment, namespace_comment, anonymous_comment,
}
use front_server.Common.{
  ℕ, ◌+◌, ◌-◌, Bool, true, false, not, ◌&&◌, Option, none, some, List, [], ◌∷◌, ◌++◌, ltb,
  if◌then◌else◌, drop, Text, codes, text_eq, count,
}
use front_server.Common.Int.{ℤ, pos, ◌+ℤ◌, sub_ℕ, eqb_ℤ}
use front_server.Common.Regex.{matches, finds}
use front_server.Lint.{Log, report_at}
use front_server.Cleanse.{CleansedLines, line_at}

-- `_NO_ASM` and the other states of inline assembly
pub data InlineAsm : Type 0 where
  no_asm inside_asm end_asm block_asm : InlineAsm

-- The fields that `_ClassInfo` adds.
pub record ClassInfo : Type 0 where
  pub name : Text
  pub starting_linenum : ℕ
  pub is_derived : Bool
  pub access : Text
  pub last_line : ℕ

-- The fields that `_NamespaceInfo` adds.
pub record NamespaceInfo : Type 0 where
  pub name : Text
  pub starting_linenum : ℕ

-- The class of an object on the stack.
pub data BlockKind : Type 0 where
  block : BlockKind
  class_block : ClassInfo → BlockKind
  namespace_block : NamespaceInfo → BlockKind

-- `_BlockInfo`
pub record BlockInfo : Type 0 where
  pub seen_open_brace : Bool
  pub open_parentheses : ℤ
  pub inline_asm : InlineAsm
  pub kind : BlockKind

-- `_BlockInfo.__init__`
unfoldable pub init_block : Bool → BlockKind → BlockInfo
init_block seen kind = record {
  seen_open_brace = seen;
  open_parentheses = pos 0;
  inline_asm = no_asm;
  kind = kind;
}

abbrev pub Stack : Type 0
Stack = List BlockInfo

-- The loop of `_ClassInfo.__init__` over the lines from number `i` on.
pub find_last_line : List Text → ℕ → ℤ → ℕ
find_last_line [] i depth = 0
find_last_line (line ∷ lines) i depth =
    let depth' = depth +ℤ sub_ℕ (count b'{' line) (count b'}' line) in
    let later = find_last_line lines (i + 1) depth' in if eqb_ℤ depth' (pos 0) then i else later

-- `_ClassInfo.__init__`
unfoldable pub init_class : Text → Text → CleansedLines → ℕ → BlockInfo
unfolding init_block find_last_line
init_class name class_or_struct clean_lines linenum = init_block false (
    class_block (record {
      name = name;
      starting_linenum = linenum;
      is_derived = false;
      access = if text_eq class_or_struct (codes "struct") then codes "public" else codes "private";
      last_line = find_last_line (drop linenum clean_lines.elided) linenum (pos 0);
    }))

-- `_NamespaceInfo.__init__`; `none` is the name of an anonymous namespace.
unfoldable pub init_namespace : Option Text → ℕ → BlockInfo
unfolding init_block
init_namespace name linenum = init_block false (
    namespace_block
      (record { name = elim name [ none ↦ [] | some n ↦ n ]; starting_linenum = linenum }))

-- The three methods `CheckBegin`
unfoldable pub check_begin : BlockKind → CleansedLines → ℕ → BlockKind
check_begin (class_block c) clean_lines linenum =
    if finds bare_colon (line_at clean_lines.elided linenum)
    then class_block (record c { is_derived = true })
    else class_block c
check_begin kind clean_lines linenum = kind

-- The end of `_NamespaceInfo.CheckEnd`
check_end_comment : Text → Text → ℕ → Log
check_end_comment name line linenum =
    if text_eq name []
    then (if matches anonymous_comment line
        then []
        else report_at linenum (codes "readability/namespace") 5
            (codes "Namespace should be terminated with \"// namespace\"")
          ∷ [])
    else (if matches (namespace_comment name) line
        then []
        else report_at linenum (codes "readability/namespace") 5
            (codes "Namespace should be terminated with \"// namespace " ++ name ++ codes "\"")
          ∷ [])

-- The three methods `CheckEnd`. A namespace begins on no later line than it ends.
unfoldable pub check_end : BlockKind → CleansedLines → ℕ → Log
unfolding check_end_comment
check_end (namespace_block n) clean_lines linenum =
    let line = line_at clean_lines.raw_lines linenum in
    if ltb (linenum - n.starting_linenum) 10 && not (matches any_namespace_comment line)
    then []
    else check_end_comment n.name line linenum
check_end kind clean_lines linenum = []
