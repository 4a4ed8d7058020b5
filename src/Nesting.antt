-- ===== src/Nesting.antt =====
-- The nesting of blocks in utils/tools/cpplint.py: `_BlockInfo`, `_ClassInfo`, `_NamespaceInfo`,
-- `_PreprocessorInfo` and `_NestingState`. The top of a stack is the head of its list here.
mod Info
pub mod Patterns
pub mod Preprocessor
pub mod Tokens
pub mod Braces
mod Examples
unfoldable pub use Info.*
use Patterns.{
  if_directive, else_directive, endif_directive, match_asm, bare_colon, any_namespace_comment,
  namespace_comment, anonymous_comment, namespace_declaration, class_declaration, access_label,
  first_token,
}
use front_server.Common.{
  ℕ, zero, suc, ◌+◌, ◌-◌, Bool, true, false, not, ◌&&◌, ◌||◌, Option, none, some, List, [], ◌∷◌,
  ◌++◌, ltb, ◌==◌, if◌then◌else◌, length, drop, get_or, Text, codes, text_eq, find, count,
}
use front_server.Common.Int.{ℤ, pos, ◌+ℤ◌, sub_ℕ, eqb_ℤ}
use front_server.Common.Regex.{Found, matches, finds, match, group_of}
use front_server.Lint.{Log, report_at}
use front_server.Cleanse.{CleansedLines, line_at}

-- `_PreprocessorInfo`
pub record PreprocessorInfo : Type 0 where
  pub stack_before_if : Stack
  pub stack_before_else : Stack
  pub seen_else : Bool

-- `_NestingState`
pub record NestingState : Type 0 where
  pub stack : Stack
  pub pp_stack : List PreprocessorInfo

-- `_NestingState.__init__`
abbrev pub init_nesting : NestingState
init_nesting = record { stack = []; pp_stack = [] }

-- `SeenOpenBrace`
pub seen_open_brace : Stack → Bool
seen_open_brace [] = true
seen_open_brace (b ∷ stack) = b.seen_open_brace

-- `InNamespaceBody`
unfoldable pub in_namespace_body : Stack → Bool
in_namespace_body [] = false
in_namespace_body (b ∷ stack) = elim b.kind [
  | namespace_block _ ↦ true
  | class_block _ ↦ false
  | block ↦ false
]

-- What `UpdatePreprocessor` takes a line for.
pub data Directive : Type 0 where
  begins alternates ends other : Directive

pub directive : Text → Directive
directive line =
    if matches if_directive line
    then begins
    else if matches else_directive line
    then alternates
    else if matches endif_directive line
    then ends
    else other

-- The branches of `UpdatePreprocessor`
pub apply_directive : Directive → Stack → List PreprocessorInfo → NestingState
apply_directive begins stack pp_stack = record {
  stack = stack;
  pp_stack =
      record { stack_before_if = stack; stack_before_else = []; seen_else = false } ∷ pp_stack;
}
apply_directive alternates stack [] = record { stack = stack; pp_stack = [] }
apply_directive alternates stack (p ∷ pp_stack) = record {
  stack = p.stack_before_if;
  pp_stack =
      (if p.seen_else then p else record p { seen_else = true; stack_before_else = stack })
      ∷ pp_stack;
}
apply_directive ends stack [] = record { stack = stack; pp_stack = [] }
apply_directive ends stack (p ∷ pp_stack) = record {
  stack = if p.seen_else then p.stack_before_else else stack;
  pp_stack = pp_stack;
}
apply_directive other stack pp_stack = record { stack = stack; pp_stack = pp_stack }

-- `UpdatePreprocessor`
pub update_preprocessor : Text → NestingState → NestingState
unfolding directive apply_directive
update_preprocessor line s = apply_directive (directive line) s.stack s.pp_stack

-- The state of inline assembly behind a line that changes the depth of the parentheses.
pub next_asm : Bool → Bool → ℤ → InlineAsm → InlineAsm
next_asm changed starts open_parentheses inside_asm =
    if eqb_ℤ open_parentheses (pos 0) then end_asm else inside_asm
next_asm changed starts open_parentheses block_asm = block_asm
next_asm changed starts open_parentheses _ =
    if changed && eqb_ℤ open_parentheses (pos 1) && starts then inside_asm else no_asm

-- The count of parentheses in `Update`.
pub count_parentheses : Text → Stack → Stack
unfolding next_asm
count_parentheses line [] = []
count_parentheses line (b ∷ stack) =
    let depth_change = sub_ℕ (count b'(' line) (count b')' line) in
    let open_now = b.open_parentheses +ℤ depth_change in
    record b {
      open_parentheses = open_now;
      inline_asm =
          next_asm (not (eqb_ℤ depth_change (pos 0))) (matches match_asm line) open_now
            b.inline_asm;
    }
    ∷ stack

-- `m.group(n)` of a group that took part.
pub group_text : ℕ → Found → Text
group_text n m = elim (group_of n m) [ none ↦ [] | some t ↦ t ]

-- The loop of `Update` that consumes namespace declarations: the stack, and what is left of the
-- line. Each round consumes a word, so the length of the line is fuel enough.
pub consume_namespaces : ℕ → ℕ → Text → Stack → Stack × Text
unfolding init_namespace group_text
consume_namespaces zero linenum line stack = (stack, line)
consume_namespaces (suc fuel) linenum line stack = elim (match namespace_declaration line) [
  | none ↦ (stack, line)
  | some m ↦
      let new = init_namespace (group_of 1 m) linenum in
      let rest = group_text 2 m in
      elim (find rest (codes "{")) [
        | none ↦ consume_namespaces fuel linenum rest (new ∷ stack)
        | some i ↦
            consume_namespaces fuel linenum (drop (i + 1) rest)
              (record new { seen_open_brace = true } ∷ stack)
      ]
]

abbrev no_open_parentheses : Stack → Bool
no_open_parentheses [] = true
no_open_parentheses (b ∷ stack) = eqb_ℤ b.open_parentheses (pos 0)

-- The look of `Update` for a class declaration.
pub consume_class : CleansedLines → ℕ → Text → Stack → Stack × Text
unfolding init_class group_text
consume_class clean_lines linenum line stack = elim (match class_declaration line) [
  | none ↦ (stack, line)
  | some m ↦
      if no_open_parentheses stack
      then (
        init_class (group_text 4 m) (group_text 2 m) clean_lines linenum ∷ stack,
        group_text 5 m,
      )
      else (stack, line)
]

-- The call of `CheckBegin` in `Update`.
pub begin_block : CleansedLines → ℕ → Stack → Stack
unfolding check_begin
begin_block clean_lines linenum [] = []
begin_block clean_lines linenum (b ∷ stack) =
    if b.seen_open_brace
    then b ∷ stack
    else record b { kind = check_begin b.kind clean_lines linenum } ∷ stack

-- The access control in `Update`.
pub update_access : Text → Stack → Stack
unfolding group_text
update_access line [] = []
update_access line (b ∷ stack) = elim b.kind [
  | class_block c ↦ elim (match access_label line) [
    | none ↦ b ∷ stack
    | some m ↦ record b { kind = class_block (record c { access = group_text 1 m }) } ∷ stack
  ]
  | namespace_block _ ↦ b ∷ stack
  | block ↦ b ∷ stack
]

-- One round of the last loop of `Update`, for the token `{`, `;`, `)` or `}`. The flag says that
-- the line begins inline assembly, the log is that of `CheckEnd`.
pub consume_token : CleansedLines → ℕ → Bool → ℕ → Stack → Stack × Log
unfolding init_block check_end
consume_token clean_lines linenum asm token [] =
    if token == b'{'
    then (
      record (init_block true block) { inline_asm = if asm then block_asm else no_asm } ∷ [],
      [],
    )
    else ([], [])
consume_token clean_lines linenum asm token (b ∷ stack) =
    if token == b'{'
    then (if b.seen_open_brace
        then (
          record (init_block true block) { inline_asm = if asm then block_asm else no_asm }
              ∷ b
              ∷ stack,
          [],
        )
        else (record b { seen_open_brace = true } ∷ stack, []))
    else if token == b';' || token == b')'
    then (if b.seen_open_brace then (b ∷ stack, []) else (stack, []))
    else (stack, check_end b.kind clean_lines linenum)

-- The last loop of `Update`. Each round consumes a token.
pub consume_tokens : ℕ → CleansedLines → ℕ → Text → Stack → Stack × Log
unfolding consume_token group_text
consume_tokens zero clean_lines linenum line stack = (stack, [])
consume_tokens (suc fuel) clean_lines linenum line stack = elim (match first_token line) [
  | none ↦ (stack, [])
  | some m ↦
      let token = get_or (group_text 1 m) 0 0 in
      let (stack', log) = consume_token clean_lines linenum (matches match_asm line) token stack in
      let (stack'', log') = consume_tokens fuel clean_lines linenum (group_text 2 m) stack' in
      (stack'', log ++ log')
]

-- `Update` behind its call of `UpdatePreprocessor`
pub update_stack : CleansedLines → ℕ → Stack → Stack × Log
unfolding count_parentheses consume_namespaces consume_class begin_block update_access
    consume_tokens
update_stack clean_lines linenum stack =
    let line = line_at clean_lines.elided linenum in
    let (named, line') =
      consume_namespaces (length line + 1) linenum line (count_parentheses line stack) in
    let (classed, line'') = consume_class clean_lines linenum line' named in
    let accessed = update_access line'' (begin_block clean_lines linenum classed) in
    consume_tokens (length line'' + 1) clean_lines linenum line'' accessed

-- `Update`
unfoldable pub update : CleansedLines → ℕ → NestingState → NestingState × Log
unfolding update_preprocessor update_stack
update clean_lines linenum s =
    let s' = update_preprocessor (line_at clean_lines.elided linenum) s in
    let (stack, log) = update_stack clean_lines linenum s'.stack in
    (record s' { stack = stack }, log)

-- `InnermostClass`
unfoldable pub innermost_class : Stack → Option ClassInfo
innermost_class [] = none
innermost_class (b ∷ stack) =
    let outer = innermost_class stack in
    elim b.kind [ class_block c ↦ some c | namespace_block _ ↦ outer | block ↦ outer ]

-- `CheckClassFinished`: the stack from its bottom.
unfoldable pub check_class_finished : Stack → Log
check_class_finished [] = []
check_class_finished (b ∷ stack) =
    let below = check_class_finished stack in
    elim b.kind [
      | class_block c ↦
          below
          ++ report_at c.starting_linenum (codes "build/class") 5
              (codes "Failed to find complete declaration of class " ++ c.name)
            ∷ []
      | namespace_block _ ↦ below
      | block ↦ below
    ]
