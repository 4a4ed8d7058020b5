-- ===== src/Nesting/Braces.antt =====
-- How the last loop of `_NestingState.Update` consumes the braces of a line.
use mathlib.Core.List.{append_assoc, append-nil}
use front_server.Common.{
  ℕ, zero, suc, ◌+◌, ◌<◌, ◌≡◌, ◌≢◌, refl, ap, ◌∙◌, inl, inr, Bool, true, [], ◌∷◌, ◌++◌,
  if◌then◌else◌, Bool-cases, arith, length, length-append, All-append, All-append_right, Text,
  codes,
}
use front_server.Common.Regex.{matches, in_set}
use front_server.Lint.{Log}
use front_server.Cleanse.{CleansedLines}
use front_server.Expression.Brackets.{Balanced, nil, plain, nested}
use front_server.Nesting.Patterns.{match_asm}
use front_server.Nesting.Tokens.{is_token, IsFree, IsLine, first_token-none, first_token-some}
use front_server.Nesting.{
  Stack, BlockInfo, init_block, block, no_asm, block_asm, seen_open_brace, check_end, consume_token,
  consume_tokens,
}

module _ (clean_lines : CleansedLines) (linenum : ℕ) where
  consume_tokens-step :
      (fuel : ℕ) (s : Text) (c : ℕ) (rest : Text) (stack : Stack)
      → IsFree s
      → is_token c ≡ true
      → IsLine rest
      → consume_tokens (suc fuel) clean_lines linenum (s ++ c ∷ rest) stack ≡ (
          let r = consume_token clean_lines linenum (matches match_asm (s ++ c ∷ rest)) c stack in
          let q = consume_tokens fuel clean_lines linenum rest r.0 in (q.0, r.1 ++ q.1))
  unfolding consume_tokens
  consume_tokens-step fuel s c rest stack h t l =
      let (m, e, g1, g2) = first_token-some s c rest h t l in rw (consume_tokens, e, g1, g2)

  consume_tokens-none :
      (fuel : ℕ) (s : Text) (stack : Stack)
      → IsFree s
      → consume_tokens fuel clean_lines linenum s stack ≡ (stack, [])
  unfolding consume_tokens
  consume_tokens-none zero s stack h = refl
  consume_tokens-none (suc fuel) s stack h = rw (consume_tokens, first_token-none s h)

  -- A semicolon or a closing parenthesis behind an open brace changes nothing.
  consume_token-plain :
      (asm : Bool) (c : ℕ) (stack : Stack)
      → c ≢ b'{'
      → c ≢ b'}'
      → is_token c ≡ true
      → seen_open_brace stack ≡ true
      → consume_token clean_lines linenum asm c stack ≡ (stack, [])
  unfolding consume_token in_set codes seen_open_brace
  consume_token-plain asm c [] p q t h = ground arith
  consume_token-plain asm c (b ∷ stack) p q t h = ground arith

  abbrev pushed : Bool → BlockInfo
  pushed asm = record (init_block true block) { inline_asm = if asm then block_asm else no_asm }

  consume_token-open :
      (asm : Bool) (stack : Stack)
      → seen_open_brace stack ≡ true
      → consume_token clean_lines linenum asm b'{' stack ≡ (pushed asm ∷ stack, [])
  unfolding consume_token seen_open_brace
  consume_token-open asm [] h = refl
  consume_token-open asm (b ∷ stack) h = rw h

  seen-pushed : (asm : Bool) (stack : Stack) → seen_open_brace (pushed asm ∷ stack) ≡ true
  unfolding seen_open_brace init_block
  seen-pushed asm stack = refl

  consume_token-close :
      (asm asm' : Bool) (stack : Stack)
      → consume_token clean_lines linenum asm b'}' (pushed asm' ∷ stack) ≡ (stack, [])
  unfolding consume_token check_end init_block
  consume_token-close asm asm' stack = refl

  -- Consuming goes on behind a text, with characters that are no tokens still pending.
  abbrev Behind : Text → Stack → Stack × Log → Type 0
  Behind rest stack r =
      (fuel : ℕ) × (pending : Text) × IsFree pending
      × (length (pending ++ rest) < fuel)
      × (r ≡ consume_tokens fuel clean_lines linenum (pending ++ rest) stack)

  -- One token, whose effect on the stack is known.
  consume_tokens-token :
      (fuel : ℕ) (s : Text) (c : ℕ) (rest : Text) (stack stack' : Stack)
      → IsFree s
      → is_token c ≡ true
      → IsLine rest
      → consume_token clean_lines linenum (matches match_asm (s ++ c ∷ rest)) c stack ≡ (stack', [])
      → consume_tokens (suc fuel) clean_lines linenum (s ++ c ∷ rest) stack
        ≡ consume_tokens fuel clean_lines linenum rest stack'
  consume_tokens-token fuel s c rest stack stack' h t l e =
      consume_tokens-step fuel s c rest stack h t l ∙ rw e

  open_is_token : is_token b'{' ≡ true
  unfolding in_set codes
  open_is_token = refl

  close_is_token : is_token b'}' ≡ true
  unfolding in_set codes
  close_is_token = refl

  consume_tokens-close :
      (fuel : ℕ) (s rest : Text) (asm : Bool) (stack : Stack)
      → IsFree s
      → IsLine rest
      → length (s ++ b'}' ∷ rest) < fuel
      → (fuel' : ℕ) × (length rest < fuel')
        × (consume_tokens fuel clean_lines linenum (s ++ b'}' ∷ rest) (pushed asm ∷ stack)
            ≡ consume_tokens fuel' clean_lines linenum rest stack)
  consume_tokens-close zero s rest asm stack free l fits = absurd (omega arith)
  consume_tokens-close (suc fuel) s rest asm stack free l fits = (
    fuel,
    omega (arith, length-append s (b'}' ∷ rest)),
    consume_tokens-token fuel s b'}' rest (pushed asm ∷ stack) stack free close_is_token l
        (consume_token-close _ asm stack),
  )

  -- A line with matching braces, from a place behind an open brace.
  consume_tokens-Behind :
      {b : Text} (rest : Text) (stack : Stack) (fuel : ℕ) (s : Text)
      → Balanced b'{' b'}' b
      → seen_open_brace stack ≡ true
      → IsFree s
      → IsLine (b ++ rest)
      → length (s ++ (b ++ rest)) < fuel
      → Behind rest stack (consume_tokens fuel clean_lines linenum (s ++ (b ++ rest)) stack)
  consume_tokens-Behind rest stack zero s b seen free l fits = absurd (omega arith)
  consume_tokens-Behind rest stack (suc fuel) s nil seen free l fits =
      (suc fuel, s, free, fits, refl)
  consume_tokens-Behind rest stack (suc fuel) s (plain c {s = b} p q h) seen free l fits =
      elim (Bool-cases (is_token c)) [
        | inl token ↦
            let (fuel', pending, free', fits', same) =
              consume_tokens-Behind rest stack fuel [] h seen tt l.1
                (omega (arith, length-append s (c ∷ (b ++ rest)))) in
            (
              fuel',
              pending,
              free',
              fits',
              consume_tokens-token fuel s c (b ++ rest) stack stack free token l.1
                    (consume_token-plain _ c stack p q token seen)
                  ∙ same,
            )
        | inr other ↦
            let e : (s ++ c ∷ []) ++ (b ++ rest) ≡ s ++ (c ∷ (b ++ rest)) =
              append_assoc s (c ∷ []) (b ++ rest) in
            let (fuel', pending, free', fits', same) =
              consume_tokens-Behind rest stack (suc fuel) (s ++ c ∷ []) h seen
                (All-append _ s (c ∷ []) free (rw other refl, tt)) l.1 (rw e fits) in
            (fuel', pending, free', fits', rw e at same)
      ]
  consume_tokens-Behind rest stack (suc fuel) s (nested {s = b} {t = t} h k) seen free l fits =
      let e : (b ++ b'}' ∷ t) ++ rest ≡ b ++ (b'}' ∷ (t ++ rest)) =
        append_assoc b (b'}' ∷ t) rest in
      let after : Text = b ++ (b'}' ∷ (t ++ rest)) in
      let asm : Bool = matches match_asm (s ++ b'{' ∷ after) in
      let inner : IsLine after = rw e at l.1 in
      let last : IsLine (t ++ rest) = (All-append_right _ b (b'}' ∷ (t ++ rest)) inner).1 in
      let fits' : length after < fuel =
        omega (arith, rw e at fits, length-append s (b'{' ∷ after)) in
      let opens =
        consume_tokens-token fuel s b'{' after stack (pushed asm ∷ stack) free open_is_token inner
          (consume_token-open asm stack seen) in
      let (f1, s1, free1, fits1, same1) =
        consume_tokens-Behind (b'}' ∷ (t ++ rest)) (pushed asm ∷ stack) fuel [] h
          (seen-pushed asm stack) tt inner fits' in
      let (f2, fits2, same2) = consume_tokens-close f1 s1 (t ++ rest) asm stack free1 last fits1 in
      let (f3, s3, free3, fits3, same3) =
        consume_tokens-Behind rest stack f2 [] k seen tt last fits2 in
      (
        f3,
        s3,
        free3,
        fits3,
        ap (λ (x : Text). consume_tokens (suc fuel) clean_lines linenum (s ++ b'{' ∷ x) stack) e
            ∙ opens
            ∙ same1
            ∙ same2
            ∙ same3,
      )

  -- A line whose braces match leaves the stack of blocks as it was and reports nothing, if the
  -- innermost block has its open brace: semicolons, parentheses and all else between the braces
  -- have no effect, and the fuel is enough.
  pub consume_tokens-Balanced :
      (line : Text) (stack : Stack)
      → Balanced b'{' b'}' line
      → IsLine line
      → seen_open_brace stack ≡ true
      → consume_tokens (length line + 1) clean_lines linenum line stack ≡ (stack, [])
  consume_tokens-Balanced line stack h l seen =
      let e : line ++ [] ≡ line = append-nil line in
      let (fuel, s, free, fits, same) =
        consume_tokens-Behind [] stack (length line + 1) [] h seen tt (rw e l)
          (rw e (omega arith)) in
      rw e at same ∙ consume_tokens-none fuel (s ++ []) stack (All-append _ s [] free tt)
