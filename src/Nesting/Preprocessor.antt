-- ===== src/Nesting/Preprocessor.antt =====
-- The branches of conditional directives in `_NestingState`.
use front_server.Common.{
  ℕ, ◌≡◌, refl, sym, ap, ◌∙◌, true, false, List, [], ◌∷◌, ◌++◌, if◌then◌else◌, arith,
}
use front_server.Cleanse.{CleansedLines, line_at}
use front_server.Nesting.{
  Stack, PreprocessorInfo, NestingState, Directive, begins, alternates, ends, other, directive,
  apply_directive, update_preprocessor, update_stack, update,
}

module _ (clean_lines : CleansedLines) where
  -- What a line does to the stack besides its directive.
  abbrev pub effect : ℕ → Stack → Stack
  effect linenum stack = (update_stack clean_lines linenum stack).0

  abbrev pub directive_at : ℕ → Directive
  directive_at linenum = directive (line_at clean_lines.elided linenum)

  -- The state after the lines with these numbers.
  abbrev pub update_lines : List ℕ → NestingState → NestingState
  update_lines [] s = s
  update_lines (n ∷ ns) s = update_lines ns (update clean_lines n s).0

  mutual
    -- Lines whose conditional directives match.
    pub data Nested : List ℕ → Type 0 where
      none_left : Nested []
      code : (n : ℕ) {ns : List ℕ} → directive_at n ≡ other → Nested ns → Nested (n ∷ ns)
      conditional :
          (n : ℕ) {body alternatives rest : List ℕ} (last : ℕ)
          → directive_at n ≡ begins
          → Nested body
          → Alternatives last alternatives
          → Nested rest
          → Nested (n ∷ (body ++ (alternatives ++ rest)))

    -- The other branches of a conditional, each behind its `#else` or `#elif`, and the `#endif`
    -- with the number `last`.
    pub data Alternatives : ℕ → List ℕ → Type 0 where
      endif : (n : ℕ) → directive_at n ≡ ends → Alternatives n (n ∷ [])
      branch :
          (n : ℕ) {last : ℕ} {body rest : List ℕ}
          → directive_at n ≡ alternates
          → Nested body
          → Alternatives last rest
          → Alternatives last (n ∷ (body ++ rest))

  update_lines-append :
      (ns ms : List ℕ) (s : NestingState)
      → update_lines (ns ++ ms) s ≡ update_lines ms (update_lines ns s)
  update_lines-append [] ms s = refl
  update_lines-append (n ∷ ns) ms s = update_lines-append ns ms (update clean_lines n s).0

  update_lem :
      (n : ℕ) (s : NestingState)
      → (update clean_lines n s).0 ≡ (
          let s' = apply_directive (directive_at n) s.stack s.pp_stack in
          record { stack = effect n s'.stack; pp_stack = s'.pp_stack })
  unfolding update update_preprocessor
  update_lem n s = refl

  -- The stack that an `#endif` goes on with.
  abbrev kept : PreprocessorInfo → Stack → Stack
  kept p stack = if p.seen_else then p.stack_before_else else stack

  update-endif :
      (n : ℕ) (stack : Stack) (p : PreprocessorInfo) (pp : List PreprocessorInfo)
      → directive_at n ≡ ends
      → (update clean_lines n (record { stack = stack; pp_stack = p ∷ pp })).0
        ≡ record { stack = effect n (kept p stack); pp_stack = pp }
  unfolding apply_directive
  update-endif n stack p pp e = update_lem n (record { stack = stack; pp_stack = p ∷ pp }) ∙ rw e

  -- A state with its preprocessor stack known.
  with_pp :
      (s : NestingState) (pp : List PreprocessorInfo)
      → s.pp_stack ≡ pp
      → s ≡ record { stack = s.stack; pp_stack = pp }
  with_pp s pp e = ap (λ (q : List PreprocessorInfo). record { stack = s.stack; pp_stack = q }) e

  abbrev opened : NestingState → PreprocessorInfo
  opened s = record { stack_before_if = s.stack; stack_before_else = []; seen_else = false }

  update-if :
      (n : ℕ) (s : NestingState)
      → directive_at n ≡ begins
      → (update clean_lines n s).0
        ≡ record { stack = effect n s.stack; pp_stack = opened s ∷ s.pp_stack }
  unfolding apply_directive
  update-if n s e = update_lem n s ∙ rw e

  abbrev passed : PreprocessorInfo → Stack → PreprocessorInfo
  passed p stack =
      if p.seen_else then p else record p { seen_else = true; stack_before_else = stack }

  update-else :
      (n : ℕ) (stack : Stack) (p : PreprocessorInfo) (pp : List PreprocessorInfo)
      → directive_at n ≡ alternates
      → (update clean_lines n (record { stack = stack; pp_stack = p ∷ pp })).0
        ≡ record { stack = effect n p.stack_before_if; pp_stack = passed p stack ∷ pp }
  unfolding apply_directive
  update-else n stack p pp e = update_lem n (record { stack = stack; pp_stack = p ∷ pp }) ∙ rw e

  update-other :
      (n : ℕ) (s : NestingState)
      → directive_at n ≡ other
      → (update clean_lines n s).0.pp_stack ≡ s.pp_stack
  unfolding apply_directive
  update-other n s e = ap (λ (t : NestingState). t.pp_stack) (update_lem n s) ∙ rw e

  kept-passed :
      (p : PreprocessorInfo) (stack later : Stack) → kept (passed p stack) later ≡ kept p stack
  kept-passed p stack later = ground arith

  mutual
    Nested-keeps :
        {ns : List ℕ} → Nested ns → (s : NestingState) → (update_lines ns s).pp_stack ≡ s.pp_stack
    Nested-keeps none_left s = refl
    Nested-keeps (code n e h) s = Nested-keeps h (update clean_lines n s).0 ∙ update-other n s e
    Nested-keeps (conditional n {body = body} {alternatives = alts} {rest = rest} last e h a r) s =
        ap (λ (t : NestingState). (update_lines (body ++ (alts ++ rest)) t).pp_stack)
          (update-if n s e)
        ∙ ap (λ (t : NestingState). t.pp_stack)
            (update_lines-append body (alts ++ rest)
              (record { stack = effect n s.stack; pp_stack = opened s ∷ s.pp_stack }))
        ∙ ap (λ (t : NestingState). t.pp_stack) (update_lines-append alts rest _)
        ∙ Nested-keeps r _
        ∙ ap (λ (t : NestingState). t.pp_stack)
            (ap (update_lines alts) (
                with_pp _ (opened s ∷ s.pp_stack) (
                  Nested-keeps h
                    (record { stack = effect n s.stack; pp_stack = opened s ∷ s.pp_stack })))
              ∙ Alternatives-ends a _ (opened s) s.pp_stack)

    Alternatives-ends :
        {last : ℕ} {ns : List ℕ}
        → Alternatives last ns
        → (stack : Stack) (p : PreprocessorInfo) (pp : List PreprocessorInfo)
        → update_lines ns (record { stack = stack; pp_stack = p ∷ pp })
          ≡ record { stack = effect last (kept p stack); pp_stack = pp }
    Alternatives-ends (endif n e) stack p pp = update-endif n stack p pp e
    Alternatives-ends (branch n {last = last} {body = body} {rest = rest} e h a) stack p pp =
        ap (update_lines (body ++ rest)) (update-else n stack p pp e)
        ∙ update_lines-append body rest _
        ∙ ap (update_lines rest) (
            with_pp _ (passed p stack ∷ pp) (
              Nested-keeps h
                (record { stack = effect n p.stack_before_if; pp_stack = passed p stack ∷ pp })))
        ∙ Alternatives-ends a _ (passed p stack) pp
        ∙ ap (λ (q : Stack). record { stack = effect last q; pp_stack = pp })
            (kept-passed p stack _)

  -- Over a conditional, with any number of branches and further conditionals in them, the stack of
  -- blocks is that of its first branch, to which the line of the `#endif` is then added: the other
  -- branches have no effect on it. The preprocessor stack is as before.
  pub update_lines-conditional :
      (n last : ℕ) (body alternatives : List ℕ) (s : NestingState)
      → directive_at n ≡ begins
      → Nested body
      → Alternatives last alternatives
      → update_lines (n ∷ (body ++ alternatives)) s
        ≡ record { stack = effect last (update_lines (n ∷ body) s).stack; pp_stack = s.pp_stack }
  update_lines-conditional n last body alternatives s e h a =
      let inside : NestingState = record {
        stack = effect n s.stack;
        pp_stack = opened s ∷ s.pp_stack;
      } in
      ap (update_lines (body ++ alternatives)) (update-if n s e)
      ∙ update_lines-append body alternatives inside
      ∙ ap (update_lines alternatives)
          (with_pp (update_lines body inside) (opened s ∷ s.pp_stack) (Nested-keeps h inside))
      ∙ Alternatives-ends a (update_lines body inside).stack (opened s) s.pp_stack
      ∙ ap
          (λ (t : NestingState). record {
            stack = effect last (update_lines body t).stack;
            pp_stack = s.pp_stack;
          })
          (sym (update-if n s e))
