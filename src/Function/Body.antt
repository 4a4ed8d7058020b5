-- ===== src/Function/Body.antt =====
-- The count of the lines of a function's body.
use front_server.Common.{
  ℕ, ◌+◌, ◌≡◌, ap, ◌∙◌, Bool, true, false, List, [], ◌∷◌, ◌++◌, arith, All, Text,
}
use front_server.Lint.{Log}
use front_server.Function.{
  FunctionState, FunctionLine, begins, declares, lacks_body, ends, counts, blank, begin, count_line,
  end_, check, apply_line,
}

-- The lines of a file with their numbers, one after another.
abbrev pub run_lines : ℕ → List (ℕ × FunctionLine) → FunctionState → FunctionState × Log
run_lines verbose [] s = (s, [])
run_lines verbose ((n, k) ∷ ks) s =
    let r = apply_line verbose n k s in let q = run_lines verbose ks r.0 in (q.0, r.1 ++ q.1)

-- A line that neither starts a function with a body nor ends one.
abbrev pub is_inner : FunctionLine → Bool
is_inner (begins _) = false
is_inner ends = false
is_inner _ = true

-- How many of the lines are code.
abbrev pub code_lines : List (ℕ × FunctionLine) → ℕ
code_lines [] = 0
code_lines ((n, counts) ∷ ks) = code_lines ks + 1
code_lines ((n, _) ∷ ks) = code_lines ks

abbrev in_function : ℕ → Text → FunctionState
in_function lines name = record {
  in_a_function = true;
  lines_in_function = lines;
  current_function = name;
}

run_lines-inner :
    (verbose : ℕ) (ks : List (ℕ × FunctionLine)) (lines : ℕ) (name : Text)
    → All (λ k. is_inner k.1 ≡ true) ks
    → (run_lines verbose ks (in_function lines name)).0 ≡ in_function (lines + code_lines ks) name
unfolding apply_line
run_lines-inner verbose [] lines name h = ap (λ (n : ℕ). in_function n name) (omega arith)
run_lines-inner verbose ((n, begins b) ∷ ks) lines name h = absurd (ground (arith, h.0))
run_lines-inner verbose ((n, ends) ∷ ks) lines name h = absurd (ground (arith, h.0))
run_lines-inner verbose ((n, declares) ∷ ks) lines name h =
    run_lines-inner verbose ks lines name h.1
run_lines-inner verbose ((n, lacks_body) ∷ ks) lines name h =
    run_lines-inner verbose ks lines name h.1
run_lines-inner verbose ((n, blank) ∷ ks) lines name h = run_lines-inner verbose ks lines name h.1
run_lines-inner verbose ((n, counts) ∷ ks) lines name h =
    unfold count_line in
    run_lines-inner verbose ks (lines + 1) name h.1
    ∙ ap (λ (m : ℕ). in_function m name) (omega arith)

-- At the end of a function, `Check` sees its name and the number of the lines of code since its
-- start, whatever was counted before and whatever other lines that neither start nor end a
-- function lie between; and the function is left.
pub apply_line-ends :
    (verbose linenum endnum : ℕ) (name : Text) (body : List (ℕ × FunctionLine)) (s : FunctionState)
    → All (λ k. is_inner k.1 ≡ true) body
    → apply_line verbose endnum ends (run_lines verbose ((linenum, begins name) ∷ body) s).0 ≡ (
      record {
        in_a_function = false;
        lines_in_function = code_lines body;
        current_function = name;
      },
      check verbose endnum (record {
        in_a_function = true;
        lines_in_function = code_lines body;
        current_function = name;
      }),
    )
unfolding apply_line begin end_
apply_line-ends verbose linenum endnum name body s h =
    ap (λ (t : FunctionState). (end_ t, check verbose endnum t))
      (run_lines-inner verbose body 0 name h ∙ ap (λ (m : ℕ). in_function m name) (omega arith))
