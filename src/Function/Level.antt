-- ===== src/Function/Level.antt =====
-- The confidence of an error about a long function.
use native.Mathlib.Nat.{pow-suc}
use front_server.Common.{
  ℕ, zero, suc, ◌*◌, ◌/◌, ◌^◌, ◌≤◌, ◌<◌, ◌≡◌, min, refl, ◌⊎◌, inl, inr, [], ◌∷◌, ltb, Bool-cases,
  arith, Text,
}
use front_server.Lint.{report, Report}
use front_server.Function.{
  FunctionState, log2_loop, floor_log2, base_trigger, error_level, long_function, check,
}

pow_pos : (v : ℕ) → 0 < 2 ^ v
pow_pos zero = omega arith
pow_pos (suc v) = omega (arith, pow-suc 2 v, pow_pos v)

log2_loop-ge : (v fuel n : ℕ) → 2 ^ v ≤ n → n ≤ fuel → v ≤ log2_loop fuel n
unfolding log2_loop
log2_loop-ge zero fuel n h fits = omega arith
log2_loop-ge (suc v) zero n h fits = absurd (omega (arith, pow_pos (suc v)))
log2_loop-ge (suc v) (suc fuel) n h fits =
    let big : 2 * 2 ^ v ≤ n = omega (arith, pow-suc 2 v) in
    ground (arith, pow_pos v, log2_loop-ge v fuel (n / 2) (omega arith) (omega (arith, pow_pos v)))

-- What the loop returns is the exponent of a power of two that is not above `n`.
log2_loop-le : (fuel n : ℕ) → 0 < n → n ≤ fuel → 2 ^ log2_loop fuel n ≤ n
unfolding log2_loop
log2_loop-le zero n h fits = absurd (omega arith)
log2_loop-le (suc fuel) n h fits = elim (Bool-cases (ltb n 2)) [
  | inl small ↦ rw small (omega arith)
  | inr big ↦
      let two : 2 ≤ n = ground arith in
      rw (big, pow-suc) (omega (arith, log2_loop-le fuel (n / 2) (omega arith) (omega arith)))
]

-- `floor_log2` is the exponent of the greatest power of two that is not above `n`.
pub floor_log2_lem :
    (n : ℕ) → 0 < n → (2 ^ floor_log2 n ≤ n) × ((v : ℕ) → 2 ^ v ≤ n → v ≤ floor_log2 n)
unfolding floor_log2
floor_log2_lem n h = (log2_loop-le n n h (omega arith), λ v p. log2_loop-ge v n n p (omega arith))

base-pos : (function : Text) → 0 < base_trigger function
unfolding base_trigger
base-pos function = ground arith

pow_le_div : (b v n : ℕ) → 0 < b → b * 2 ^ v < n → 2 ^ v ≤ n / b
pow_le_div b v n h p = grind arith

level_bounds :
    (verbose base lines : ℕ)
    → 0 < base
    → base * 2 ^ verbose < lines
    → (min verbose 5 ≤ error_level base lines) × (error_level base lines ≤ 5)
unfolding error_level
level_bounds verbose base lines h p =
    let quotient : 2 ^ verbose ≤ lines / base = pow_le_div base verbose lines h p in
    let pos : 0 < lines / base = omega (arith, pow_pos verbose) in
    omega (arith, (floor_log2_lem (lines / base) pos).1 verbose quotient)

-- `Check` is silent on a function of up to the base trigger doubled `verbose` times lines. On a
-- longer one it makes one report, on the given line, whose confidence is at most 5 and not below
-- the verbosity, or is 5 if the verbosity is higher than that.
pub check-level :
    (verbose linenum : ℕ) (s : FunctionState)
    → let trigger = base_trigger s.current_function * 2 ^ verbose in
      ((s.lines_in_function ≤ trigger) × (check verbose linenum s ≡ []))
      ⊎ ((trigger < s.lines_in_function)
          × ((r : Report) × (check verbose linenum s ≡ report r ∷ [])
              × (r.linenum ≡ linenum)
              × (min verbose 5 ≤ r.confidence)
              × (r.confidence ≤ 5)))
unfolding check long_function
check-level verbose linenum s =
    let trigger : ℕ = base_trigger s.current_function * 2 ^ verbose in
    elim (Bool-cases (ltb trigger s.lines_in_function)) [
      | inr short ↦ inl (ground arith, rw short)
      | inl long ↦
          let p : trigger < s.lines_in_function = ground arith in
          let (low, high) =
            level_bounds verbose (base_trigger s.current_function) s.lines_in_function
              (base-pos s.current_function) p in
          inr (p, (long_function verbose linenum s, rw long, refl, low, high))
    ]
