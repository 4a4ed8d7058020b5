-- ===== src/Spacing/Start.antt =====
-- What becomes of the error for a blank line at the start of a block.
use front_server.Common.{
  ℕ, ◌-◌, ◌≡◌, ◌≢◌, refl, true, false, some, List, [], inl, inr, arith, Text, codes, find,
  Option-cases, Bool-cases, ltb, split_last,
}
use front_server.Cleanse.{line_at}
use front_server.Spacing.{check_block_start, is_exception, is_extern_found}

at_begin : (line : Text) → is_extern_found line ≡ false → find line (codes "extern \"C\"") ≡ some 0
unfolding is_extern_found
at_begin line h = ground (arith, h)

quiet-exception :
    (elided : List Text) (linenum : ℕ) (prev_line : Text)
    → is_exception elided linenum prev_line ≡ true
    → check_block_start elided linenum prev_line ≡ []
unfolding check_block_start
quiet-exception elided linenum prev_line h = elim (Option-cases (split_last b'{' prev_line)) [
  | inl missing ↦ rw (check_block_start, missing) refl
  | inr ((front, back), found) ↦ ground (arith, found, h)
]

is_exception-first :
    (elided : List Text) (linenum : ℕ) (prev_line : Text)
    → ltb 2 linenum ≡ false
    → is_exception elided linenum prev_line ≡ true
unfolding is_exception is_extern_found codes find
is_exception-first elided linenum prev_line h = ground (arith, h)

is_exception-found :
    (elided : List Text) (linenum : ℕ) (prev_line : Text)
    → ltb 2 linenum ≡ true
    → is_extern_found (line_at elided (linenum - 2)) ≡ true
    → is_exception elided linenum prev_line ≡ true
unfolding is_exception
is_exception-found elided linenum prev_line h e = ground (arith, h, e)

-- A blank line is reported at the start of a block only if it is not one of the first two lines and
-- the line two above begins with `extern "C"`: for any other, `find` returns -1 or a later position,
-- which the code takes for true, as an exception.
pub check_block_start-extern :
    (elided : List Text) (linenum : ℕ) (prev_line : Text)
    → check_block_start elided linenum prev_line ≢ []
    → (ltb 2 linenum ≡ true) × (find (line_at elided (linenum - 2)) (codes "extern \"C\"") ≡ some 0)
check_block_start-extern elided linenum prev_line loud = elim (Bool-cases (ltb 2 linenum)) [
  | inr first ↦ absurd (
      loud (
        quiet-exception elided linenum prev_line
          (is_exception-first elided linenum prev_line first)))
  | inl later ↦ elim (Bool-cases (is_extern_found (line_at elided (linenum - 2)))) [
    | inl found ↦ absurd (
        loud (
          quiet-exception elided linenum prev_line
            (is_exception-found elided linenum prev_line later found)))
    | inr missing ↦ (later, at_begin (line_at elided (linenum - 2)) missing)
  ]
]
