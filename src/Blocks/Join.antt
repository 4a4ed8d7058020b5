-- ===== src/Blocks/Join.antt =====
-- When the loop of `CheckBraces` ends that puts earlier lines in front of a block.
use front_server.Common.{
  ℕ, zero, suc, ◌+◌, ◌-◌, ◌≤◌, ◌<◌, ◌≡◌, refl, sym, ap, ◌∙◌, inl, inr, Bool, true, false, ◌&&◌,
  Option, none, some, ◌++◌, ◌==◌, if◌then◌else◌, Bool-cases, Option-cases, arith, Text, count,
}
use front_server.Common.Regex.{matches}
use front_server.Cleanse.{CleansedLines, line_at}
use front_server.Line.{get_previous_non_blank_line, is_blank_line}
use front_server.Line.Indent.{IsNearest, get_previous_non_blank_line-IsNearest}
use front_server.Blocks.{indented_block, previous_text, previous_line, previous_number, join_lines}

module _ (clean_lines : CleansedLines) where
  -- The loop goes on from the line.
  abbrev goes_on : Text → Option ℕ → Bool
  goes_on line n =
      matches indented_block line && count b';' (previous_text (previous_line clean_lines n)) == 0

  abbrev joined : Text → Option ℕ → Text
  joined line n = previous_text (previous_line clean_lines n) ++ line

  abbrev before : Option ℕ → Option ℕ
  before n = previous_number (previous_line clean_lines n)

  join_lines-step :
      (fuel : ℕ) (line : Text) (n : Option ℕ)
      → join_lines (suc fuel) clean_lines line n ≡ (
          if goes_on line n
          then join_lines fuel clean_lines (joined line n) (before n)
          else some line)
  unfolding join_lines
  join_lines-step fuel line n = refl

  -- In front of the first line nothing is left to join.
  join_lines-top :
      (fuel : ℕ) (line : Text)
      → matches indented_block line ≡ true
      → join_lines fuel clean_lines line none ≡ none
  unfolding join_lines previous_line previous_text previous_number count
  join_lines-top zero line h = refl
  join_lines-top (suc fuel) line h = rw h (join_lines-top fuel line h)

  join_lines-top_ends :
      (fuel : ℕ) (line : Text) {r : Text}
      → join_lines fuel clean_lines line none ≡ some r
      → (k : ℕ) → join_lines (suc k) clean_lines line none ≡ some r
  join_lines-top_ends fuel line {r} e k = elim (Bool-cases (matches indented_block line)) [
    | inl block ↦ absurd (ground (arith, join_lines-top fuel line block))
    | inr other ↦ ended fuel e (rw other refl)
  ]
    where
      ended :
          (fuel : ℕ)
          → join_lines fuel clean_lines line none ≡ some r
          → goes_on line none ≡ false
          → join_lines (suc k) clean_lines line none ≡ some r
      ended zero e stop = unfold join_lines in cc
      ended (suc fuel) e stop =
          rw stop at (join_lines-step k line none)
          ∙ sym (rw stop at (join_lines-step fuel line none))
          ∙ e

  before-lt : (n : ℕ) {j : ℕ} → before (some n) ≡ some j → j < n
  unfolding previous_line previous_number
  before-lt n {j} e =
      let nearest = get_previous_non_blank_line-IsNearest clean_lines n in
      elim (Option-cases (get_previous_non_blank_line clean_lines n)) [
        | inl missing ↦ absurd (ground (arith, missing))
        | inr ((line, m), found) ↦
            let h : IsNearest clean_lines.elided n (some (line, m)) = rw found at nearest in
            let same : m ≡ j = ground (arith, found) in omega (arith, h.0, same)
      ]

  -- If the loop of `CheckBraces` ends at all, it ends within two rounds more than the number of
  -- the line, or any greater bound, and with the same line.
  pub join_lines-enough :
      (bound fuel n : ℕ) (line : Text) {r : Text}
      → n ≤ bound
      → join_lines fuel clean_lines line (some n) ≡ some r
      → join_lines (bound + 2) clean_lines line (some n) ≡ some r
  join_lines-enough bound zero n line h e = absurd (unfold join_lines in ground arith)
  join_lines-enough bound (suc fuel) n line {r} h e =
      let rounds : bound + 2 ≡ suc (bound + 1) = omega arith in
      let more : bound + 1 ≡ suc bound = omega arith in
      elim (Bool-cases (goes_on line (some n))) [
        | inr stop ↦ rw rounds (
            rw stop at (join_lines-step (bound + 1) line (some n))
            ∙ sym (rw stop at (join_lines-step fuel line (some n)))
            ∙ e)
        | inl on ↦
            let next : join_lines fuel clean_lines (joined line (some n)) (before (some n))
                ≡ some r =
              sym (rw on at (join_lines-step fuel line (some n))) ∙ e in
            let goal : join_lines (bound + 1) clean_lines (joined line (some n)) (before (some n))
                ≡ some r =
              elim (Option-cases (before (some n))) [
                | inl top ↦
                    rw (more, top)
                      (join_lines-top_ends fuel (joined line (some n)) (rw top at next) bound)
                | inr (j, below) ↦
                    let lower : j < n = before-lt n {j = j} below in
                    let less : bound + 1 ≡ bound - 1 + 2 = omega arith in
                    rw (less, below)
                      (join_lines-enough (bound - 1) fuel j (joined line (some n)) (omega arith)
                        (rw below at next))
              ] in
            rw rounds (rw on at (join_lines-step (bound + 1) line (some n)) ∙ goal)
      ]

  -- The loop of `CheckBraces` never ends on a line that is a block with white space in front and a
  -- semicolon behind, if all lines before it are blank: no fuel is enough.
  pub join_lines-blank :
      (n : ℕ) (line : Text)
      → matches indented_block line ≡ true
      → ((j : ℕ) → j < n → is_blank_line (line_at clean_lines.elided j) ≡ true)
      → (fuel : ℕ) → join_lines fuel clean_lines line (some n) ≡ none
  unfolding previous_line previous_text previous_number count
  join_lines-blank n line h blank zero = unfold join_lines in refl
  join_lines-blank n line h blank (suc fuel) =
      let nearest = get_previous_non_blank_line-IsNearest clean_lines n in
      elim (Option-cases (get_previous_non_blank_line clean_lines n)) [
        | inr ((text, m), found) ↦
            let near : IsNearest clean_lines.elided n (some (text, m)) = rw found at nearest in
            absurd (ground (arith, near.2, blank m near.0, ap is_blank_line near.1))
        | inl missing ↦
            join_lines-step fuel line (some n) ∙ rw (missing, h) (join_lines-top fuel line h)
      ]
