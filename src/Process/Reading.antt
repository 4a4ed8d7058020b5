-- ===== src/Process/Reading.antt =====
-- The carriage returns of the lines that the program reads.
use mathlib.Core.List.{reverse, reverse-reverse}
use front_server.Common.{
  ℕ, ◌≡◌, refl, ap, ◌∙◌, false, List, [], ◌∷◌, inl, inr, arith, All, any, Text, Bool-cases,
  ends_with, starts_with, lstrip_char, rstrip_char,
}
use front_server.Process.{strip_returns}

not_begins : (c : ℕ) (s : Text) → starts_with (lstrip_char c s) (c ∷ []) ≡ false
unfolding starts_with lstrip_char
not_begins c [] = refl
not_begins c (a ∷ s) = ground (arith, not_begins c s)

rstrip_char-ends : (c : ℕ) (s : Text) → ends_with (rstrip_char c s) (c ∷ []) ≡ false
unfolding ends_with rstrip_char
rstrip_char-ends c s =
    ap (λ (t : Text). starts_with t (c ∷ [])) (reverse-reverse (lstrip_char c (reverse s)))
    ∙ not_begins c (reverse s)

-- Behind the loop of `ProcessFile` no line ends in a carriage return, and the flag says whether one
-- did before.
pub strip_returns_lem :
    (lines : List Text)
    → All (λ line. ends_with line (13 ∷ []) ≡ false) (strip_returns lines).0
      × ((strip_returns lines).1 ≡ any (λ line. ends_with line (13 ∷ [])) lines)
unfolding strip_returns
strip_returns_lem [] = (tt, refl)
strip_returns_lem (line ∷ lines) =
    let (clean, flag) = strip_returns_lem lines in
    elim (Bool-cases (ends_with line (13 ∷ []))) [
      | inl found ↦ rw (strip_returns, found) ((rstrip_char-ends 13 line, clean), refl)
      | inr other ↦ rw (strip_returns, other) ((other, clean), flag)
    ]
