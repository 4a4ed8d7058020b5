-- ===== src/Inside/Matching.antt =====
-- `_GetTextInside` against a grammar of texts whose punctuation matches.
use mathlib.Core.List.{append_assoc}
use front_server.Common.{
  ℕ, suc, ◌+◌, ◌-◌, ◌≡◌, ◌≢◌, refl, sym, ap, ◌∙◌, inl, inr, ◌↔◌, true, false, none, some, List, [],
  ◌∷◌, ◌++◌, ◌==◌, Bool-cases, Option-cases, arith, take, drop, length, length-append, take_append,
  get_elem?, Text,
}
use front_server.Inside.{
  matching_punctuation, closing_punctuation, close_punctuation, text_from, get_text_inside,
}

-- Texts in which every punctuation mark is closed by its own kind.
pub data Matching : Text → Type 0 where
  nil : Matching []
  plain :
      (c : ℕ) {s : Text}
      → closing_punctuation c ≡ false
      → matching_punctuation c ≡ none
      → Matching s
      → Matching (c ∷ s)
  nested :
      (c : ℕ) {closer : ℕ} {s t : Text}
      → matching_punctuation c ≡ some closer
      → Matching s
      → Matching t
      → Matching (c ∷ (s ++ closer ∷ t))

-- Texts that close the marks of the stack, the last one with their last character.
data Closes : List ℕ → Text → Type 0 where
  done : Closes [] []
  next :
      {top : ℕ} {stack : List ℕ} {s t : Text}
      → Matching s
      → Closes stack t
      → Closes (top ∷ stack) (s ++ top ∷ t)

-- A stack of closing marks.
abbrev AllClose : List ℕ → Type 0
AllClose [] = Unit
AllClose (c ∷ stack) = (closing_punctuation c ≡ true) × AllClose stack

opener-closer :
    (c : ℕ) {closer : ℕ}
    → matching_punctuation c ≡ some closer
    → (closing_punctuation c ≡ false) × (closing_punctuation closer ≡ true)
unfolding matching_punctuation closing_punctuation
opener-closer c e = ground arith

close-shut :
    (s : Text) (top : ℕ) (stack : List ℕ) (i : ℕ)
    → close_punctuation (top ∷ s) (top ∷ stack) i ≡ close_punctuation s stack (i + 1)
unfolding close_punctuation
close-shut s top stack i = ground arith

close-opened :
    (s : Text) (c : ℕ) {closer : ℕ} (top : ℕ) (stack : List ℕ) (i : ℕ)
    → closing_punctuation top ≡ true
    → matching_punctuation c ≡ some closer
    → close_punctuation (c ∷ s) (top ∷ stack) i ≡ close_punctuation s (closer ∷ top ∷ stack) (i + 1)
unfolding close_punctuation
close-opened s c {closer} top stack i h e =
    let (opens, closes) = opener-closer c {closer = closer} e in
    let apart : c ≢ top = λ same. absurd (ground (arith, opens, h, ap closing_punctuation same)) in
    rw (opens, e) (ground arith)

close-plain :
    (s : Text) (c top : ℕ) (stack : List ℕ) (i : ℕ)
    → c ≢ top
    → closing_punctuation c ≡ false
    → matching_punctuation c ≡ none
    → close_punctuation (c ∷ s) (top ∷ stack) i ≡ close_punctuation s (top ∷ stack) (i + 1)
unfolding close_punctuation
close-plain s c top stack i apart h e = rw (h, e) (ground arith)

not_closer : (c top : ℕ) → closing_punctuation c ≡ false → closing_punctuation top ≡ true → c ≢ top
not_closer c top p q = λ same. absurd (ground (arith, p, q, ap closing_punctuation same))

close-Matching :
    {b : Text} (s : Text) (top : ℕ) (stack : List ℕ) (i : ℕ)
    → closing_punctuation top ≡ true
    → Matching b
    → close_punctuation (b ++ s) (top ∷ stack) i ≡ close_punctuation s (top ∷ stack) (i + length b)
close-Matching s top stack i h nil = let e : i + 0 ≡ i = omega arith in rw e
close-Matching s top stack i h (plain c {s = b} p q k) =
    let e : i + suc (length b) ≡ i + 1 + length b = omega arith in
    rw e (
      close-plain (b ++ s) c top stack i (not_closer c top p h) p q
      ∙ close-Matching s top stack (i + 1) h k)
close-Matching s top stack i h (nested c {closer = d} {s = b} {t = t} e k l) =
    let (opens, closes) = opener-closer c {closer = d} e in
    let at : i + length (c ∷ (b ++ d ∷ t)) ≡ i + 1 + length b + 1 + length t =
      omega (arith, length-append b (d ∷ t)) in
    rw (at, append_assoc)
      (close-opened (b ++ (d ∷ t ++ s)) c {closer = d} top stack i h e
        ∙ close-Matching (d ∷ t ++ s) d (top ∷ stack) (i + 1) closes k
        ∙ close-shut (t ++ s) d (top ∷ stack) (i + 1 + length b)
        ∙ close-Matching s top stack (i + 1 + length b + 1) h l)

-- The text up to position `k` closes the marks of the stack.
abbrev Split : List ℕ → Text → ℕ → ℕ → Type 0
Split stack s i k =
    (w : Text) × (rest : Text) × (s ≡ w ++ rest) × Closes stack w × (k ≡ i + length w)

Closes-opened :
    (c : ℕ) {closer top : ℕ} {stack : List ℕ} {w : Text}
    → matching_punctuation c ≡ some closer
    → Closes (closer ∷ top ∷ stack) w
    → Closes (top ∷ stack) (c ∷ w)
Closes-opened c {top = top} {stack = stack} e (next {s = b} h (next {s = b'} {t = w} k l)) =
    rw append_assoc at (next {top = top} {stack = stack} (nested c e h k) l)

Closes-plain :
    (c : ℕ) {top : ℕ} {stack : List ℕ} {w : Text}
    → closing_punctuation c ≡ false
    → matching_punctuation c ≡ none
    → Closes (top ∷ stack) w
    → Closes (top ∷ stack) (c ∷ w)
Closes-plain c p q (next h k) = next (plain c p q h) k

close-closing :
    (s : Text) (c top : ℕ) (stack : List ℕ) (i : ℕ)
    → c ≢ top
    → closing_punctuation c ≡ true
    → close_punctuation (c ∷ s) (top ∷ stack) i ≡ none
unfolding close_punctuation
close-closing s c top stack i apart h = rw h (ground arith)

close-Split :
    (s : Text) (stack : List ℕ) (i : ℕ) {k : ℕ}
    → AllClose stack
    → close_punctuation s stack i ≡ some k
    → Split stack s i k
close-Split s [] i h e = unfold close_punctuation in ([], s, refl, done, ground arith)
close-Split [] (top ∷ stack) i h e = unfold close_punctuation in cc
close-Split (c ∷ s) (top ∷ stack) i {k} h e = elim (Bool-cases (c == top)) [
  | inl same_char ↦
      let same : c ≡ top = ground arith in
      let (w, rest, split, closes, at) =
        close-Split s stack (i + 1) {k = k} h.1 (sym (close-shut s top stack i) ∙ rw same at e) in
      (c ∷ w, rest, ap (◌∷◌ c) split, rw same (next nil closes), omega (arith, at))
  | inr other ↦
      let apart : c ≢ top = ground arith in
      elim (Bool-cases (closing_punctuation c)) [
        | inl closing ↦ absurd (ground (arith, close-closing s c top stack i apart closing))
        | inr other_kind ↦ elim (Option-cases (matching_punctuation c)) [
          | inl unmatched ↦
              let (w, rest, split, closes, at) =
                close-Split s (top ∷ stack) (i + 1) {k = k} h
                  (sym (close-plain s c top stack i apart other_kind unmatched) ∙ e) in
              (
                c ∷ w,
                rest,
                ap (◌∷◌ c) split,
                Closes-plain c other_kind unmatched closes,
                omega (arith, at),
              )
          | inr (closer, opener) ↦
              let (opens, ends) = opener-closer c {closer = closer} opener in
              let (w, rest, split, closes, at) =
                close-Split s (closer ∷ top ∷ stack) (i + 1) {k = k} (ends, h)
                  (sym (close-opened s c {closer = closer} top stack i h.0 opener) ∙ e) in
              (c ∷ w, rest, ap (◌∷◌ c) split, Closes-opened c opener closes, omega (arith, at))
        ]
      ]
]

close_punctuation_iff :
    (s : Text) (top i k : ℕ)
    → closing_punctuation top ≡ true
    → (close_punctuation s (top ∷ []) i ≡ some k)
      ↔ ((b : Text) × (t : Text) × (s ≡ b ++ top ∷ t) × Matching b × (k ≡ i + length b + 1))
close_punctuation_iff s top i k h = (
  λ e. inside s top i k (close-Split s (top ∷ []) i {k = k} (h, tt) e),
  λ (b, t, split, m, at).
      rw (split, at)
        (close-Matching (top ∷ t) top [] i h m ∙ close-shut t top [] (i + length b) ∙ empty t),
)
  where
    inside :
        (s : Text) (top i k : ℕ)
        → Split (top ∷ []) s i k
        → (b : Text) × (t : Text) × (s ≡ b ++ top ∷ t) × Matching b × (k ≡ i + length b + 1)
    inside s top i k (w, rest, split, next {s = b} m done, at) = (
      b,
      rest,
      split ∙ append_assoc b (top ∷ []) rest,
      m,
      omega (arith, at, length-append b (top ∷ [])),
    )

    empty : {p : ℕ} (t : Text) → close_punctuation t [] p ≡ some p
    empty t = unfold close_punctuation in refl

text_from_iff :
    (text : Text) (start closer : ℕ) (b : Text)
    → closing_punctuation closer ≡ true
    → (text_from text start closer ≡ some b)
      ↔ ((t : Text) × (drop start text ≡ b ++ closer ∷ t) × Matching b)
unfolding text_from
text_from_iff text start closer b h = (
  λ e. elim (Option-cases (close_punctuation (drop start text) (closer ∷ []) start)) [
    | inl failed ↦ absurd (ground (arith, failed))
    | inr (k, found) ↦
        let (b', t, split, m, at) =
          (close_punctuation_iff (drop start text) closer start k h).0 found in
        let size : k - 1 - start ≡ length b' = omega (arith, at) in
        let taken : take (k - 1 - start) (drop start text) ≡ b' =
          rw (size, split) (take_append b' (closer ∷ t)) in
        let same : b' ≡ b = sym taken ∙ ground (arith, found) in (t, rw same at split, rw same at m)
  ],
  λ (t, split, m).
      let k : ℕ = start + length b + 1 in
      let found =
        (close_punctuation_iff (drop start text) closer start k h).1 (b, t, split, m, refl) in
      let size : k - 1 - start ≡ length b = omega arith in
      rw (text_from, found, size, split, take_append b (closer ∷ t)),
)

-- If the match of the start pattern ends behind an opening mark, `_GetTextInside` returns a text
-- exactly if all the marks in the text match, each with its own kind, and the mark that closes the
-- opening one follows the text.
pub get_text_inside_iff :
    (text : Text) (n opener closer : ℕ) (b : Text)
    → get_elem? text n ≡ some opener
    → matching_punctuation opener ≡ some closer
    → (get_text_inside text (some (suc n)) ≡ some (some b))
      ↔ ((t : Text) × (drop (suc n) text ≡ b ++ closer ∷ t) × Matching b)
unfolding get_text_inside
get_text_inside_iff text n opener closer b at kind =
    let (_, ends) = opener-closer opener {closer = closer} kind in
    let (to, from) = text_from_iff text (suc n) closer b ends in
    (
      λ e. to (ground (arith, at, kind)),
      λ found. rw (get_text_inside, at, kind) (ap some (from found)),
    )
