-- ===== src/Expression/Brackets.antt =====
-- `FindEndOfExpressionInLine` against a grammar of balanced texts.
use mathlib.Core.List.{append_assoc}
use front_server.Common.{
  ℕ, zero, suc, ◌+◌, ◌≡◌, ◌≢◌, refl, sym, ap, ◌∙◌, inl, inr, ◌↔◌, some, [], ◌∷◌, ◌++◌, ◌==◌,
  Bool-cases, arith, length, length-append, Text,
}
use front_server.Common.Int.{pos, negsuc, ◌+ℤ◌}
use front_server.Expression.{find_end}

-- The depth goes up by one, and down by one from above 0.
up : (n : ℕ) → pos n +ℤ pos 1 ≡ pos (suc n)
unfolding ◌+ℤ◌
up n = ground arith

down : (n : ℕ) → pos (suc n) +ℤ negsuc 0 ≡ pos n
unfolding ◌+ℤ◌
down n = ground arith

module _ (startchar endchar : ℕ) where
  -- Texts whose start and end characters match.
  pub data Balanced : Text → Type 0 where
    nil : Balanced []
    plain : (c : ℕ) {s : Text} → c ≢ startchar → c ≢ endchar → Balanced s → Balanced (c ∷ s)
    nested : {s t : Text} → Balanced s → Balanced t → Balanced (startchar ∷ (s ++ endchar ∷ t))

  -- Texts that close `n` open brackets, the last one with their last character.
  pub data Shuts : ℕ → Text → Type 0 where
    done : Shuts zero []
    next : {n : ℕ} {s t : Text} → Balanced s → Shuts n t → Shuts (suc n) (s ++ endchar ∷ t)

  module _ (apart : startchar ≢ endchar) where
    pub find_end-start :
        (s : Text) (i n : ℕ)
        → find_end startchar endchar (startchar ∷ s) i (pos n)
          ≡ find_end startchar endchar s (i + 1) (pos (suc n))
    unfolding find_end
    find_end-start s i n = ground (arith, up n)

    pub find_end-plain :
        (c : ℕ) (s : Text) (i n : ℕ)
        → c ≢ startchar
        → c ≢ endchar
        → find_end startchar endchar (c ∷ s) i (pos n)
          ≡ find_end startchar endchar s (i + 1) (pos n)
    unfolding find_end
    find_end-plain c s i n a b = ground arith

    pub find_end-end :
        (s : Text) (i n : ℕ)
        → find_end startchar endchar (endchar ∷ s) i (pos (suc (suc n)))
          ≡ find_end startchar endchar s (i + 1) (pos (suc n))
    unfolding find_end
    find_end-end s i n = ground (arith, down (suc n))

    pub find_end_last :
        (s : Text) (i : ℕ) → find_end startchar endchar (endchar ∷ s) i (pos 1) ≡ some (i + 1)
    unfolding find_end
    find_end_last s i = ground (arith, down 0)

    pub find_end-Balanced :
        {b : Text} (s : Text) (i n : ℕ)
        → Balanced b
        → find_end startchar endchar (b ++ s) i (pos (suc n))
          ≡ find_end startchar endchar s (i + length b) (pos (suc n))
    find_end-Balanced s i n nil = let e : i + 0 ≡ i = omega arith in rw e
    find_end-Balanced s i n (plain c {s = b} p q h) =
        let e : i + suc (length b) ≡ i + 1 + length b = omega arith in
        rw e (find_end-plain c (b ++ s) i (suc n) p q ∙ find_end-Balanced s (i + 1) n h)
    find_end-Balanced s i n (nested {s = b} {t = t} h k) =
        let e : i + length (startchar ∷ (b ++ endchar ∷ t)) ≡ i + 1 + length b + 1 + length t =
          omega (arith, length-append b (endchar ∷ t)) in
        rw (e, append_assoc)
          (find_end-start (b ++ (endchar ∷ t ++ s)) i (suc n)
            ∙ find_end-Balanced (endchar ∷ t ++ s) (i + 1) (suc n) h
            ∙ find_end-end (t ++ s) (i + 1 + length b) n
            ∙ find_end-Balanced s (i + 1 + length b + 1) n k)

    find_end-Shuts :
        {n : ℕ} {w : Text} (s : Text) (i : ℕ)
        → Shuts (suc n) w
        → find_end startchar endchar (w ++ s) i (pos (suc n)) ≡ some (i + length w)
    find_end-Shuts s i (next {n = zero} {s = b} h done) =
        let e : i + length (b ++ endchar ∷ []) ≡ i + length b + 1 =
          omega (arith, length-append b (endchar ∷ [])) in
        rw (e, append_assoc)
          (find_end-Balanced (endchar ∷ s) i 0 h ∙ find_end_last s (i + length b))
    find_end-Shuts s i (next {n = suc n} {s = b} {t = t} h k) =
        let e : i + length (b ++ endchar ∷ t) ≡ i + length b + 1 + length t =
          omega (arith, length-append b (endchar ∷ t)) in
        rw (e, append_assoc)
          (find_end-Balanced (endchar ∷ (t ++ s)) i (suc n) h
            ∙ find_end-end (t ++ s) (i + length b) n
            ∙ find_end-Shuts s (i + length b + 1) k)

    Shuts-start : {n : ℕ} {w : Text} → Shuts (suc (suc n)) w → Shuts (suc n) (startchar ∷ w)
    Shuts-start (next {s = b} h (next {s = b'} {t = w} k l)) =
        rw append_assoc at (next (nested h k) l)

    Shuts-plain :
        {n : ℕ} {w : Text} (c : ℕ)
        → c ≢ startchar
        → c ≢ endchar
        → Shuts (suc n) w
        → Shuts (suc n) (c ∷ w)
    Shuts-plain c p q (next h k) = next (plain c p q h) k

    -- The text up to `k` closes the `n` open brackets.
    abbrev pub Split : ℕ → Text → ℕ → ℕ → Type 0
    Split n s i k = (w : Text) × (rest : Text) × (s ≡ w ++ rest) × Shuts n w × (k ≡ i + length w)

    Split-end :
        (s : Text) (i n : ℕ) {k : ℕ}
        → find_end startchar endchar (endchar ∷ s) i (pos (suc n)) ≡ some k
        → ((m : ℕ)
            → find_end startchar endchar s (i + 1) (pos (suc m)) ≡ some k
            → Split (suc m) s (i + 1) k)
        → Split (suc n) (endchar ∷ s) i k
    Split-end s i zero {k} e later =
        (endchar ∷ [], s, refl, next nil done, ground (arith, find_end_last s i))
    Split-end s i (suc m) {k} e later =
        let (w, rest, split, shuts, at) = later m (sym (find_end-end s i m) ∙ e) in
        (endchar ∷ w, rest, ap (◌∷◌ endchar) split, next nil shuts, omega (arith, at))

    pub find_end-Split :
        (s : Text) (i n : ℕ) {k : ℕ}
        → find_end startchar endchar s i (pos (suc n)) ≡ some k
        → Split (suc n) s i k
    find_end-Split [] i n e = unfold find_end in cc
    find_end-Split (c ∷ s) i n {k} e = elim (Bool-cases (c == startchar)) [
      | inl start ↦
          let same : c ≡ startchar = ground arith in
          let (w, rest, split, shuts, at) =
            find_end-Split s (i + 1) (suc n) {k = k}
              (sym (find_end-start s i (suc n)) ∙ rw same at e) in
          (c ∷ w, rest, ap (◌∷◌ c) split, rw same (Shuts-start shuts), omega (arith, at))
      | inr other ↦ elim (Bool-cases (c == endchar)) [
        | inr plain_char ↦
            let p : c ≢ startchar = ground arith in
            let q : c ≢ endchar = ground arith in
            let (w, rest, split, shuts, at) =
              find_end-Split s (i + 1) n {k = k} (sym (find_end-plain c s i (suc n) p q) ∙ e) in
            (c ∷ w, rest, ap (◌∷◌ c) split, Shuts-plain c p q shuts, omega (arith, at))
        | inl end ↦
            let same : c ≡ endchar = ground arith in
            rw same (Split-end s i n (rw same at e) (λ m. find_end-Split s (i + 1) m))
      ]
    ]

    inside :
        (s : Text) (i k : ℕ)
        → Split 1 s i k
        → (b : Text) × (t : Text) × (s ≡ b ++ endchar ∷ t) × Balanced b × (k ≡ i + length b + 1)
    inside s i k (w, rest, split, next {s = b} h done, at) = (
      b,
      rest,
      split ∙ append_assoc b (endchar ∷ []) rest,
      h,
      omega (arith, at, length-append b (endchar ∷ [])),
    )

    -- For two brackets that differ, the search from just behind an open one finds the end exactly
    -- where a balanced text and the end character lead.
    pub find_end_iff :
        (s : Text) (i k : ℕ)
        → (find_end startchar endchar s i (pos 1) ≡ some k)
          ↔ ((b : Text) × (t : Text) × (s ≡ b ++ endchar ∷ t) × Balanced b × (k ≡ i + length b + 1))
    find_end_iff s i k = (
      λ e. inside s i k (find_end-Split s i 0 {k = k} e),
      λ (b, t, split, h, at).
          rw (split, at) (find_end-Balanced (endchar ∷ t) i 0 h ∙ find_end_last t (i + length b)),
    )
