-- ===== src/Language/Directives.antt =====
-- The conditional directives of a file, as `CheckLanguage` hands them to `CheckIncludeLine`.
use mathlib.Core.List.{append_assoc}
use front_server.Common.{
  Option-cases, Bool-cases, map, ℕ, suc, ◌≡◌, refl, sym, ap, ◌∙◌, ◌⊎◌, ◌≢◌, Bool, true, false,
  Option, none, some, List, [], ◌∷◌, ◌++◌, if◌then◌else◌, inl, inr, arith, length, Text, text_eq,
}
use front_server.Include.{
  condition_directive, IncludeState, LineKind, opens, splits, closes, plain, line_kind,
}
use front_server.Include.Scopes.{depth_of, height, height_cons}
use front_server.Common.Regex.{regex_run}
use front_server.Lint.{Log}
use front_server.Cleanse.{include_regex, CleansedLines, line_at}
use front_server.Include.Line.Depth.{check_include_line-height}
use front_server.Language.{is_include_line, check_code, check_language}

-- The kinds of the lines that `CheckLanguage` hands to `CheckIncludeLine`, for each line as it looks
-- without strings and with them: the includes and the conditional directives. Other lines leave the
-- include state alone.
abbrev pub handed : List (Text × Text) → List LineKind
handed [] = []
handed ((elided, line) ∷ lines) =
    let rest = handed lines in
    if text_eq elided []
    then rest
    else if is_include_line elided
    then line_kind line ∷ rest
    else rest

-- What stands in a file: a text, with or without an include outside of all conditionals, or the
-- branches of a conditional from behind its `#if` to its `#endif`.
pub data Part : Type 0 where
  text : Bool → Part
  branches : Part

-- The directives nest.
pub data Nested : Part → List LineKind → Type 0 where
  nil : Nested (text false) []
  include : {b : Bool} {ks : List LineKind} → Nested (text b) ks → Nested (text true) (plain ∷ ks)
  conditional :
      {b : Bool} {bs ks : List LineKind}
      → Nested branches bs
      → Nested (text b) ks
      → Nested (text b) (opens ∷ bs ++ ks)
  last : {b : Bool} {ks : List LineKind} → Nested (text b) ks → Nested branches (ks ++ closes ∷ [])
  more :
      {b : Bool} {ks bs : List LineKind}
      → Nested (text b) ks
      → Nested branches bs
      → Nested branches (ks ++ splits ∷ bs)

-- How many of `n` + 1 open scopes a part leaves.
abbrev left_by : Part → ℕ → ℕ
left_by (text b) n = suc n
left_by branches n = n

height-Nested :
    {p : Part} {ks : List LineKind} (n : ℕ) (rest : List LineKind)
    → Nested p ks
    → height (suc n) (ks ++ rest) ≡ height (left_by p n) rest
height-Nested n rest nil = refl
height-Nested n rest (include h) = height-Nested n rest h
height-Nested n rest (conditional {bs = bs} {ks = ks} k h) =
    ap (height (suc (suc n))) (append_assoc bs ks rest)
    ∙ height-Nested (suc n) (ks ++ rest) k
    ∙ height-Nested n rest h
height-Nested n rest (last {ks = ks} h) =
    ap (height (suc n)) (append_assoc ks (closes ∷ []) rest) ∙ height-Nested n (closes ∷ rest) h
height-Nested n rest (more {ks = ks} {bs = bs} h k) =
    ap (height (suc n)) (append_assoc ks (splits ∷ bs) rest)
    ∙ height-Nested n (splits ∷ bs ++ rest) h
    ∙ height-Nested n rest k

height_top :
    {b : Bool} {ks : List LineKind} (rest : List LineKind)
    → Nested (text b) ks
    → height 0 (ks ++ rest) ≡ height (if b then 1 else 0) rest
height_top rest nil = refl
height_top rest (include h) = height-Nested 0 rest h
height_top rest (conditional {bs = bs} {ks = ks} k h) =
    ap (height 1) (append_assoc bs ks rest) ∙ height-Nested 0 (ks ++ rest) k ∙ height_top rest h

handed-append :
    (before rest : List (Text × Text)) → handed (before ++ rest) ≡ handed before ++ handed rest
handed-append [] rest = refl
handed-append ((elided, line) ∷ lines) rest = ground (arith, handed-append lines rest)

some-ne-none : {n : ℕ} → some n ≢ none
some-ne-none e = cc

no_directive : is_include_line [] ≡ false
unfolding is_include_line include_regex condition_directive regex_run
no_directive = refl

handed_line :
    (elided line : Text) (rest : List (Text × Text))
    → is_include_line elided ≡ true
    → handed ((elided, line) ∷ rest) ≡ line_kind line ∷ handed rest
unfolding text_eq
handed_line [] line rest directive = absurd (ground (arith, no_directive, directive))
handed_line (c ∷ elided) line rest directive = rw directive refl

closing :
    (k : LineKind) (ks : List LineKind) → (k ≡ closes) ⊎ (k ≡ splits) → height 0 (k ∷ ks) ≡ none
closing closes ks h = refl
closing splits ks h = refl
closing opens ks h = elim h [ inl e ↦ cc | inr e ↦ cc ]
closing plain ks h = elim h [ inl e ↦ cc | inr e ↦ cc ]

-- A line of a file, without strings and with them.
abbrev pub line_of : CleansedLines → ℕ → Text × Text
line_of clean_lines linenum =
    (line_at clean_lines.elided linenum, line_at clean_lines.lines linenum)

handed-height :
    (elided line : Text) (lines : List (Text × Text)) (n m : ℕ)
    → height n (handed ((elided, line) ∷ [])) ≡ some m
    → height n (handed ((elided, line) ∷ lines)) ≡ height m (handed lines)
handed-height elided line lines n m e = elim (Bool-cases (text_eq elided [])) [
  | inl empty ↦ rw empty (ground (arith, e, empty))
  | inr full ↦ elim (Bool-cases (is_include_line elided)) [
    | inr code ↦ rw (full, code) (ground (arith, e, full, code))
    | inl directive ↦
        rw (full, directive)
          (height_cons n (line_kind line) (handed lines) ∙ ground (arith, e, full, directive))
  ]
]

module _ (repository_name filename : Text) (is_header : Bool) (clean_lines : CleansedLines) where
  -- `CheckLanguage` for the lines with these numbers, in order.
  abbrev pub check_all : List ℕ → IncludeState → Option IncludeState
  check_all [] s = some s
  check_all (n ∷ ns) s = elim (check_language repository_name filename is_header clean_lines n s) [
    | none ↦ none
    | some (s', log) ↦ check_all ns s'
  ]

  check_language-height :
      (n : ℕ) (s : IncludeState) {s' : IncludeState} {log : Log}
      → check_language repository_name filename is_header clean_lines n s ≡ some (s', log)
      → height (length s.stack) (handed (line_of clean_lines n ∷ [])) ≡ some (length s'.stack)
  unfolding check_language
  check_language-height n s {s'} {log} e =
      let elided = line_at clean_lines.elided n in
      elim (Bool-cases (text_eq elided [])) [
        | inl empty ↦ ground (arith, e, empty)
        | inr full ↦ elim (Bool-cases (is_include_line elided)) [
          | inl directive ↦
              rw (full, directive)
                (check_include_line-height repository_name filename (line_at clean_lines.lines n) n
                  s {s' = s'} {log = log} (ground (arith, e, full, directive)))
          | inr code ↦ elim (Option-cases (check_code filename is_header clean_lines n)) [
            | inl failed ↦ absurd (ground (arith, e, full, code, failed))
            | inr (found, checked) ↦ ground (arith, e, full, code, checked)
          ]
        ]
      ]

  check_all-height :
      (ns : List ℕ) (s : IncludeState) {t : IncludeState}
      → check_all ns s ≡ some t
      → height (length s.stack) (handed (map (line_of clean_lines) ns)) ≡ some (length t.stack)
  check_all-height [] s e = ap depth_of e
  check_all-height (n ∷ ns) s {t} e =
      elim (Option-cases (check_language repository_name filename is_header clean_lines n s)) [
        | inl failed ↦ absurd (ground (arith, e, failed))
        | inr ((s', log), ran) ↦
            let (elided, line) = line_of clean_lines n in
            handed-height elided line (map (line_of clean_lines) ns) (length s.stack)
              (length s'.stack) (check_language-height n s {s' = s'} {log = log} ran)
            ∙ check_all-height ns s' {t = t} (ground (arith, e, ran))
      ]

unmatched_height :
    (before rest : List (Text × Text)) (elided line : Text)
    → Nested (text false) (handed before)
    → is_include_line elided ≡ true
    → (line_kind line ≡ closes) ⊎ (line_kind line ≡ splits)
    → height 0 (handed (before ++ (elided, line) ∷ rest)) ≡ none
unmatched_height before rest elided line h directive unmatched =
    ap (height 0) (handed-append before ((elided, line) ∷ rest))
    ∙ ap (λ (ks : List LineKind). height 0 (handed before ++ ks))
        (handed_line elided line rest directive)
    ∙ height_top (line_kind line ∷ handed rest) h
    ∙ closing (line_kind line) (handed rest) unmatched

map-append {ℓ κ} :
    {A : Type ℓ} {B : Type κ} (f : A → B) (xs ys : List A) → map f (xs ++ ys) ≡ map f xs ++ map f ys
map-append f [] ys = refl
map-append f (x ∷ xs) ys = ap (◌∷◌ (f x)) (map-append f xs ys)

-- If the conditional directives on some lines nest, with no include outside of them, and an `#endif`,
-- `#else` or `#elif` follows, then `CheckLanguage` does not get through these lines: it raises the
-- `IndexError` of `pop` there, unless it failed before.
pub check_all-unmatched :
    (repository_name filename : Text) (is_header : Bool) (clean_lines : CleansedLines)
    (before rest : List ℕ) (n : ℕ) (s : IncludeState)
    → Nested (text false) (handed (map (line_of clean_lines) before))
    → s.stack ≡ []
    → is_include_line (line_at clean_lines.elided n) ≡ true
    → (line_kind (line_at clean_lines.lines n) ≡ closes)
      ⊎ (line_kind (line_at clean_lines.lines n) ≡ splits)
    → check_all repository_name filename is_header clean_lines (before ++ n ∷ rest) s ≡ none
check_all-unmatched repository_name filename is_header clean_lines before rest n s h empty directive
      unmatched =
    let f = line_of clean_lines in
    let counted : height 0 (handed (map f (before ++ n ∷ rest))) ≡ none =
      ap (λ lines. height 0 (handed lines)) (map-append f before (n ∷ rest))
      ∙ unmatched_height (map f before) (map f rest) (line_at clean_lines.elided n)
          (line_at clean_lines.lines n) h directive unmatched in
    elim (Option-cases
      (check_all repository_name filename is_header clean_lines (before ++ n ∷ rest) s)) [
        | inl failed ↦ failed
        | inr (t, ran) ↦
            let reached =
              check_all-height repository_name filename is_header clean_lines (before ++ n ∷ rest) s
                {t = t} ran in
            let at_start =
              ap (λ (st : List ℕ). height (length st) (handed (map f (before ++ n ∷ rest))))
                empty in
            absurd (some-ne-none (sym reached ∙ at_start ∙ counted))
      ]
