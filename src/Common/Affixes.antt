-- ===== src/Common/Affixes.antt =====
-- What `startswith` and `endswith` say of a text.
use mathlib.Core.Path.{◌≡◌, refl, sym, ap, ◌∙◌}
use mathlib.Core.Logic.{◌↔◌}
use mathlib.Core.Bool.{true}
use mathlib.Core.List.{[], ◌∷◌, ◌++◌, reverse, reverse-reverse, reverse-append}
use native.Mathlib.Omega.{arith}
use Prim.Native.Nat.{◌-◌}
use front_server.Common.Lists.{take, length, length-append, take_append}
use front_server.Common.Strings.{Text, starts_with, ends_with}

pub starts_with_iff : (s t : Text) → (starts_with s t ≡ true) ↔ ((u : Text) × (s ≡ t ++ u))
unfolding starts_with
starts_with_iff s [] = (λ e. (s, refl), λ e. refl)
starts_with_iff [] (b ∷ t) = (λ e. absurd (ground arith), λ (u, e). absurd (ground arith))
starts_with_iff (a ∷ s) (b ∷ t) =
    let (to, from) = starts_with_iff s t in
    (
      λ e. let (u, split) = to (ground arith) in (u, ground (arith, split)),
      λ (u, e). ground (arith, from (u, ground arith)),
    )

pub ends_with_iff : (s t : Text) → (ends_with s t ≡ true) ↔ ((u : Text) × (s ≡ u ++ t))
unfolding ends_with
ends_with_iff s t =
    let (to, from) = starts_with_iff (reverse s) (reverse t) in
    (
      λ e.
          let (u, split) = to e in
          (
            reverse u,
            sym (reverse-reverse s)
                ∙ ap reverse split
                ∙ reverse-append (reverse t) u
                ∙ ap (λ (v : Text). reverse u ++ v) (reverse-reverse t),
          ),
      λ (u, e). from (reverse u, ap reverse e ∙ reverse-append u t),
    )

-- The text without its last characters, as many as the suffix has.
unfoldable pub without_last : Text → Text → Text
without_last suffix s = take (length s - length suffix) s

pub without_last-append : (u suffix : Text) → without_last suffix (u ++ suffix) ≡ u
unfolding without_last
without_last-append u suffix =
    let e : length (u ++ suffix) - length suffix ≡ length u =
      omega (arith, length-append u suffix) in
    rw e (take_append u suffix)
