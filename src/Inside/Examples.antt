-- ===== src/Inside/Examples.antt =====
-- Runs of `_GetTextInside`, and the theorems of its modules at concrete inputs.
use front_server.Common.{
  ◌≡◌, refl, ◌↔◌, some, none, ◌∷◌, ◌++◌, drop, get_elem?, Text, codes, text_run,
}
use front_server.Inside.{matching_punctuation, get_text_inside}
use front_server.Inside.Matching.{Matching, get_text_inside_iff}

abbrev call_text : Text
call_text = codes "printf(a(), b[c()]) + x"

arguments_found : get_text_inside call_text (some 7) ≡ some (some (codes "a(), b[c()]"))
unfolding get_text_inside text_run
arguments_found = refl

wrong_kind : get_text_inside (codes "f(a[b)]") (some 2) ≡ some none
unfolding get_text_inside text_run
wrong_kind = refl

no_mark : get_text_inside (codes "printf") (some 3) ≡ none
unfolding get_text_inside text_run
no_mark = refl

opening_mark : get_elem? call_text 6 ≡ some b'('
unfolding codes
opening_mark = refl

round_kind : matching_punctuation b'(' ≡ some b')'
unfolding matching_punctuation
round_kind = refl

get_text_inside_iff_example :
    (get_text_inside call_text (some 7) ≡ some (some (codes "a(), b[c()]"))) ↔ (
      (t : Text) × (drop 7 call_text ≡ codes "a(), b[c()]" ++ b')' ∷ t)
      × Matching (codes "a(), b[c()]"))
get_text_inside_iff_example =
    get_text_inside_iff call_text 6 b'(' b')' (codes "a(), b[c()]") opening_mark round_kind
