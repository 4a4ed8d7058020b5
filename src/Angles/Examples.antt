-- ===== src/Angles/Examples.antt =====
-- Runs of the searches for angle brackets, and the theorems of its modules at concrete inputs.
use front_server.Common.{[], ◌∷◌, ◌++◌, ◌≡◌, refl, codes, true, false, text_run}
use front_server.Cleanse.{CleansedLines}
use front_server.Angles.{
  is_operator, find_next_matching_angle_bracket, find_previous_matching_angle_bracket,
}
use front_server.Angles.Template.{
  done, other, template, comma, parentheses, by_match, find_next_matching_angle_bracket-Nested,
}

abbrev two_lines : CleansedLines
two_lines = record {
  elided = codes "map<pair<int, int>," ∷ codes "int> a;" ∷ [];
  lines = [];
  raw_lines = [];
  num_lines = 2;
}

searches :
    (find_next_matching_angle_bracket two_lines 0 (codes "a[1]") ≡ true)
    × (find_next_matching_angle_bracket two_lines 0 (codes "b);") ≡ false)
    × (find_next_matching_angle_bracket two_lines 1 (codes "f(1, 2; 3)") ≡ true)
    × (find_previous_matching_angle_bracket two_lines 1 (codes "int") ≡ true)
    × (find_previous_matching_angle_bracket two_lines 1 (codes "f(a)") ≡ true)
    × (find_previous_matching_angle_bracket two_lines 0 (codes "a") ≡ false)
unfolding find_next_matching_angle_bracket find_previous_matching_angle_bracket text_run
searches = (refl, refl, refl, refl, refl, refl)

-- `T<f(a,b)>> x(`
find_next_matching_angle_bracket-Nested_example :
    find_next_matching_angle_bracket two_lines 0 (
      (b'T' ∷ b'<' ∷ (b'f' ∷ b'(' ∷ (b'a' ∷ b',' ∷ []) ++ b')' ∷ []) ++ b'>' ∷ [])
      ++ b'>' ∷ b'(' ∷ [])
    ≡ true
unfolding is_operator
find_next_matching_angle_bracket-Nested_example =
    find_next_matching_angle_bracket-Nested two_lines 0 (b'(' ∷ [])
      (other refl (template (other refl (parentheses (other refl (comma done)) done)) done))
      by_match
