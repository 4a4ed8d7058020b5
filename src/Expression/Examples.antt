-- ===== src/Expression/Examples.antt =====
-- Runs of `CloseExpression`, and the theorems of its modules at concrete inputs.
use front_server.Common.{
  ◌≡◌, ◌↔◌, ◌++◌, refl, some, [], ◌∷◌, Text, codes, text_run, get_elem?, count, ◌+◌, length, arith,
}
use front_server.Common.Int.{pos, ◌+ℤ◌}
use front_server.Cleanse.{CleansedLines}
use front_server.Expression.{Closing, close_expression, end_of, find_end}
use front_server.Expression.Brackets.{Balanced, nil, plain, nested, find_end_iff}
use front_server.Expression.Skipped.{IsBehind, close_expression-skips}
use front_server.Expression.Lines.{IsValid, close_expression-IsValid, close_expression-Balanced}

abbrev spread : CleansedLines
spread = record {
  elided = codes "f(a," ∷ codes "  g(b)," ∷ codes "  c);" ∷ [];
  lines = [];
  raw_lines = [];
  num_lines = 3;
}

spread_closes :
    close_expression spread 0 1
    ≡ some (record { line = codes "  c);"; linenum = 2; position = some 4 })
unfolding close_expression text_run ◌+ℤ◌
spread_closes = refl

-- The bracket is closed on the second line, and the third is returned.
abbrev reopened : CleansedLines
reopened = record {
  elided = codes "f(a" ∷ codes ") + (b" ∷ codes ");" ∷ [];
  lines = [];
  raw_lines = [];
  num_lines = 3;
}

reopened_closes_late :
    close_expression reopened 0 1
    ≡ some (record { line = codes ");"; linenum = 2; position = some 1 })
unfolding close_expression text_run ◌+ℤ◌
reopened_closes_late = refl

opens_first : get_elem? (codes "f(a,") 1 ≡ some b'('
unfolding codes
opens_first = refl

close_expression-IsValid_example :
    (r : Closing) × (close_expression spread 0 1 ≡ some r) × IsValid b')' spread.elided r
unfolding end_of
close_expression-IsValid_example =
    close_expression-IsValid spread 0 1 b'(' b')' (codes "f(a,") refl refl opens_first refl

abbrev call_line : CleansedLines
call_line = record {
  elided = (codes "f" ++ b'(' ∷ (codes "a()" ++ b')' ∷ codes " + x)")) ∷ [];
  lines = [];
  raw_lines = [];
  num_lines = 1;
}

arguments-Balanced : Balanced b'(' b')' (codes "a()")
unfolding codes
arguments-Balanced = plain b'a' (omega arith) (omega arith) (nested nil nil)

close_expression-Balanced_example :
    close_expression call_line 0 (length (codes "f"))
    ≡ some (record {
      line = codes "f" ++ b'(' ∷ (codes "a()" ++ b')' ∷ codes " + x)");
      linenum = 0;
      position = some (length (codes "f") + length (codes "a()") + 2);
    })
unfolding end_of
close_expression-Balanced_example =
    close_expression-Balanced call_line 0 b'(' b')' (codes "f") (codes "a()") (codes " + x)") refl
      refl arguments-Balanced

abbrev reopened_line : CleansedLines
reopened_line = record reopened {
  elided = (codes "f" ++ b'(' ∷ codes "a") ∷ ([] ++ b')' ∷ codes " + (b") ∷ codes ");" ∷ [];
}

name-Balanced : Balanced b'(' b')' (codes "a")
unfolding codes
name-Balanced = plain b'a' (omega arith) (omega arith) nil

reopened_counts : count b')' ([] ++ b')' ∷ codes " + (b") ≡ count b'(' ([] ++ b')' ∷ codes " + (b")
unfolding count codes
reopened_counts = refl

close_expression-skips_example :
    (r : Closing) × (close_expression reopened_line 0 (length (codes "f")) ≡ some r)
    × IsBehind (0 + 1) r
unfolding end_of
close_expression-skips_example =
    close_expression-skips reopened_line 0 b'(' b')' (codes "f") (codes "a") [] (codes " + (b")
      (codes ");" ∷ []) refl refl refl name-Balanced nil reopened_counts

find_end_iff_example : (find_end b'(' b')' (codes "a()) + x)") 2 (pos 1) ≡ some 6) ↔ (
    (b : Text) × (t : Text) × (codes "a()) + x)" ≡ b ++ b')' ∷ t)
    × Balanced b'(' b')' b
    × (6 ≡ 2 + length b + 1))
find_end_iff_example = find_end_iff b'(' b')' (omega arith) (codes "a()) + x)") 2 6
