-- ===== src/Examples/Validation.antt =====
-- Three rows, two of which have one value.
use datacraft_backend.Prelude.{
  ℕ, ◌*◌, ◌≡◌, refl, true, List, [], ◌∷◌, map, Option, none, some, nat_eq, string_eq, option_eq,
  is_some, ltb, leb, dict_get, pair_eq,
}
use datacraft_backend.Core.Text.{Text, codes, text_eq}
use datacraft_backend.Validation.Engine.{
  Python, Row, key_of, value_of, row_key, row_key_eq, evaluate_uniqueness, evaluate_duplicate,
}
use datacraft_backend.Validation.Failures.{fail_repeated}
use datacraft_backend.Validation.Repeated.{is_duplicate, evaluate_uniqueness-evaluate_duplicate}

abbrev python : Python
python = record {
  Value = ℕ;
  Key = ℕ;
  Number = ℕ;
  Regex = Text;
  key_eq = nat_eq;
  hashable = λ v. v;
  str = λ v. v ∷ [];
  str_key = λ v. v ∷ [];
  str_all = λ vs. [];
  float = some;
  lt = ltb;
  str_range = λ low high. [];
  matches = λ regex t. true;
  pattern = λ regex. regex;
  is_percentage_at_most = λ a b limit. leb (100 * a) (limit * b);
}

abbrev row_of : ℕ → Option ℕ → Row python
row_of id city = (codes "id", some id) ∷ (codes "city", city) ∷ []

abbrev rows : List (Row python)
rows = row_of 1 (some 9) ∷ row_of 2 none ∷ row_of 3 (some 9) ∷ []

evaluate_uniqueness-evaluate_duplicate_example :
    (is_some (dict_get 2 (evaluate_uniqueness python rows (codes "city") 0 none))
      ≡ is_duplicate 2 (map (λ row. key_of python (value_of python (codes "city") row)) rows))
    × (is_some (dict_get 2 (evaluate_duplicate python rows))
        ≡ is_duplicate ⦃e = row_key_eq python⦄ 2 (map (λ row. some (row_key python row)) rows))
evaluate_uniqueness-evaluate_duplicate_example =
    evaluate_uniqueness-evaluate_duplicate python rows (codes "city") 0 2

fails_last : is_some (dict_get 2 (evaluate_uniqueness python rows (codes "city") 0 none)) ≡ true
unfolding evaluate_uniqueness fail_repeated
fails_last = refl
