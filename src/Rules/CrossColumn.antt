-- ===== src/Rules/CrossColumn.antt =====
-- The key of a cross-column assignment does not depend on the order of its columns.
use mathlib.Core.List.{Permᴰ}
use datacraft_backend.Prelude.{
  ℕ, ◌≡◌, refl, ◌∙◌, true, false, List, [], ◌∷◌, map, arith, nat_eq, string_eq, option_eq,
}
use datacraft_backend.Core.Text.{Text, text_eq}
use datacraft_backend.Rules.Assignments.{text_lt, insert_sorted, sorted, cross_column_key}

-- `<` is a strict total order.
text_lt_asym : (a b : Text) → text_lt a b ≡ true → text_lt b a ≡ false
unfolding text_lt
text_lt_asym [] [] h = cc
text_lt_asym [] (y ∷ ys) h = refl
text_lt_asym (x ∷ xs) [] h = cc
text_lt_asym (x ∷ xs) (y ∷ ys) h = ground (arith, text_lt_asym xs ys)

text_lt_total : (a b : Text) → text_lt a b ≡ false → text_lt b a ≡ false → a ≡ b
unfolding text_lt
text_lt_total [] [] h g = refl
text_lt_total [] (y ∷ ys) h g = cc
text_lt_total (x ∷ xs) [] h g = cc
text_lt_total (x ∷ xs) (y ∷ ys) h g = ground (arith, text_lt_total xs ys)

text_lt_trans : (a b c : Text) → text_lt a b ≡ true → text_lt b c ≡ true → text_lt a c ≡ true
unfolding text_lt
text_lt_trans [] [] c h g = cc
text_lt_trans [] (y ∷ ys) [] h g = cc
text_lt_trans [] (y ∷ ys) (z ∷ zs) h g = refl
text_lt_trans (x ∷ xs) [] c h g = cc
text_lt_trans (x ∷ xs) (y ∷ ys) [] h g = cc
text_lt_trans (x ∷ xs) (y ∷ ys) (z ∷ zs) h g = ground (arith, text_lt_trans xs ys zs)

-- Two insertions commute.
insert_sorted_comm :
    (a b : Text) (l : List Text)
    → insert_sorted a (insert_sorted b l) ≡ insert_sorted b (insert_sorted a l)
unfolding insert_sorted
insert_sorted_comm a b [] = ground (arith, text_lt_asym a b, text_lt_total a b)
insert_sorted_comm a b (s ∷ l) = ground (
  arith,
  insert_sorted_comm a b l,
  text_lt_asym a b,
  text_lt_total a b,
  text_lt_trans a s b,
  text_lt_trans b s a,
  text_lt_asym a s,
  text_lt_total a s,
  text_lt_asym b s,
  text_lt_total b s,
)

module _ (str : ℕ → Text) where
  sorted-Permᴰ : {xs ys : List ℕ} → Permᴰ xs ys → sorted (map str xs) ≡ sorted (map str ys)
  unfolding sorted
  sorted-Permᴰ Permᴰ.nil = refl
  sorted-Permᴰ (Permᴰ.cons e p) = ground (arith, e, sorted-Permᴰ p)
  sorted-Permᴰ (Permᴰ.swap {a} {b} {l = l} e g) =
      rw (← e, ← g) (insert_sorted_comm (str a) (str b) (sorted (map str l)))
  sorted-Permᴰ (Permᴰ.trans p q) = sorted-Permᴰ p ∙ sorted-Permᴰ q

  -- The key is that of the set of columns.
  pub cross_column_key-Permᴰ :
      {xs ys : List ℕ} → Permᴰ xs ys → cross_column_key str xs ≡ cross_column_key str ys
  unfolding cross_column_key
  cross_column_key-Permᴰ p = rw (sorted-Permᴰ p) refl
