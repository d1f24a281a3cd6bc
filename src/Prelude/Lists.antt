-- ===== src/Prelude/Lists.antt =====
-- Lists measured by native numbers, filtered by Boolean tests, and read as Python's sets.
use Prim.Native.Nat.{ℕ, suc, ◌+◌, ◌≤◌}
use mathlib.Core.Path.{◌≡◌, refl, ap}
use mathlib.Core.Bool.{Bool, true, false, not, ◌&&◌, ◌||◌}
use mathlib.Core.List.{List, [], ◌∷◌, ◌++◌}
use native.Mathlib.Omega.{arith}
use datacraft_backend.Prelude.Tests.{if◌then◌else◌}
use datacraft_backend.Prelude.Eq.{Equality, ◌==◌}

module _ {ℓ} {A : Type ℓ} where
  abbrev pub length : List A → ℕ
  length [] = 0
  length (x ∷ xs) = suc (length xs)

  abbrev pub filter : (A → Bool) → List A → List A
  filter p [] = []
  filter p (x ∷ xs) = if p x then x ∷ filter p xs else filter p xs

  -- Python's `all` and `any`
  abbrev pub all : (A → Bool) → List A → Bool
  all p [] = true
  all p (x ∷ xs) = p x && all p xs

  abbrev pub any : (A → Bool) → List A → Bool
  any p [] = false
  any p (x ∷ xs) = p x || any p xs

  abbrev pub is_empty : List A → Bool
  is_empty [] = true
  is_empty (x ∷ xs) = false

  abbrev pub All {κ} : (A → Type κ) → List A → Type κ
  All P [] = Unit
  All P (x ∷ xs) = P x × All P xs

  pub length-append : (xs ys : List A) → length (xs ++ ys) ≡ length xs + length ys
  length-append [] ys = omega arith
  length-append (x ∷ xs) ys = omega (arith, length-append xs ys)

  pub filter-append :
      (p : A → Bool) (xs ys : List A) → filter p (xs ++ ys) ≡ filter p xs ++ filter p ys
  filter-append p [] ys = refl
  filter-append p (x ∷ xs) ys = ground (arith, filter-append p xs ys)

  pub filter_ext :
      (p q : A → Bool) (xs : List A) → ((x : A) → p x ≡ q x) → filter p xs ≡ filter q xs
  filter_ext p q [] h = refl
  filter_ext p q (x ∷ xs) h = ground (arith, h x, filter_ext p q xs h)

  pub filter-filter :
      (p q : A → Bool) (xs : List A) → filter p (filter q xs) ≡ filter (λ x. q x && p x) xs
  filter-filter p q [] = refl
  filter-filter p q (x ∷ xs) = ground (arith, filter-filter p q xs)

  pub length-filter-le : (p : A → Bool) (xs : List A) → length (filter p xs) ≤ length xs
  length-filter-le p [] = omega arith
  length-filter-le p (x ∷ xs) = ground (arith, length-filter-le p xs)

  pub length-filter-not :
      (p : A → Bool) (xs : List A)
      → length (filter p xs) + length (filter (λ x. not (p x)) xs) ≡ length xs
  length-filter-not p [] = omega arith
  length-filter-not p (x ∷ xs) = ground (arith, length-filter-not p xs)

  pub All-imp {κ μ} :
      (P : A → Type κ) (Q : A → Type μ) (xs : List A) → ((x : A) → P x → Q x) → All P xs → All Q xs
  All-imp P Q [] f h = tt
  All-imp P Q (x ∷ xs) f h = (f x h.0, All-imp P Q xs f h.1)

  pub All-append {κ} : (P : A → Type κ) (xs ys : List A) → All P xs → All P ys → All P (xs ++ ys)
  All-append P [] ys hx hy = hy
  All-append P (x ∷ xs) ys hx hy = (hx.0, All-append P xs ys hx.1 hy)

  pub all-append : (p : A → Bool) (xs ys : List A) → all p (xs ++ ys) ≡ (all p xs && all p ys)
  all-append p [] ys = refl
  all-append p (x ∷ xs) ys = ground (arith, all-append p xs ys)

module _ {ℓ} {A : Type ℓ} ⦃e : Equality A⦄ where
  -- `a in xs`
  abbrev pub member : A → List A → Bool
  member a [] = false
  member a (x ∷ xs) = a == x || member a xs

  -- `set(xs)`, as a list in which nothing repeats
  abbrev pub dedup : List A → List A
  dedup [] = []
  dedup (x ∷ xs) = let rest = dedup xs in if member x xs then rest else x ∷ rest

  -- `xs - ys` on sets
  abbrev pub diff : List A → List A → List A
  diff xs ys = filter (λ x. not (member x ys)) xs

  -- `xs.issubset(ys)`
  abbrev pub subset : List A → List A → Bool
  subset xs ys = all (λ x. member x ys) xs

  abbrev pub nodup : List A → Bool
  nodup [] = true
  nodup (x ∷ xs) = not (member x xs) && nodup xs

  pub member-append : (a : A) (xs ys : List A) → member a (xs ++ ys) ≡ (member a xs || member a ys)
  member-append a [] ys = refl
  member-append a (x ∷ xs) ys = ground (arith, member-append a xs ys)

  pub member-dedup : (a : A) (xs : List A) → member a (dedup xs) ≡ member a xs
  member-dedup a [] = refl
  member-dedup a (x ∷ xs) = ground (arith, member-dedup a xs, e.beq_iff a x)

  pub member-filter :
      (a : A) (p : A → Bool) (xs : List A) → member a (filter p xs) ≡ (member a xs && p a)
  member-filter a p [] = refl
  member-filter a p (x ∷ xs) = ground (arith, member-filter a p xs, e.beq_iff a x)

  pub member_of_subset :
      (a : A) (xs ys : List A) → subset xs ys ≡ true → member a xs ≡ true → member a ys ≡ true
  member_of_subset a [] ys s m = cc
  member_of_subset a (x ∷ xs) ys s m = ground (arith, member_of_subset a xs ys, e.beq_iff a x)

  pub nodup-filter : (p : A → Bool) (xs : List A) → nodup xs ≡ true → nodup (filter p xs) ≡ true
  nodup-filter p [] h = refl
  nodup-filter p (x ∷ xs) h = ground (arith, nodup-filter p xs, member-filter x p xs)

  pub nodup-dedup : (xs : List A) → nodup (dedup xs) ≡ true
  nodup-dedup [] = refl
  nodup-dedup (x ∷ xs) = ground (arith, nodup-dedup xs, member-dedup x xs)

  -- the lists have no member in common
  abbrev pub disjoint : List A → List A → Bool
  disjoint xs ys = all (λ x. not (member x ys)) xs

  pub disjoint_intro :
      (xs ys : List A)
      → ((a : A) → member a xs ≡ true → member a ys ≡ false)
      → disjoint xs ys ≡ true
  disjoint_intro [] ys h = refl
  disjoint_intro (x ∷ xs) ys h =
      ground (arith, h x, e.beq_iff x x, disjoint_intro xs ys (λ a m. h a (ground (arith, m))))

  pub nodup-append :
      (xs ys : List A)
      → nodup xs ≡ true
      → nodup ys ≡ true
      → disjoint xs ys ≡ true
      → nodup (xs ++ ys) ≡ true
  nodup-append [] ys hx hy d = hy
  nodup-append (x ∷ xs) ys hx hy d = ground (arith, nodup-append xs ys, member-append x xs ys)

  pub is_empty-member : (a : A) (xs : List A) → is_empty xs ≡ true → member a xs ≡ false
  is_empty-member a [] h = refl
  is_empty-member a (x ∷ xs) h = cc

pub append_assoc : {A : Type 0} (xs ys zs : List A) → (xs ++ ys) ++ zs ≡ xs ++ (ys ++ zs)
append_assoc [] ys zs = refl
append_assoc (x ∷ xs) ys zs = ap (λ l. x ∷ l) (append_assoc xs ys zs)

pub append_nil : {A : Type 0} (xs : List A) → xs ++ [] ≡ xs
append_nil [] = refl
append_nil (x ∷ xs) = ap (λ l. x ∷ l) (append_nil xs)
