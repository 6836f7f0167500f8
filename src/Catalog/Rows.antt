-- ===== src/Catalog/Rows.antt =====
-- Laws of the table operations that the store's theorems use.
use onlybackup.Prelude.{
  ℕ, ◌+◌, ◌<◌, ◌≡◌, refl, Bool, true, List, [], ◌∷◌, ◌++◌, some, arith, select, count, sum, update,
  All,
}

module _ {ℓ} {A : Type ℓ} where
  -- An update that keeps a test true or false of each row keeps the count of the rows that pass it.
  pub count-update :
      (q p : A → Bool) (f : A → A) (xs : List A)
      → ((x : A) → p x ≡ true → q (f x) ≡ q x)
      → count q (update p f xs) ≡ count q xs
  unfolding count update
  count-update q p f [] h = refl
  count-update q p f (x ∷ xs) h = ground (arith, h x, count-update q p f xs)

  pub sum-update :
      (q : A → Bool) (g : A → ℕ) (p : A → Bool) (f : A → A) (xs : List A)
      → ((x : A) → p x ≡ true → (q (f x) ≡ q x) × (g (f x) ≡ g x))
      → sum q g (update p f xs) ≡ sum q g xs
  unfolding sum update
  sum-update q g p f [] h = refl
  sum-update q g p f (x ∷ xs) h = ground (arith, h x, sum-update q g p f xs)

  pub count-append : (q : A → Bool) (xs ys : List A) → count q (xs ++ ys) ≡ count q xs + count q ys
  unfolding count
  count-append q [] ys = omega arith
  count-append q (x ∷ xs) ys = omega (arith, count-append q xs ys)

  pub sum-append :
      (q : A → Bool) (g : A → ℕ) (xs ys : List A) → sum q g (xs ++ ys) ≡ sum q g xs + sum q g ys
  unfolding sum
  sum-append q g [] ys = omega arith
  sum-append q g (x ∷ xs) ys = omega (arith, sum-append q g xs ys)

  -- A row that is found passes the test.
  pub select-passes : (p : A → Bool) (xs : List A) (x : A) → select p xs ≡ some x → p x ≡ true
  unfolding select
  select-passes p [] x h = cc
  select-passes p (y ∷ ys) x h = ground (arith, select-passes p ys x)

  -- A row that is found is counted.
  pub select-count : (p : A → Bool) (xs : List A) (x : A) → select p xs ≡ some x → 0 < count p xs
  unfolding select count
  select-count p [] x h = cc
  select-count p (y ∷ ys) x h = ground (arith, select-count p ys x)

-- How a table changes: row by row by a relation, with new rows at its end.
pub data Evolves {ℓ κ} {A : Type ℓ} (R : A → A → Type κ) (N : A → Type κ)
    : List A → List A → Type (ℓ ⊔ κ) where
  done : {ys : List A} → All N ys → Evolves R N [] ys
  row : {x y : A} {xs ys : List A} → R x y → Evolves R N xs ys → Evolves R N (x ∷ xs) (y ∷ ys)
