-- ===== src/Prelude/Lists.antt =====
-- Lists measured by native numbers.
use Prim.Native.Nat.{ℕ, zero, suc, ◌+◌, ◌≤◌}
use mathlib.Core.Path.{◌≡◌, refl}
use mathlib.Core.List.{List, [], ◌∷◌, ◌++◌}
use native.Mathlib.Omega.{arith}

module _ {ℓ} {A : Type ℓ} where
  abbrev pub length : List A → ℕ
  length [] = 0
  length (x ∷ xs) = suc (length xs)

  pub length-append : (xs ys : List A) → length (xs ++ ys) ≡ length xs + length ys
  length-append [] ys = omega arith
  length-append (x ∷ xs) ys = omega (arith, length-append xs ys)

-- A property of every element, computed to a tuple.
abbrev pub All {ℓ κ} : {X : Type ℓ} → (Q : X → Type κ) → List X → Type κ
All Q [] = Unit
All Q (x ∷ rest) = Q x × All Q rest

pub All-append {ℓ κ} :
    {X : Type ℓ} (Q : X → Type κ) (front back : List X)
    → All Q front
    → All Q back
    → All Q (front ++ back)
All-append Q [] back now later = later
All-append Q (x ∷ front) back now later = (now.0, All-append Q front back now.1 later)

module _ {ℓ} {A : Type ℓ} where
  -- `s[:n]`
  abbrev pub take : ℕ → List A → List A
  take zero xs = []
  take (suc n) [] = []
  take (suc n) (x ∷ xs) = x ∷ take n xs

  pub length-take : (n : ℕ) (xs : List A) → n ≤ length xs → length (take n xs) ≡ n
  length-take zero xs h = refl
  length-take (suc n) [] h = absurd (omega (arith, h))
  length-take (suc n) (x ∷ xs) h = omega (arith, length-take n xs (omega (arith, h)))
