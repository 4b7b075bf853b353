-- ===== src/Base/Lists.antt =====
-- Lists measured by native numbers, Boolean tests on lists, and the predicate `All`.
use Prim.Native.Nat.{ℕ, zero, suc, ◌+◌, ◌≤◌}
use Prim.Native.String.{String}
use mathlib.Core.Path.{◌≡◌, refl, ap}
use mathlib.Core.Logic.{◌⊎◌, inl, inr}
use mathlib.Core.Bool.{Bool, true, false, ◌&&◌, ◌||◌}
use mathlib.Core.List.{List, [], ◌∷◌, ◌++◌}
use native.Mathlib.Omega.{arith}
use text.Mathlib.Text.{◌==◌}
use dqmgui_prod.Base.Tests.{nat_eq}

module _ {ℓ} {A : Type ℓ} where
  abbrev pub length : List A → ℕ
  length [] = 0
  length (x ∷ xs) = suc (length xs)

  pub length-append : (xs ys : List A) → length (xs ++ ys) ≡ length xs + length ys
  length-append [] ys = omega arith
  length-append (x ∷ xs) ys = omega (arith, length-append xs ys)

  abbrev pub take : ℕ → List A → List A
  take zero xs = []
  take (suc n) [] = []
  take (suc n) (x ∷ xs) = x ∷ take n xs

  -- every element passes the test, as Python's `all`
  unfoldable pub all : (A → Bool) → List A → Bool
  all p [] = true
  all p (x ∷ xs) = p x && all p xs

pub List-cases {ℓ} :
    {A : Type ℓ} (xs : List A) → (xs ≡ []) ⊎ ((x : A) × (ys : List A) × (xs ≡ x ∷ ys))
List-cases [] = inl refl
List-cases (x ∷ xs) = inr (x, xs, refl)

module _ {ℓ κ} {A : Type ℓ} where
  abbrev pub All : (A → Type κ) → List A → Type κ
  All P [] = Unit
  All P (x ∷ xs) = P x × All P xs

  pub All-append : (P : A → Type κ) (xs ys : List A) → All P xs → All P ys → All P (xs ++ ys)
  All-append P [] ys h k = k
  All-append P (x ∷ xs) ys (p, h) k = (p, All-append P xs ys h k)

-- `x in (…)` over texts
unfoldable pub member : String → List String → Bool
member x [] = false
member x (y ∷ ys) = y == x || member x ys

-- `a == b` of two texts of bytes
unfoldable pub same_bytes : List ℕ → List ℕ → Bool
same_bytes [] [] = true
same_bytes [] (d ∷ ds) = false
same_bytes (c ∷ cs) [] = false
same_bytes (c ∷ cs) (d ∷ ds) = nat_eq c d && same_bytes cs ds

module _ {ℓ} {A : Type ℓ} where
  -- what is cut off beyond the count does not show in it
  pub take-append_take :
      (n m : ℕ) (xs rest : List A) → n ≤ m → take n (take m xs ++ rest) ≡ take n (xs ++ rest)
  take-append_take zero m xs rest h = refl
  take-append_take (suc n) zero xs rest h = absurd (omega arith)
  take-append_take (suc n) (suc m) [] rest h = refl
  take-append_take (suc n) (suc m) (x ∷ xs) rest h =
      ap (◌∷◌ x) (take-append_take n m xs rest (omega arith))

  pub take-append-append_take :
      (n m : ℕ) (f xs rest : List A)
      → n ≤ m
      → take n (f ++ (take m xs ++ rest)) ≡ take n (f ++ (xs ++ rest))
  take-append-append_take n m [] xs rest h = take-append_take n m xs rest h
  take-append-append_take zero m (a ∷ f) xs rest h = refl
  take-append-append_take (suc n) m (a ∷ f) xs rest h =
      ap (◌∷◌ a) (take-append-append_take n m f xs rest (omega arith))

  -- enough elements are there already
  pub take-append_enough :
      (n : ℕ) (xs rest : List A) → n ≤ length xs → take n (xs ++ rest) ≡ take n xs
  take-append_enough zero xs rest h = refl
  take-append_enough (suc n) [] rest h = absurd (omega arith)
  take-append_enough (suc n) (x ∷ xs) rest h =
      ap (◌∷◌ x) (take-append_enough n xs rest (omega arith))
