-- ===== src/Prelude/Sorting.antt =====
-- Stable insertion sort, for the ORDER BY of a query.
use mathlib.Core.Path.{◌≡◌, refl}
use mathlib.Core.Logic.{inl, inr}
use mathlib.Core.Bool.{Bool, true, false}
use mathlib.Core.List.{List, [], ◌∷◌, map}
use Prim.Native.Nat.{ℕ, zero, suc, ◌+◌}
use acquire_intel.Prelude.Tests.{if◌then◌else◌, Bool-cases}
use acquire_intel.Prelude.Lists.{All, All-imp, All-map, take, length}
use native.Mathlib.Omega.{arith}

module _ {ℓ} {A : Type ℓ} (before : A → A → Bool) where
  unfoldable pub insert_by : A → List A → List A
  insert_by x [] = x ∷ []
  insert_by x (y ∷ ys) = if before x y then x ∷ y ∷ ys else y ∷ insert_by x ys

  unfoldable pub sort_by : List A → List A
  unfolding insert_by
  sort_by [] = []
  sort_by (x ∷ xs) = insert_by x (sort_by xs)

  length-insert_by : (x : A) (ys : List A) → length (insert_by x ys) ≡ 1 + length ys
  unfolding insert_by
  length-insert_by x [] = refl
  length-insert_by x (y ∷ ys) = elim (Bool-cases (before x y)) [
    | inl e ↦ rw e (omega arith)
    | inr e ↦ rw e (omega (arith, length-insert_by x ys))
  ]

  pub length-sort_by : (xs : List A) → length (sort_by xs) ≡ length xs
  unfolding sort_by
  length-sort_by [] = refl
  length-sort_by (x ∷ xs) = omega (arith, length-insert_by x (sort_by xs), length-sort_by xs)

  module _ {κ} (P : A → Type κ) where
    insert_by-All : (x : A) (ys : List A) → P x → All P ys → All P (insert_by x ys)
    unfolding insert_by
    insert_by-All x [] h hs = (h, tt)
    insert_by-All x (y ∷ ys) h hs = elim (Bool-cases (before x y)) [
      | inl e ↦ rw e (h, hs)
      | inr e ↦ rw e (hs.0, insert_by-All x ys h hs.1)
    ]

    pub sort_by-All : (xs : List A) → All P xs → All P (sort_by xs)
    unfolding sort_by
    sort_by-All [] h = tt
    sort_by-All (x ∷ xs) h = insert_by-All x (sort_by xs) h.0 (sort_by-All xs h.1)

-- Each element is related to all that come after it.
abbrev pub Ordered {ℓ κ} : {A : Type ℓ} → (A → A → Type κ) → List A → Type κ
Ordered R [] = Unit
Ordered R (x ∷ xs) = All (R x) xs × Ordered R xs

-- A test that decides a transitive relation one way or the other sorts by it.
module _ {ℓ κ} {A : Type ℓ} (before : A → A → Bool) (R : A → A → Type κ)
    (yes_R : (x y : A) → before x y ≡ true → R x y) (no_R : (x y : A) → before x y ≡ false → R y x)
    (trans_R : (x y z : A) → R x y → R y z → R x z) where
  insert_by-Ordered : (x : A) (ys : List A) → Ordered R ys → Ordered R (insert_by before x ys)
  unfolding insert_by
  insert_by-Ordered x [] h = (tt, tt)
  insert_by-Ordered x (y ∷ ys) h = elim (Bool-cases (before x y)) [
    | inl e ↦
        let r = yes_R x y e in rw e ((r, All-imp (R y) (R x) ys (λ z s. trans_R x y z r s) h.0), h)
    | inr e ↦ rw e (insert_by-All before (R y) x ys (no_R x y e) h.0, insert_by-Ordered x ys h.1)
  ]

  pub sort_by-Ordered : (xs : List A) → Ordered R (sort_by before xs)
  unfolding sort_by
  sort_by-Ordered [] = tt
  sort_by-Ordered (x ∷ xs) = insert_by-Ordered x (sort_by before xs) (sort_by-Ordered xs)

module _ {ℓ κ} {A : Type ℓ} where
  pub take-All : (P : A → Type κ) (n : ℕ) (xs : List A) → All P xs → All P (take n xs)
  take-All P zero xs h = tt
  take-All P (suc n) [] h = tt
  take-All P (suc n) (x ∷ xs) h = (h.0, take-All P n xs h.1)

  pub take-Ordered :
      (R : A → A → Type κ) (n : ℕ) (xs : List A) → Ordered R xs → Ordered R (take n xs)
  take-Ordered R zero xs h = tt
  take-Ordered R (suc n) [] h = tt
  take-Ordered R (suc n) (x ∷ xs) h = (take-All (R x) n xs h.0, take-Ordered R n xs h.1)

pub Ordered-map {ℓ κ μ} :
    {A : Type ℓ} {B : Type κ} (f : A → B) (R : B → B → Type μ) (xs : List A)
    → Ordered (λ x y. R (f x) (f y)) xs
    → Ordered R (map f xs)
Ordered-map f R [] h = tt
Ordered-map f R (x ∷ xs) h = (All-map f (R (f x)) xs h.0, Ordered-map f R xs h.1)
