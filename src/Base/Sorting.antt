-- ===== src/Base/Sorting.antt =====
-- `sort_by`: a stable insertion sort, and what it keeps.
use mathlib.Core.Bool.{Bool, true, false, ◌||◌}
use mathlib.Core.List.{List, [], ◌∷◌}
use mathlib.Core.Path.{◌≡◌, refl}
use Prim.Native.Nat.{ℕ, zero, suc}
use native.Mathlib.Omega.{arith}
use simple_claw.Base.Tests.{if◌then◌else◌, Bool-cases}
use mathlib.Core.Logic.{inl, inr}
use simple_claw.Base.Lists.{length, take, All, any}

||-swap : (a b c : Bool) → (a || (b || c)) ≡ (b || (a || c))
||-swap a b c = ground arith

module _ {ℓ} {A : Type ℓ} (before : A → A → Bool) where
  -- `before x y`: `x`, which comes first in the input, may stay in front of `y`.
  unfoldable pub insert_sorted : A → List A → List A
  insert_sorted x [] = x ∷ []
  insert_sorted x (y ∷ ys) =
      let rest = insert_sorted x ys in if before x y then x ∷ y ∷ ys else y ∷ rest

  unfoldable pub sort_by : List A → List A
  sort_by [] = []
  sort_by (x ∷ xs) = insert_sorted x (sort_by xs)

  pub length-insert_sorted : (x : A) (ys : List A) → length (insert_sorted x ys) ≡ suc (length ys)
  unfolding insert_sorted
  length-insert_sorted x [] = ground arith
  length-insert_sorted x (y ∷ ys) = ground (arith, length-insert_sorted x ys)

  pub length-sort_by : (xs : List A) → length (sort_by xs) ≡ length xs
  unfolding sort_by
  length-sort_by [] = ground arith
  length-sort_by (x ∷ xs) = ground (arith, length-insert_sorted x (sort_by xs), length-sort_by xs)

  any-insert_sorted :
      (p : A → Bool) (x : A) (ys : List A) → any p (insert_sorted x ys) ≡ p x || any p ys
  unfolding insert_sorted
  any-insert_sorted p x [] = refl
  any-insert_sorted p x (y ∷ ys) = elim (Bool-cases (before x y)) [
    | inl e ↦ rw e refl
    | inr e ↦ rw (e, any-insert_sorted p x ys) (||-swap (p y) (p x) (any p ys))
  ]

  pub any-sort_by : (p : A → Bool) (xs : List A) → any p (sort_by xs) ≡ any p xs
  unfolding sort_by
  any-sort_by p [] = refl
  any-sort_by p (x ∷ xs) = rw (any-insert_sorted p x (sort_by xs), any-sort_by p xs) refl

  module _ {κ} (P : A → Type κ) where
    pub All-insert_sorted : (x : A) (ys : List A) → P x → All P ys → All P (insert_sorted x ys)
    unfolding insert_sorted
    All-insert_sorted x [] p ps = (p, tt)
    All-insert_sorted x (y ∷ ys) p (q, qs) = elim (Bool-cases (before x y)) [
      | inl e ↦ rw e (p, (q, qs))
      | inr e ↦ rw e (q, All-insert_sorted x ys p qs)
    ]

    pub All-sort_by : (xs : List A) → All P xs → All P (sort_by xs)
    unfolding sort_by
    All-sort_by [] ps = tt
    All-sort_by (x ∷ xs) (p, ps) = All-insert_sorted x (sort_by xs) p (All-sort_by xs ps)

module _ {ℓ κ} {A : Type ℓ} (P : A → Type κ) where
  pub All-take : (n : ℕ) (xs : List A) → All P xs → All P (take n xs)
  All-take zero xs ps = tt
  All-take (suc n) [] ps = tt
  All-take (suc n) (x ∷ xs) (p, ps) = (p, All-take n xs ps)

module _ {ℓ} {A : Type ℓ} (before : A → A → Bool) where
  -- Every element may stand in front of those after it.
  abbrev pub Sorted : List A → Type 0
  Sorted [] = Unit
  Sorted (x ∷ xs) = All (λ y. before x y ≡ true) xs × Sorted xs

  module _ (total : (x y : A) → before x y ≡ false → before y x ≡ true)
      (transitive : (x y z : A) → before x y ≡ true → before y z ≡ true → before x z ≡ true) where
    after :
        (x y : A) (ys : List A)
        → before x y ≡ true
        → All (λ z. before y z ≡ true) ys
        → All (λ z. before x z ≡ true) ys
    after x y [] h hs = tt
    after x y (z ∷ ys) h (h', hs) = (transitive x y z h h', after x y ys h hs)

    insert_sorted-Sorted : (x : A) (ys : List A) → Sorted ys → Sorted (insert_sorted before x ys)
    unfolding insert_sorted
    insert_sorted-Sorted x [] s = (tt, tt)
    insert_sorted-Sorted x (y ∷ ys) (h, s) = elim (Bool-cases (before x y)) [
      | inl e ↦ rw e ((e, after x y ys e h), (h, s))
      | inr e ↦ rw e (
        All-insert_sorted before (λ z. before y z ≡ true) x ys (total x y e) h,
        insert_sorted-Sorted x ys s,
      )
    ]

    pub sort_by-Sorted : (xs : List A) → Sorted (sort_by before xs)
    unfolding sort_by
    sort_by-Sorted [] = tt
    sort_by-Sorted (x ∷ xs) = insert_sorted-Sorted x (sort_by before xs) (sort_by-Sorted xs)
