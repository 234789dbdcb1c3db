-- ===== src/Base/DistinctKeys.antt =====
-- Association lists whose keys differ, as a `HashMap`'s do.
use Prim.Native.Nat.{ℕ, zero, suc}
use mathlib.Core.Path.{◌≡◌, refl, sym, subst}
use mathlib.Core.Logic.{◌≢◌, inl, inr}
use mathlib.Core.Bool.{Bool, true, false}
use mathlib.Core.List.{[], ◌∷◌}
use native.Mathlib.Omega.{arith}
use simple_claw.Base.Tests.{Bool-cases}
use simple_claw.Base.Lists.{All, take}
use simple_claw.Base.Texts.{Text, ◌==◌}
use simple_claw.Base.Sorting.{insert_sorted, sort_by, All-insert_sorted, All-sort_by, All-take}
use simple_claw.Base.Dict
use simple_claw.Base.Dict.{Dict}

here : (j k : Text) → (j == k) ≡ true → j ≡ k
here j k h = ground arith

elsewhere : (j k : Text) → (j == k) ≡ false → j ≢ k
elsewhere j k h = ground arith

module _ {ℓ} {V : Type ℓ} where
  -- The key is not in the list.
  abbrev pub Lacking : Text → Dict V → Type 0
  Lacking k m = All (λ (p : Text × V). k ≢ p.0) m

  abbrev pub Distinct : Dict V → Type 0
  Distinct [] = Unit
  Distinct ((k, v) ∷ m) = Lacking k m × Distinct m

  pub remove-Lacking : (m : Dict V) (k : Text) → Lacking k m → Dict.remove m k ≡ m
  unfolding Dict.remove
  remove-Lacking [] k h = refl
  remove-Lacking ((j, v) ∷ m) k (h, hs) = ground (arith, remove-Lacking m k hs)

  pub Lacking-remove : (m : Dict V) (j k : Text) → Lacking j m → Lacking j (Dict.remove m k)
  unfolding Dict.remove
  Lacking-remove [] j k h = tt
  Lacking-remove ((i, v) ∷ m) j k (h, hs) = elim (Bool-cases (i == k)) [
    | inl e ↦ rw e (Lacking-remove m j k hs)
    | inr e ↦ rw e (h, Lacking-remove m j k hs)
  ]

  pub Distinct-remove : (m : Dict V) (k : Text) → Distinct m → Distinct (Dict.remove m k)
  unfolding Dict.remove
  Distinct-remove [] k h = tt
  Distinct-remove ((i, v) ∷ m) k (h, hs) = elim (Bool-cases (i == k)) [
    | inl e ↦ rw e (Distinct-remove m k hs)
    | inr e ↦ rw e (Lacking-remove m i k h, Distinct-remove m k hs)
  ]

  pub Lacking-insert :
      (m : Dict V) (j k : Text) (v : V) → j ≢ k → Lacking j m → Lacking j (Dict.insert m k v)
  unfolding Dict.insert
  Lacking-insert [] j k v ne h = (ne, tt)
  Lacking-insert ((i, w) ∷ m) j k v ne (h, hs) = elim (Bool-cases (i == k)) [
    | inl e ↦ rw e (ne, hs)
    | inr e ↦ rw e (h, Lacking-insert m j k v ne hs)
  ]

  pub Distinct-insert : (m : Dict V) (k : Text) (v : V) → Distinct m → Distinct (Dict.insert m k v)
  unfolding Dict.insert
  Distinct-insert [] k v h = (tt, tt)
  Distinct-insert ((i, w) ∷ m) k v (h, hs) = elim (Bool-cases (i == k)) [
    | inl e ↦ rw e (subst (λ x. Lacking x m) (here i k e) h, hs)
    | inr e ↦ rw e (Lacking-insert m i k v (elsewhere i k e) h, Distinct-insert m k v hs)
  ]

  module _ (before : Text × V → Text × V → Bool) where
    pub Distinct-insert_sorted :
        (x : Text × V) (m : Dict V)
        → Lacking x.0 m
        → Distinct m
        → Distinct (insert_sorted before x m)
    unfolding insert_sorted
    Distinct-insert_sorted x [] l d = (tt, tt)
    Distinct-insert_sorted x (y ∷ m) (n, l) (l', d) = elim (Bool-cases (before x y)) [
      | inl e ↦ rw e ((n, l), (l', d))
      | inr e ↦ rw e (
        All-insert_sorted before (λ (p : Text × V). y.0 ≢ p.0) x m (λ q. n (sym q)) l',
        Distinct-insert_sorted x m l d,
      )
    ]

    pub Distinct-sort_by : (m : Dict V) → Distinct m → Distinct (sort_by before m)
    unfolding sort_by
    Distinct-sort_by [] d = tt
    Distinct-sort_by (x ∷ m) (l, d) =
        Distinct-insert_sorted x (sort_by before m)
          (All-sort_by before (λ (p : Text × V). x.0 ≢ p.0) m l) (Distinct-sort_by m d)

  pub Distinct-take : (n : ℕ) (m : Dict V) → Distinct m → Distinct (take n m)
  Distinct-take zero m d = tt
  Distinct-take (suc n) [] d = tt
  Distinct-take (suc n) (x ∷ m) (l, d) =
      (All-take (λ (p : Text × V). x.0 ≢ p.0) n m l, Distinct-take n m d)
