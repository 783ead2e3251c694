-- ===== src/Common/Maps.antt =====
-- `std::unordered_map` as an association list in its iteration order. A new key goes to the end:
-- the C++ order is unspecified, and no theorem depends on it.
use mathlib.Core.Path.{◌≡◌, refl}
use mathlib.Core.Bool.{Bool, true, false}
use mathlib.Core.List.{List, [], ◌∷◌}
use mathlib.Core.Option.{Option, none, some}
use native.Mathlib.Omega.{arith}
use my_database_engine.Common.Tests.{if◌then◌else◌}
use my_database_engine.Common.Equality.{MapKey, ◌==◌, ==_iff}

abbrev pub Dict {ℓ κ} : Type ℓ → Type κ → Type (ℓ ⊔ κ)
Dict K V = List (K × V)

module _ {ℓ κ} {K : Type ℓ} {V : Type κ} ⦃e : MapKey K⦄ where
  -- m.find(k)
  unfoldable pub find : K → Dict K V → Option V
  find k [] = none
  find k ((j, v) ∷ m) = if j == k then some v else find k m

  -- m[k] = v
  unfoldable pub assign : K → V → Dict K V → Dict K V
  assign k v [] = (k, v) ∷ []
  assign k v ((j, w) ∷ m) = if j == k then (j, v) ∷ m else (j, w) ∷ assign k v m

  -- m.erase(k)
  unfoldable pub erase : K → Dict K V → Dict K V
  erase k [] = []
  erase k ((j, v) ∷ m) = let rest = erase k m in if j == k then rest else (j, v) ∷ rest

  -- m.count(k)
  abbrev pub contains : K → Dict K V → Bool
  contains k m = elim (find k m) [ none ↦ false | some v ↦ true ]

  pub find-assign :
      (k j : K) (v : V) (m : Dict K V)
      → find j (assign k v m) ≡ (if k == j then some v else find j m)
  unfolding find assign
  find-assign k j v [] = refl
  find-assign k j v ((i, w) ∷ m) =
      ground (arith, ==_iff k j, ==_iff i k, ==_iff i j, find-assign k j v m)

  pub find-erase :
      (k j : K) (m : Dict K V) → find j (erase k m) ≡ (if k == j then none else find j m)
  unfolding find erase
  find-erase k j [] = ground arith
  find-erase k j ((i, w) ∷ m) = ground (arith, ==_iff k j, ==_iff i k, ==_iff i j, find-erase k j m)

pub ==_refl {ℓ} : {K : Type ℓ} ⦃e : MapKey K⦄ → (k : K) → (k == k) ≡ true
==_refl k = (==_iff k k).1 refl
