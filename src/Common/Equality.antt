-- ===== src/Common/Equality.antt =====
-- Types with a Boolean equality: the keys of the program's maps.
use mathlib.Core.Path.{◌≡◌}
use mathlib.Core.Logic.{◌↔◌}
use mathlib.Core.Bool.{Bool, true}
use Prim.Native.Nat.{ℕ}
use my_database_engine.Common.Tests.{nat_beq, nat_beq_iff}

pub record MapKey {ℓ} (K : Type ℓ) : Type ℓ where
  pub same : K → K → Bool
  pub same_iff : (x y : K) → (same x y ≡ true) ↔ (x ≡ y)

module _ {ℓ} {K : Type ℓ} ⦃key : MapKey K⦄ where
  infix 50 ◌==◌
  abbrev pub ◌==◌ : K → K → Bool
  x == y = key.same x y

  pub ==_iff : (x y : K) → ((x == y) ≡ true) ↔ (x ≡ y)
  ==_iff x y = key.same_iff x y

instance abbrev pub number_key : MapKey ℕ
number_key = record { same = nat_beq; same_iff = nat_beq_iff }
