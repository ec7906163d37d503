-- ===== src/Prelude/Equality.antt =====
-- Go's `==` on the key types: an operation with its law, found by instance.
use Prim.Native.Nat.{ℕ}
use mathlib.Core.Path.{◌≡◌, refl}
use mathlib.Core.Logic.{◌↔◌}
use mathlib.Core.Bool.{Bool, true, ◌&&◌}
use native.Mathlib.Omega.{arith}
use guild_net.Prelude.Tests.{eqb}

-- `equal_iff` is what a map relies on: equal keys are the same key.
pub record Comparable {ℓ} (K : Type ℓ) : Type ℓ where
  pub equal : K → K → Bool
  pub equal_iff : (x y : K) → (equal x y ≡ true) ↔ (x ≡ y)

abbrev pub ◌==◌ {ℓ} : {K : Type ℓ} ⦃c : Comparable K⦄ → K → K → Bool

infix 50 ◌==◌
◌==◌ ⦃c⦄ x y = c.equal x y

pub eqb_iff : (a b : ℕ) → (eqb a b ≡ true) ↔ (a ≡ b)
eqb_iff a b = ground arith

instance abbrev pub nat_eq : Comparable ℕ
nat_eq = record { equal = eqb; equal_iff = eqb_iff }

module _ {ℓ} {A : Type ℓ} ⦃e : Comparable A⦄ where
  pub equal_refl : (a : A) → (a == a) ≡ true
  equal_refl a = (e.equal_iff a a).1 refl

-- A pair is compared component by component.
module _ {A B : Type 0} ⦃e : Comparable A⦄ ⦃f : Comparable B⦄ where
  abbrev pub pair_equal : A × B → A × B → Bool
  pair_equal (a, b) (c, d) = a == c && b == d

  pub pair_equal_iff : (p q : A × B) → (pair_equal p q ≡ true) ↔ (p ≡ q)
  pair_equal_iff (a, b) (c, d) = ground (arith, e.equal_iff a c, f.equal_iff b d)

  instance abbrev pub pair_eq : Comparable (A × B)
  pair_eq = record { equal = pair_equal; equal_iff = pair_equal_iff }
