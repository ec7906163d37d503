-- ===== src/Prelude/Maps.antt =====
-- Go maps as association lists: `m[k]`, `m[k] = v`, `delete(m, k)`.
use mathlib.Core.Path.{◌≡◌, refl}
use mathlib.Core.Bool.{Bool, true, false}
use mathlib.Core.Option.{Option, none, some}
use mathlib.Core.List.{List, [], ◌∷◌}
use native.Mathlib.Omega.{arith}
use guild_net.Prelude.Tests.{if◌then◌else◌}
use guild_net.Prelude.Equality.{Comparable, ◌==◌}

abbrev pub Assoc {ℓ κ} : Type ℓ → Type κ → Type (ℓ ⊔ κ)
Assoc K V = List (K × V)

module _ {ℓ κ} {K : Type ℓ} {V : Type κ} where
  abbrev pub keys : Assoc K V → List K
  keys [] = []
  keys ((k, v) ∷ m) = k ∷ keys m

module _ {ℓ κ} {K : Type ℓ} {V : Type κ} ⦃c : Comparable K⦄ where
  unfoldable pub insert : K → V → Assoc K V → Assoc K V
  insert key new [] = (key, new) ∷ []
  insert key new ((i, old) ∷ m) =
      let rest = insert key new m in if i == key then (key, new) ∷ m else (i, old) ∷ rest

  unfoldable pub lookup : K → Assoc K V → Option V
  lookup key [] = none
  lookup key ((i, found) ∷ m) = let rest = lookup key m in if i == key then some found else rest

  unfoldable pub delete : K → Assoc K V → Assoc K V
  delete k [] = []
  delete k ((j, v) ∷ m) = let rest = delete k m in if j == k then rest else (j, v) ∷ rest

  -- `_, ok := m[k]`
  unfoldable pub has : K → Assoc K V → Bool
  has k m = elim (lookup k m) [ some v ↦ true | none ↦ false ]

  pub lookup-insert :
      (key other : K) (new : V) (m : Assoc K V)
      → lookup other (insert key new m) ≡ (if key == other then some new else lookup other m)
  unfolding insert lookup
  lookup-insert key other new [] = ground arith
  lookup-insert key other new ((i, old) ∷ m) = ground (
    arith,
    lookup-insert key other new m,
    c.equal_iff i key,
    c.equal_iff i other,
    c.equal_iff key other,
  )

  pub lookup-delete :
      (k j : K) (m : Assoc K V) → lookup j (delete k m) ≡ (if k == j then none else lookup j m)
  unfolding lookup delete
  lookup-delete k j [] = ground arith
  lookup-delete k j ((i, w) ∷ m) =
      ground (arith, c.equal_iff k j, c.equal_iff i k, c.equal_iff i j, lookup-delete k j m)

  pub lookup_empty : (k : K) → lookup k (let m : Assoc K V = [] in m) ≡ none
  unfolding lookup
  lookup_empty k = refl

  pub lookup-insert_self : (k : K) (v : V) (m : Assoc K V) → lookup k (insert k v m) ≡ some v
  lookup-insert_self k v m = ground (arith, lookup-insert k k v m, c.equal_iff k k)
