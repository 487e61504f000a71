-- ===== src/Base/Map.antt =====
-- Go maps with string keys, as association lists with at most one entry for a key after `insert`.
-- `range` over a map visits the entries in an order that Go does not fix.
use integrity_sum.Base.Tests.{if◌then◌else◌}
use integrity_sum.Base.Text.{Bytes, same, same_iff}
use mathlib.Core.Path.{◌≡◌}
use mathlib.Core.Option.{Option, none, some}
use mathlib.Core.List.{List, [], ◌∷◌}
use native.Mathlib.Omega.{arith}

abbrev pub Map {ℓ} : Type ℓ → Type ℓ
Map V = List (Bytes × V)

module _ {ℓ} {V : Type ℓ} where
  -- `v, ok := m[k]`
  unfoldable pub lookup : Bytes → Map V → Option V
  lookup k [] = none
  lookup k ((j, v) ∷ m) = if same j k then some v else lookup k m

  -- `delete(m, k)`
  unfoldable pub delete : Bytes → Map V → Map V
  delete k [] = []
  delete k ((j, v) ∷ m) = let rest = delete k m in if same j k then rest else (j, v) ∷ rest

  -- `m[k] = v`
  unfoldable pub insert : Bytes → V → Map V → Map V
  insert k v m = (k, v) ∷ delete k m

  pub lookup-delete :
      (k j : Bytes) (m : Map V) → lookup j (delete k m) ≡ (if same k j then none else lookup j m)
  unfolding lookup delete
  lookup-delete k j [] = ground arith
  lookup-delete k j ((i, v) ∷ m) =
      ground (arith, lookup-delete k j m, same_iff i k, same_iff i j, same_iff k j)

  pub lookup-insert :
      (k j : Bytes) (v : V) (m : Map V)
      → lookup j (insert k v m) ≡ (if same k j then some v else lookup j m)
  unfolding lookup insert
  lookup-insert k j v m = ground (arith, lookup-delete k j m)

pub ruleset map_laws = (lookup-delete, lookup-insert)
