-- ===== src/Prelude/Maps.antt =====
-- Go's `map[string]V` as an association list, the first entry of a key being the one that counts.
-- The order of the entries stands for Go's unspecified order of iteration.
use Prim.Native.String.{String}
use mathlib.Core.Path.{◌≡◌, refl}
use mathlib.Core.Bool.{Bool}
use mathlib.Core.List.{List, [], ◌∷◌}
use mathlib.Core.Option.{Option, none, some}
use native.Mathlib.Omega.{arith}
use text.Mathlib.TextEquality.{eq_iff}
use phazechat_world.Prelude.Tests.{◌==◌, if◌then◌else◌}

abbrev pub Map {ℓ} : Type ℓ → Type ℓ
Map V = List (String × V)

module _ {ℓ} {V : Type ℓ} where
  -- `v, ok := m[k]`
  unfoldable pub lookup : String → Map V → Option V
  lookup k [] = none
  lookup k ((j, v) ∷ m) = if j == k then some v else lookup k m

  -- `delete(m, k)`
  unfoldable pub delete : String → Map V → Map V
  delete k [] = []
  delete k ((j, v) ∷ m) = let rest = delete k m in if j == k then rest else (j, v) ∷ rest

  -- `m[k] = v`
  unfoldable pub insert : String → V → Map V → Map V
  unfolding delete
  insert k v m = (k, v) ∷ delete k m

  -- `for k, v := range m { if !p(v) { delete(m, k) } }`
  unfoldable pub retain : (V → Bool) → Map V → Map V
  unfolding delete
  retain p [] = []
  retain p ((k, v) ∷ m) = let rest = retain p m in if p v then (k, v) ∷ rest else delete k rest

  -- An entry that is kept only if it passes a test.
  abbrev pub guarded : (V → Bool) → Option V → Option V
  guarded p none = none
  guarded p (some v) = if p v then some v else none

  pub lookup-delete :
      (k j : String) (m : Map V) → lookup j (delete k m) ≡ (if k == j then none else lookup j m)
  unfolding lookup delete
  lookup-delete k j [] = ground arith
  lookup-delete k j ((i, w) ∷ m) =
      ground (arith, eq_iff k j, eq_iff i k, eq_iff i j, lookup-delete k j m)

  pub lookup-insert :
      (k j : String) (v : V) (m : Map V)
      → lookup j (insert k v m) ≡ (if k == j then some v else lookup j m)
  unfolding lookup insert
  lookup-insert k j v m = ground (arith, lookup-delete k j m)

  pub lookup-retain :
      (p : V → Bool) (j : String) (m : Map V) → lookup j (retain p m) ≡ guarded p (lookup j m)
  unfolding lookup retain
  lookup-retain p j [] = refl
  lookup-retain p j ((i, w) ∷ m) =
      ground (arith, eq_iff i j, lookup-delete i j (retain p m), lookup-retain p j m)

module _ {ℓ} {V : Type ℓ} where
  -- `UPDATE … WHERE key = k`: a missing key changes nothing.
  unfoldable pub modify : (V → V) → String → Map V → Map V
  modify f k [] = []
  modify f k ((j, v) ∷ m) =
      let rest = modify f k m in if j == k then (j, f v) ∷ m else (j, v) ∷ rest

  -- `UPDATE` of every row of a table.
  unfoldable pub update_all : (V → V) → Map V → Map V
  update_all f [] = []
  update_all f ((j, v) ∷ m) = (j, f v) ∷ update_all f m

  abbrev pub apply : (V → V) → Option V → Option V
  apply f none = none
  apply f (some v) = some (f v)

  pub lookup-modify :
      (f : V → V) (k j : String) (m : Map V)
      → lookup j (modify f k m) ≡ (if k == j then apply f (lookup j m) else lookup j m)
  unfolding lookup modify
  lookup-modify f k j [] = ground arith
  lookup-modify f k j ((i, w) ∷ m) =
      ground (arith, eq_iff k j, eq_iff i k, eq_iff i j, lookup-modify f k j m)

  pub lookup-update_all :
      (f : V → V) (j : String) (m : Map V) → lookup j (update_all f m) ≡ apply f (lookup j m)
  unfolding lookup update_all
  lookup-update_all f j [] = refl
  lookup-update_all f j ((i, w) ∷ m) = ground (arith, lookup-update_all f j m)

pub ruleset map_laws =
    (lookup-insert, lookup-delete, lookup-retain, lookup-modify, lookup-update_all)
