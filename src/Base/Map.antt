-- ===== src/Base/Map.antt =====
-- `HashMap` with unique keys, as an association list. The program looks keys up, inserts and
-- removes; where it walks over a map, the order of the entries plays no part in what it computes.
use selium.Base.Tests.{Eq, ◌==◌, if◌then◌else◌}
use mathlib.Core.Path.{◌≡◌, refl}
use mathlib.Core.Bool.{true}
use mathlib.Core.Option.{Option, none, some}
use mathlib.Core.List.{List, [], ◌∷◌}
use native.Mathlib.Omega.{arith}

abbrev pub Map : Type 0 → Type 0 → Type 0
Map K V = List (K × V)

module _ {K V : Type 0} ⦃e : Eq K⦄ where
  -- `HashMap::get`
  unfoldable pub lookup : K → Map K V → Option V
  lookup key [] = none
  lookup key ((there, value) ∷ entries) = if there == key then some value else lookup key entries

  -- `HashMap::insert`, replacing the entry of the key
  unfoldable pub insert : K → V → Map K V → Map K V
  insert key new [] = (key, new) ∷ []
  insert key new ((there, old) ∷ entries) =
      let below = insert key new entries in
      if there == key then (key, new) ∷ entries else (there, old) ∷ below

  -- `HashMap::remove`
  unfoldable pub remove : K → Map K V → Map K V
  remove key [] = []
  remove key ((there, old) ∷ entries) =
      let below = remove key entries in if there == key then below else (there, old) ∷ below

  pub lookup-insert :
      (key other : K) (new : V) (entries : Map K V)
      → lookup other (insert key new entries)
        ≡ (if key == other then some new else lookup other entries)
  unfolding lookup insert
  lookup-insert key other new [] = refl
  lookup-insert key other new ((there, old) ∷ entries) = ground (
    arith,
    e.beq_iff key other,
    e.beq_iff there key,
    e.beq_iff there other,
    lookup-insert key other new entries,
  )

  pub lookup-remove :
      (key other : K) (entries : Map K V)
      → lookup other (remove key entries) ≡ (if key == other then none else lookup other entries)
  unfolding lookup remove
  lookup-remove key other [] = ground arith
  lookup-remove key other ((there, old) ∷ entries) = ground (
    arith,
    e.beq_iff key other,
    e.beq_iff there key,
    e.beq_iff there other,
    lookup-remove key other entries,
  )

pub eq_self : {K : Type 0} ⦃e : Eq K⦄ (k : K) → (k == k) ≡ true
eq_self ⦃e⦄ k = (e.beq_iff k k).1 refl
