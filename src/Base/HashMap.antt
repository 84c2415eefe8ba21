-- ===== src/Base/HashMap.antt =====
-- `std::collections::HashMap` as an association list, by what lookups see.
use mathlib.Core.Path.{◌≡◌, refl}
use mathlib.Core.List.{List, [], ◌∷◌}
use mathlib.Core.Option.{Option, none, some}
use native.Mathlib.Omega.{arith}
use yaffle.Base.Tests.{if◌then◌else◌, Eq, ◌==◌}

abbrev pub HashMap {ℓ} : Type ℓ → Type ℓ → Type ℓ
HashMap K V = List (K × V)

module _ {ℓ} {K V : Type ℓ} ⦃e : Eq K⦄ where
  unfoldable pub lookup : K → HashMap K V → Option V
  lookup key [] = none
  lookup key ((name, value) ∷ rest) = if name == key then some value else lookup key rest

  unfoldable pub insert : K → V → HashMap K V → HashMap K V
  insert key new [] = (key, new) ∷ []
  insert key new ((name, old) ∷ rest) =
      if name == key then (key, new) ∷ rest else (name, old) ∷ insert key new rest

  unfoldable pub remove : K → HashMap K V → HashMap K V
  remove key [] = []
  remove key ((name, value) ∷ rest) =
      let left = remove key rest in if name == key then left else (name, value) ∷ left

  pub lookup-insert :
      (key other : K) (new : V) (map : HashMap K V)
      → lookup other (insert key new map) ≡ (if key == other then some new else lookup other map)
  unfolding lookup insert
  lookup-insert key other new [] = refl
  lookup-insert key other new ((name, old) ∷ rest) = ground (
    arith,
    e.equals_iff name other,
    e.equals_iff name key,
    e.equals_iff key other,
    lookup-insert key other new rest,
  )

  pub lookup-remove :
      (key other : K) (map : HashMap K V)
      → lookup other (remove key map) ≡ (if key == other then none else lookup other map)
  unfolding lookup remove
  lookup-remove key other [] = ground arith
  lookup-remove key other ((name, old) ∷ rest) = ground (
    arith,
    e.equals_iff name other,
    e.equals_iff name key,
    e.equals_iff key other,
    lookup-remove key other rest,
  )
