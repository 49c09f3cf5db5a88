-- ===== src/Prelude/Maps.antt =====
-- A Go map, as an association list in which `map_delete` leaves no entry for its key.
use mathlib.Core.Path.{◌≡◌}
use mathlib.Core.Logic.{ite}
use mathlib.Core.List.{List, [], ◌∷◌}
use mathlib.Core.Option.{Option, none, some}
use native.Mathlib.Omega.{arith}

abbrev pub Assoc {ℓ} : Type ℓ → Type ℓ → Type ℓ
Assoc K V = List (K × V)

module _ {ℓ} {K V : Type ℓ} (dec : Discrete K) where
  unfoldable pub map_get : Assoc K V → K → Option V
  map_get [] k = none
  map_get ((j, v) ∷ m) k = ite (dec j k) (some v) (map_get m k)

  unfoldable pub map_delete : Assoc K V → K → Assoc K V
  map_delete [] k = []
  map_delete ((j, v) ∷ m) k = let rest = map_delete m k in ite (dec j k) rest ((j, v) ∷ rest)

  unfoldable pub map_put : Assoc K V → K → V → Assoc K V
  map_put m k v = (k, v) ∷ map_delete m k

  pub get-delete :
      (m : Assoc K V) (k j : K) → map_get (map_delete m k) j ≡ ite (dec k j) none (map_get m j)
  unfolding map_get map_delete
  get-delete [] k j = ground arith
  get-delete ((i, v) ∷ m) k j = ground (arith, get-delete m k j)

  pub get-put :
      (m : Assoc K V) (k : K) (v : V) (j : K)
      → map_get (map_put m k v) j ≡ ite (dec k j) (some v) (map_get m j)
  unfolding map_get map_put
  get-put m k v j = ground (arith, get-delete m k j)

  -- No key stands twice.
  abbrev pub IsMap : Assoc K V → Type ℓ
  IsMap [] = Unit
  IsMap ((k, v) ∷ m) = (map_get m k ≡ none) × IsMap m

  pub map_delete-IsMap : (m : Assoc K V) (k : K) → IsMap m → IsMap (map_delete m k)
  unfolding map_get map_delete
  map_delete-IsMap [] k h = tt
  map_delete-IsMap ((j, v) ∷ m) k h = ground (arith, get-delete m k j, map_delete-IsMap m k)

  pub map_put-IsMap : (m : Assoc K V) (k : K) (v : V) → IsMap m → IsMap (map_put m k v)
  unfolding map_put
  map_put-IsMap m k v h = (ground (arith, get-delete m k k), map_delete-IsMap m k h)
