-- ===== src/Cache/Tests.antt =====
-- Runs of the cache and the theorems at concrete inputs (pkg/cache/cache.go).
use gkit_go.Prelude.{
  Option, ℕ, ◌≡◌, refl, ℕ_discrete, none, some, List, [], ◌∷◌, arith, map_get, map_put, ite,
  if◌then◌else◌,
}
use gkit_go.Cache.Elements.{locate, element, list_remove, list_back}
use gkit_go.Cache.{get, Cache, new, set, Op, op_set, op_get, op_delete, op_delete_expired, run}
use gkit_go.Cache.Invariant.{Inv}
use gkit_go.Cache.Expiry.{cache-Inv}
use gkit_go.Cache.Reads.{set-get, written_read, evicts_key}
use gkit_go.Cache.Recency.{keys, keys-set}

-- Capacity 2 and a time to live of 10; key 7 is the most recent.
abbrev two : Cache ℕ ℕ
two = record {
  capacity = 2;
  ttl = 10;
  list =
      (1, record { key = 7; value = 70; expires_at = some 15 })
      ∷ (0, record { key = 8; value = 80; expires_at = some 12 })
      ∷ [];
  items = (7, 1) ∷ (8, 0) ∷ [];
  hits = 0;
  misses = 0;
  evicts = 0;
  fresh = 2;
}

two-Inv : Inv ℕ_discrete two
unfolding map_get locate element ℕ_discrete
two-Inv = record {
  indexed = λ k. ground arith;
  proper = (omega arith, refl, refl, (omega arith, refl, refl, tt));
  bounded = omega arith;
  positive = omega arith;
}

-- A third key evicts the least recent one.
eviction_runs : (c : Cache ℕ ℕ) × (set ℕ_discrete 6 9 90 two ≡ some c) × (keys c.list ≡ 9 ∷ 7 ∷ [])
unfolding set map_get map_put element list_remove list_back ℕ_discrete
eviction_runs = (_, refl, refl)

abbrev script : List (Op ℕ ℕ)
script =
    op_set 1 7 70
    ∷ op_get 2 7
    ∷ op_set 3 8 80
    ∷ op_set 4 9 90
    ∷ op_delete_expired 12
    ∷ op_delete 9
    ∷ []

cache-Inv_example :
    (c : Cache ℕ ℕ) × (c' : Cache ℕ ℕ) × (new 2 10 ≡ some c)
    × (run ℕ_discrete script c ≡ some c')
    × Inv ℕ_discrete c'
cache-Inv_example = cache-Inv ℕ_discrete 2 10 script (omega arith)

set-get_example :
    (c' : Cache ℕ ℕ) × (set ℕ_discrete 6 9 90 two ≡ some c')
    × Inv ℕ_discrete c'
    × ((t : ℕ) (j : ℕ)
        → (c₁ c₂ : Cache ℕ ℕ) × (was : Option ℕ) × (get ℕ_discrete t j two ≡ some (c₁, was))
          × (get ℕ_discrete t j c'
              ≡ some (
                c₂,
                ite
                    (ℕ_discrete 9 j)
                    (written_read ℕ_discrete 6 t 90 two)
                    (if evicts_key ℕ_discrete two 9 j then none else was),
              ))
          × Inv ℕ_discrete c₂)
set-get_example = set-get ℕ_discrete 6 9 90 two two-Inv

keys-set_example :
    (c' : Cache ℕ ℕ) × (set ℕ_discrete 6 9 90 two ≡ some c') × (keys c'.list ≡ 9 ∷ 7 ∷ [])
unfolding ℕ_discrete
keys-set_example = keys-set ℕ_discrete 6 9 90 two two-Inv
