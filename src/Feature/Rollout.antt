-- ===== src/Feature/Rollout.antt =====
-- For whom a flag is enabled (pkg/feature/feature.go).
use gkit_go.Prelude.{ℕ, ◌≤◌, ◌<◌, ◌≡◌, true, arith}
use gkit_go.Feature.{
  Flag, Fetched, fetched, not_found, fetch_failed, is_enabled, is_enabled_for, hash_bucket,
}

module _ {K : Type 0} (dec : Discrete K) (hash_key : K → K → K) (fnv : K → ℕ) where
  -- To raise a percentage above 0 disables a flag for no entity.
  is_enabled_for-grows :
      (f : Flag K) (p : ℕ) (name entity : K)
      → 0 < f.percentage
      → f.percentage ≤ p
      → is_enabled_for dec hash_key fnv (fetched f) name entity ≡ true
      → is_enabled_for dec hash_key fnv (fetched (record f { percentage = p })) name entity ≡ true
  unfolding is_enabled_for
  is_enabled_for-grows f p name entity pos le h = ground (arith, h)

  -- A flag that is enabled without an entity is enabled for every entity.
  is_enabled-everyone :
      (r : Fetched K) (name entity : K)
      → is_enabled r ≡ true
      → is_enabled_for dec hash_key fnv r name entity ≡ true
  unfolding is_enabled is_enabled_for hash_bucket
  is_enabled-everyone (fetched f) name entity h = ground (arith, h)
  is_enabled-everyone not_found name entity h = ground arith
  is_enabled-everyone fetch_failed name entity h = ground arith
