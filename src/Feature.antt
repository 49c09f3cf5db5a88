-- ===== src/Feature.antt =====
-- The evaluation of feature flags, pkg/feature/feature.go. Names, entities and keys are of a type
-- `K` with decidable equality; `hash_key` joins a name and an entity, and `fnv` is the 64-bit
-- FNV-1a hash. A percentage is a natural number: one below 0 counts as 0.
pub mod Rollout
pub mod Storage
pub mod Entries
pub mod Listing
mod Tests
use gkit_go.Prelude.{
  ℕ, ◌%◌, Bool, true, false, Option, none, some, List, [], ◌∷◌, ltb, leb, ◌==◌, ◌&&◌, ◌||◌,
  if◌then◌else◌, length, ite,
}

-- `Flag`, without the time of its last change.
pub record Flag (K : Type 0) : Type 0 where
  pub enabled : Bool
  pub percentage : ℕ
  pub allow_list : List K

-- What `Get` returns: a flag, none under the name, or an error.
pub data Fetched (K : Type 0) : Type 0 where
  fetched : Flag K → Fetched K
  not_found : Fetched K
  fetch_failed : Fetched K

-- What the Redis client replies to `Get`.
pub data Reply (R : Type 0) : Type 0 where
  reply : R → Reply R
  nil_reply : Reply R
  reply_error : Reply R

-- `Get`; `unmarshal` reads the JSON of a flag.
unfoldable pub get : {K R : Type 0} → (R → Option (Flag K)) → Reply R → Fetched K
get unmarshal (reply raw) = elim (unmarshal raw) [ none ↦ fetch_failed | some f ↦ fetched f ]
get unmarshal nil_reply = not_found
get unmarshal reply_error = fetch_failed

-- `IsEnabled`
unfoldable pub is_enabled : {K : Type 0} → Fetched K → Bool
is_enabled (fetched f) =
    f.enabled && (f.percentage == 0 || leb 100 f.percentage) && length f.allow_list == 0
is_enabled not_found = false
is_enabled fetch_failed = false

module _ {K : Type 0} (dec : Discrete K) where
  -- The allow-list check of `IsEnabledFor`.
  unfoldable pub is_allowed : List K → K → Bool
  is_allowed [] entity = false
  is_allowed (id ∷ ids) entity = let rest = is_allowed ids entity in ite (dec id entity) true rest

  module _ (hash_key : K → K → K) (fnv : K → ℕ) where
    -- `hashBucket`
    unfoldable pub hash_bucket : K → ℕ → ℕ
    hash_bucket key buckets = fnv key % buckets

    -- `IsEnabledFor`
    unfoldable pub is_enabled_for : Fetched K → K → K → Bool
    is_enabled_for (fetched f) name entity =
        if f.enabled
        then if is_allowed f.allow_list entity
          then true
          else (if ltb 0 f.percentage
              then ltb (hash_bucket (hash_key name entity) 100) f.percentage
              else true)
        else false
    is_enabled_for not_found name entity = false
    is_enabled_for fetch_failed name entity = false
