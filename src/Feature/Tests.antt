-- ===== src/Feature/Tests.antt =====
-- Flags and the theorems at concrete inputs (pkg/feature/feature.go).
use gkit_go.Prelude.{
  ℕ, zero, suc, ◌+◌, ◌*◌, ◌≡◌, refl, true, [], ◌∷◌, ◌++◌, ℕ_discrete, List, Option, none, some, All,
  arith, subst, Assoc, map_get, if◌then◌else◌,
}
use gkit_go.Bytes.{Text, codes, same, text_discrete}
use gkit_go.RedisCache.{Reply, ok, Redis, Codec}
use gkit_go.Feature.Storage.{Stored, flags_of, list_all}
use gkit_go.Feature.Entries.{prefix, IsReadOnly, is_named, scanned, held}
use gkit_go.Feature.Listing.{list_all-Lists}
use gkit_go.Feature.{Flag, fetched, is_enabled, is_enabled_for, is_allowed, hash_bucket}

abbrev join : ℕ → ℕ → ℕ
join name entity = 1000 * name + entity

abbrev hash : ℕ → ℕ
hash n = n

abbrev fifth : Flag ℕ
fifth = record { enabled = true; percentage = 20; allow_list = 77 ∷ [] }

abbrev on : Flag ℕ
on = record { enabled = true; percentage = 100; allow_list = [] }

-- A flag with an allow-list and no percentage is enabled for an entity that is not on the list.
allow_list_only :
    is_enabled_for ℕ_discrete join hash (fetched (record fifth { percentage = 0 })) 1 50 ≡ true
unfolding is_enabled_for is_allowed ℕ_discrete
allow_list_only = refl

fifth_enabled : is_enabled_for ℕ_discrete join hash (fetched fifth) 1 5 ≡ true
unfolding is_enabled_for is_allowed hash_bucket ℕ_discrete
fifth_enabled = refl

on_enabled : is_enabled (fetched on) ≡ true
unfolding is_enabled
on_enabled = refl

-- A server with two pages of one key each, of which the second holds no flag.
abbrev rollout : Stored
rollout = record {
  flag = record { enabled = true; percentage = 20; allow_list = [] };
  updated_at = 3;
}

abbrev reply_to : Text → Reply (Option Stored) ℕ
unfolding same
reply_to k = if same k (codes "gkit:flags:new") then ok (some rollout) else ok none

abbrev page : ℕ → Text → List Text × ℕ
page zero p = ((p ++ codes "new") ∷ [], 1)
page (suc c) p = ((p ++ codes "old") ∷ [], 0)

abbrev server : Redis ℕ Stored ℕ
server = record {
  get = λ k s. (reply_to k, s);
  set = λ k raw ttl s. (none, s);
  del = λ keys s. (none, s);
  mget = λ keys s. (ok [], s);
  scan = λ cursor p s. (ok (page cursor p), s);
  flush_db = λ s. (none, s);
  ping = λ s. (none, s);
}

abbrev plain : Codec Stored Stored
plain = record { marshal = λ f. some f; unmarshal = λ raw. some raw }

abbrev gkit : Text
gkit = codes "gkit"

page-Prefixed : (c : ℕ) (p : Text) → All (λ k. (name : Text) × (k ≡ p ++ name)) (page c p).0
page-Prefixed zero p = ((codes "new", refl), tt)
page-Prefixed (suc c) p = ((codes "old", refl), tt)

server-IsReadOnly : IsReadOnly server plain gkit
server-IsReadOnly = record {
  get_keeps = λ k s. refl;
  scan_keeps = λ c p s. refl;
  scan_prefix = λ c s keys next e.
      subst (λ ks. All (λ k. (name : Text) × (k ≡ prefix server plain gkit ++ name)) ks)
        (ground (arith, e)) (page-Prefixed c (prefix server plain gkit));
}

list_all-Lists_example :
    (flags : Assoc Text Stored) × ((list_all server plain gkit 2 5 ≡ (flags_of flags, 5))
      × ((name : Text)
          → map_get text_discrete flags name ≡ (
              if is_named server plain gkit (scanned server plain gkit 2 0 5) name
              then held server plain gkit 5 name
              else none)))
list_all-Lists_example = list_all-Lists server plain gkit server-IsReadOnly 2 5 tt
