-- ===== src/RedisCache/Tests.antt =====
-- The cache in Redis and the theorems at concrete inputs (pkg/rediscache/cache.go).
use gkit_go.Prelude.{
  ◌≡◌, refl, ℕ, zero, suc, Option, none, some, List, [], ◌∷◌, map, Assoc, map_get, map_put,
  map_delete, get-put, get-delete, ℕ_discrete,
}
use gkit_go.Bytes.{Text, text_discrete, codes, same, after_prefix}
use gkit_go.RedisCache.{ok, Redis, Codec, value, flushed, flush, flush_from}
use gkit_go.RedisCache.Refinement.{
  IsRedis, Call, get_of, set_of, delete_of, map_values, cache_values, Holds, Spares, cache-map,
}
use gkit_go.RedisCache.Batches.{IsReader}

-- A server that holds numbers, in one batch of a scan.
abbrev Entries : Type 0
Entries = Assoc Text ℕ

unfoldable delete_keys : List Text → Entries → Entries
unfolding map_delete
delete_keys [] s = s
delete_keys (k ∷ keys) s = delete_keys keys (map_delete text_discrete s k)

unfoldable keys_under : Text → Entries → List Text
unfolding after_prefix
keys_under prefix [] = []
keys_under prefix ((k, v) ∷ s) =
    let rest = keys_under prefix s in
    elim (after_prefix prefix k) [ none ↦ rest | some t ↦ k ∷ rest ]

abbrev view : Entries → Text → Option ℕ
view s k = map_get text_discrete s k

unfoldable server : Redis Entries ℕ ℕ
unfolding map_get map_put delete_keys keys_under
server = record {
  get = λ k s. (ok (view s k), s);
  set = λ k raw ttl s. (none, map_put text_discrete s k raw);
  del = λ keys s. (none, delete_keys keys s);
  mget = λ keys s. (ok (map (view s) keys), s);
  scan = λ cursor prefix s. (ok (keys_under prefix s, 0), s);
  flush_db = λ s. (none, []);
  ping = λ s. (none, s);
}

abbrev next : Codec ℕ ℕ
next = record {
  marshal = λ v. some (suc v);
  unmarshal = λ raw. elim raw [ zero ↦ none | suc v ↦ some v ];
}

server-IsRedis : IsRedis server view
unfolding server delete_keys
server-IsRedis = record {
  get_reply = λ k s. refl;
  get_view = λ k s j. refl;
  set_reply = λ k raw s. refl;
  set_view = λ k raw s j. get-put text_discrete s k raw j;
  del_reply = λ k s. refl;
  del_view = λ k s j. get-delete text_discrete s k j;
}

server-IsReader : IsReader server view
unfolding server
server-IsReader = record { get_reply = λ k s. refl; mget_reply = λ keys s. refl }

abbrev shared : Entries
shared = (codes "other", 9) ∷ []

shared_empty : Holds server next (codes "p:") view (λ k. none) shared
unfolding map_get text_discrete ℕ_discrete
shared_empty k = tt

abbrev session : List (Call ℕ)
session =
    set_of (codes "a") 3 ∷ get_of (codes "a") ∷ delete_of (codes "a") ∷ get_of (codes "a") ∷ []

cache-map_example :
    ((cache_values server next (codes "p:") view session shared).0
      ≡ map (λ v. value v) (map_values session (λ k. none)))
    × Spares server next
        (codes "p:")
        view
        shared
        (cache_values server next (codes "p:") view session shared).1
cache-map_example =
    cache-map server next (codes "p:") view server-IsRedis (λ v. (suc v, (refl, refl))) session
      (λ k. none) shared shared_empty

flushes :
    flush server (codes "p:") 1 ((codes "p:a", 1) ∷ (codes "q", 2) ∷ [])
    ≡ (flushed, (codes "q", 2) ∷ [])
unfolding flush flush_from server same keys_under after_prefix delete_keys map_delete text_discrete
    ℕ_discrete
flushes = refl
