-- ===== src/Feature/Storage.antt =====
-- The store of feature flags, pkg/feature/feature.go, on a Redis server that is the parameter
-- `redis`; the JSON of a flag is the parameter `codec`. Logs are left out.
use gkit_go.Prelude.{ℕ, zero, suc, Option, none, some, List, [], ◌∷◌, ◌++◌, length, Assoc, map_put}
use gkit_go.Bytes.{Text, codes, drop, text_discrete}
use gkit_go.RedisCache.{Reply, ok, failed, Redis, Codec, Result, value, redis_failed, codec_failed}
use gkit_go.Feature.{Flag}

-- `Flag`, with the time of its last change.
pub record Stored : Type 0 where
  pub flag : Flag Text
  pub updated_at : ℕ

-- What `ListAll` returns: the flags by name, an error of the scan, or the end of the fuel.
pub data Listing (E : Type 0) : Type 0 where
  flags_of : Assoc Text Stored → Listing E
  scan_failed : E → Listing E
  out_of_fuel : Listing E

-- `key`
unfoldable pub key : Text → Text → Text
key namespace name = namespace ++ (codes ":flags:" ++ name)

module _ {S J E : Type 0} (redis : Redis S J E) (codec : Codec Stored J) (namespace : Text) where
  -- `Set`, at the time `now`.
  unfoldable pub set : ℕ → Text → Flag Text → S → Result Unit E × S
  unfolding key
  set now name flag s = elim (codec.marshal (record { flag = flag; updated_at = now })) [
    | none ↦ (codec_failed, s)
    | some raw ↦
        let (err, s') = redis.set (key namespace name) raw 0 s in
        elim err [ none ↦ (value tt, s') | some e ↦ (redis_failed e, s') ]
  ]

  -- `Get`; `none` is a flag that is not found.
  unfoldable pub get_flag : Text → S → Result (Option Stored) E × S
  unfolding key
  get_flag name s =
      let (reply, s') = redis.get (key namespace name) s in
      elim reply [
        | failed e ↦ (redis_failed e, s')
        | ok none ↦ (value none, s')
        | ok (some raw) ↦ elim (codec.unmarshal raw) [
          | none ↦ (codec_failed, s')
          | some f ↦ (value (some f), s')
        ]
      ]

  -- `Delete`
  unfoldable pub delete : Text → S → Result Unit E × S
  unfolding key
  delete name s =
      let (err, s') = redis.del (key namespace name ∷ []) s in
      elim err [ none ↦ (value tt, s') | some e ↦ (redis_failed e, s') ]

  -- One key of a page of `ListAll`, with the reply to its GET.
  unfoldable pub list_one : Text → Reply (Option J) E → Assoc Text Stored → Assoc Text Stored
  unfolding key map_put drop
  list_one k (failed e) flags = flags
  list_one k (ok none) flags = flags
  list_one k (ok (some raw)) flags = elim (codec.unmarshal raw) [
    | none ↦ flags
    | some f ↦ map_put text_discrete flags (drop (length (key namespace [])) k) f
  ]

  -- The inner loop of `ListAll`.
  unfoldable pub list_page : List Text → Assoc Text Stored → S → Assoc Text Stored × S
  unfolding list_one
  list_page [] flags s = (flags, s)
  list_page (k ∷ keys) flags s =
      let (reply, s') = redis.get k s in list_page keys (list_one k reply flags) s'

  -- The outer loop of `ListAll`, from a cursor.
  unfoldable pub list_from : ℕ → ℕ → Assoc Text Stored → S → Listing E × S
  unfolding list_page key
  list_from zero cursor flags s = (out_of_fuel, s)
  list_from (suc fuel) cursor flags s =
      let (reply, s') = redis.scan cursor (key namespace []) s in
      elim reply [
        | failed e ↦ (scan_failed e, s')
        | ok (keys, next) ↦
            let (flags', s'') = list_page keys flags s' in
            elim next [ zero ↦ (flags_of flags', s'') | suc c ↦ list_from fuel (suc c) flags' s'' ]
      ]

  -- `ListAll`
  unfoldable pub list_all : ℕ → S → Listing E × S
  unfolding list_from
  list_all fuel s = list_from fuel 0 [] s
