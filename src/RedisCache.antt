-- ===== src/RedisCache.antt =====
-- The cache in Redis, pkg/rediscache/cache.go, on a server that is the parameter `Redis`; JSON is the
-- parameter `Codec`. Spans and logs are left out.
pub mod Refinement
pub mod Batches
mod Tests
use gkit_go.Prelude.{
  ℕ, zero, suc, Bool, true, false, Option, none, some, List, [], ◌∷◌, ◌++◌, ◌==◌, if◌then◌else◌,
  Assoc, map_put, map,
}
use gkit_go.Bytes.{Text, text_discrete, same}

-- The reply to a command: a value, or an error.
pub data Reply (A E : Type 0) : Type 0 where
  ok : A → Reply A E
  failed : E → Reply A E

-- The commands of the client. `get` gives `none` for `redis.Nil`; `scan` takes a cursor and the beginning of the keys.
pub record Redis (S J E : Type 0) : Type 0 where
  pub get : Text → S → Reply (Option J) E × S
  pub set : Text → J → ℕ → S → Option E × S
  pub del : List Text → S → Option E × S
  pub mget : List Text → S → Reply (List (Option J)) E × S
  pub scan : ℕ → Text → S → Reply (List Text × ℕ) E × S
  pub flush_db : S → Option E × S
  pub ping : S → Option E × S

pub record Codec (V J : Type 0) : Type 0 where
  pub marshal : V → Option J
  pub unmarshal : J → Option V

-- What a method returns: a value, or an error by the command or the codec that gave it.
pub data Result (A E : Type 0) : Type 0 where
  value : A → Result A E
  redis_failed : E → Result A E
  codec_failed : Result A E

-- What `Flush` returns.
pub data Flushed (E : Type 0) : Type 0 where
  flushed : Flushed E
  flush_failed : E → Flushed E
  out_of_fuel : Flushed E

-- An entry of the reply, decoded into the map; one that is missing or not decoded is left out.
unfoldable pub take_in :
    {V J : Type 0} → (J → Option V) → Text → Option J → Assoc Text V → Assoc Text V
unfolding map_put
take_in unmarshal key none result = result
take_in unmarshal key (some raw) result = elim (unmarshal raw) [
  | none ↦ result
  | some v ↦ map_put text_discrete result key v
]

-- The loop of `MGet` over the reply.
unfoldable pub decode_all :
    {V J : Type 0} → (J → Option V) → List Text → List (Option J) → Assoc Text V → Assoc Text V
unfolding take_in
decode_all unmarshal [] raws result = result
decode_all unmarshal (key ∷ keys) [] result = result
decode_all unmarshal (key ∷ keys) (raw ∷ raws) result =
    decode_all unmarshal keys raws (take_in unmarshal key raw result)

module _ {S V J E : Type 0} (redis : Redis S J E) (codec : Codec V J) (prefix : Text) where
  -- `Get`, none is a miss.
  unfoldable pub get : Text → S → Result (Option V) E × S
  get key s =
      let (reply, s') = redis.get (prefix ++ key) s in
      elim reply [
        | failed e ↦ (redis_failed e, s')
        | ok none ↦ (value none, s')
        | ok (some raw) ↦ elim (codec.unmarshal raw) [
          | none ↦ (codec_failed, s')
          | some v ↦ (value (some v), s')
        ]
      ]

  -- `Set`; the unit of a method that returns nil is `tt`.
  unfoldable pub set : Text → V → ℕ → S → Result Unit E × S
  set key v ttl s = elim (codec.marshal v) [
    | none ↦ (codec_failed, s)
    | some raw ↦
        let (err, s') = redis.set (prefix ++ key) raw ttl s in
        elim err [ none ↦ (value tt, s') | some e ↦ (redis_failed e, s') ]
  ]

  -- `MGet`
  unfoldable pub m_get : List Text → S → Result (Assoc Text V) E × S
  unfolding decode_all
  m_get [] s = (value [], s)
  m_get (key ∷ keys) s =
      let (reply, s') = redis.mget (map (λ k. prefix ++ k) (key ∷ keys)) s in
      elim reply [
        | failed e ↦ (redis_failed e, s')
        | ok raws ↦ (value (decode_all codec.unmarshal (key ∷ keys) raws []), s')
      ]

module _ {S J E : Type 0} (redis : Redis S J E) (prefix : Text) where
  -- `Delete`
  unfoldable pub delete : Text → S → Result Unit E × S
  delete key s =
      let (err, s') = redis.del ((prefix ++ key) ∷ []) s in
      elim err [ none ↦ (value tt, s') | some e ↦ (redis_failed e, s') ]

  abbrev delete_batch : List Text → S → Option E × S
  delete_batch [] s = (none, s)
  delete_batch (key ∷ keys) s = redis.del (key ∷ keys) s

  -- The loop of `Flush` from a cursor.
  unfoldable pub flush_from : ℕ → ℕ → S → Flushed E × S
  flush_from zero cursor s = (out_of_fuel, s)
  flush_from (suc fuel) cursor s =
      let (reply, s') = redis.scan cursor prefix s in
      elim reply [
        | failed e ↦ (flush_failed e, s')
        | ok (keys, next) ↦
            let (err, s'') = delete_batch keys s' in
            elim err [
              | some e ↦ (flush_failed e, s'')
              | none ↦ elim next [ zero ↦ (flushed, s'') | suc c ↦ flush_from fuel (suc c) s'' ]
            ]
      ]

  -- `Flush`
  unfoldable pub flush : ℕ → S → Flushed E × S
  unfolding same flush_from
  flush fuel s =
      if same prefix []
      then (let (err, s') = redis.flush_db s in
          elim err [ none ↦ (flushed, s') | some e ↦ (flush_failed e, s') ])
      else flush_from fuel 0 s

  -- `Check`
  unfoldable pub check : S → Option E × S
  check s = redis.ping s
