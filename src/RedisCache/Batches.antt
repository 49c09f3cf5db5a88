-- ===== src/RedisCache/Batches.antt =====
-- `MGet` against `Get` (pkg/rediscache/cache.go).
use gkit_go.Prelude.{
  ◌≡◌, refl, ap, ◌∙◌, Bool, true, false, Option, none, some, List, [], ◌∷◌, ◌++◌, Assoc, map_get,
  get-put, map, arith, ite, Option-cases, inl, inr, if◌then◌else◌,
}
use gkit_go.Bytes.{Text, text_discrete}
use gkit_go.RedisCache.{
  ok, Redis, Codec, Result, value, redis_failed, codec_failed, get, m_get, decode_all, take_in,
}

-- Whether the key is in the list.
abbrev pub has_key : Text → List Text → Bool
has_key k [] = false
has_key k (key ∷ keys) = ite (text_discrete key k) true (has_key k keys)

-- What an entry of the server is as a value.
abbrev decoded : {V J : Type 0} → (J → Option V) → Option J → Option V
decoded unmarshal none = none
decoded unmarshal (some raw) = unmarshal raw

abbrev or_else : {V : Type 0} → Option V → Option V → Option V
or_else none old = old
or_else (some v) old = some v

take_in-map_get :
    {V J : Type 0} (unmarshal : J → Option V) (key : Text) (raw : Option J) (result : Assoc Text V)
    (k : Text)
    → map_get text_discrete (take_in unmarshal key raw result) k
      ≡ ite
          (text_discrete key k)
          (or_else (decoded unmarshal raw) (map_get text_discrete result k))
          (map_get text_discrete result k)
unfolding take_in
take_in-map_get unmarshal key none result k = ground arith
take_in-map_get unmarshal key (some raw) result k = elim (Option-cases (unmarshal raw)) [
  | inl p ↦ ground (arith, p)
  | inr (v, p) ↦ ground (arith, p, get-put text_discrete result key v k)
]

or_else_twice :
    {V : Type 0} (b : Bool) (d old : Option V)
    → (if b then or_else d (or_else d old) else or_else d old) ≡ or_else d old
or_else_twice false d old = refl
or_else_twice true none old = refl
or_else_twice true (some v) old = refl

decode_all-map_get :
    {V J : Type 0} (unmarshal : J → Option V) (raw_of : Text → Option J) (keys : List Text)
    (result : Assoc Text V) (k : Text)
    → map_get text_discrete (decode_all unmarshal keys (map raw_of keys) result) k ≡ (
        if has_key k keys
        then or_else (decoded unmarshal (raw_of k)) (map_get text_discrete result k)
        else map_get text_discrete result k)
unfolding decode_all
decode_all-map_get unmarshal raw_of [] result k = refl
decode_all-map_get unmarshal raw_of (key ∷ keys) result k =
    decode_all-map_get unmarshal raw_of keys (take_in unmarshal key (raw_of key) result) k
    ∙ chosen (text_discrete key k) (take_in-map_get unmarshal key (raw_of key) result k)
  where
    chosen :
        (d : Dec (key ≡ k))
        → map_get text_discrete (take_in unmarshal key (raw_of key) result) k
          ≡ ite d
              (or_else (decoded unmarshal (raw_of key)) (map_get text_discrete result k))
              (map_get text_discrete result k)
        → (if has_key k keys
            then or_else
                (decoded unmarshal (raw_of k))
                (map_get text_discrete (take_in unmarshal key (raw_of key) result) k)
            else map_get text_discrete (take_in unmarshal key (raw_of key) result) k)
          ≡ (if ite d true (has_key k keys)
              then or_else (decoded unmarshal (raw_of k)) (map_get text_discrete result k)
              else map_get text_discrete result k)
    chosen (no n) p = rw p refl
    chosen (yes e) p =
        rw (p, ap raw_of e)
          (or_else_twice (has_key k keys) (decoded unmarshal (raw_of k))
            (map_get text_discrete result k))

-- A server that answers reads, one key or many, from what `view` shows.
pub record IsReader {S J E : Type 0} (redis : Redis S J E) (view : S → Text → Option J)
    : Type 0 where
  pub get_reply : (k : Text) (s : S) → (redis.get k s).0 ≡ ok (view s k)
  pub mget_reply : (keys : List Text) (s : S) → (redis.mget keys s).0 ≡ ok (map (view s) keys)

-- The value that a method has found.
abbrev pub found : {V E : Type 0} → Result (Option V) E → Option V
found (value v) = v
found (redis_failed e) = none
found codec_failed = none

map_prefix :
    {A B C : Type 0} (g : B → C) (f : A → B) (xs : List A)
    → map g (map f xs) ≡ map (λ x. g (f x)) xs
map_prefix g f [] = refl
map_prefix g f (x ∷ xs) = ap (◌∷◌ (g (f x))) (map_prefix g f xs)

or_else-none : {V : Type 0} (d : Option V) → or_else d none ≡ d
or_else-none none = refl
or_else-none (some v) = refl

module _ {S V J E : Type 0} (redis : Redis S J E) (codec : Codec V J) (prefix : Text)
    (view : S → Text → Option J) where
  get-decoded :
      (k : Text) (s : S) (r : Option J)
      → (redis.get (prefix ++ k) s).0 ≡ ok r
      → found (get redis codec prefix k s).0 ≡ decoded codec.unmarshal r
  unfolding get
  get-decoded k s none p = ground (arith, p)
  get-decoded k s (some raw) p = elim (Option-cases (codec.unmarshal raw)) [
    | inl q ↦ ground (arith, p, q)
    | inr (v, q) ↦ ground (arith, p, q)
  ]

  m_get-ok :
      IsReader redis view
      → (keys : List Text) (s : S)
      → (m_get redis codec prefix keys s).0
        ≡ value (decode_all codec.unmarshal keys (map (λ k. view s (prefix ++ k)) keys) [])
  unfolding m_get decode_all
  m_get-ok h [] s = refl
  m_get-ok h (key ∷ keys) s = ground (
    arith,
    h.mget_reply (map (λ k. prefix ++ k) (key ∷ keys)) s,
    map_prefix (view s) (λ k. prefix ++ k) keys,
  )

  -- On a server that answers reads from what it holds, MGet succeeds, and its map has for each of
  -- the keys just the value that Get finds for it, if any, and nothing for another key.
  m_get-get :
      IsReader redis view
      → (keys : List Text) (s : S)
      → (result : Assoc Text V) × (((m_get redis codec prefix keys s).0 ≡ value result)
          × ((k : Text)
              → map_get text_discrete result k
                ≡ (if has_key k keys then found (get redis codec prefix k s).0 else none)))
  unfolding map_get
  m_get-get h keys s = (
    decode_all codec.unmarshal keys (map (λ k. view s (prefix ++ k)) keys) [],
    (
      m_get-ok h keys s,
      λ k. rw (get-decoded k s (view s (prefix ++ k)) (h.get_reply (prefix ++ k) s)) (
          decode_all-map_get codec.unmarshal (λ k. view s (prefix ++ k)) keys [] k
          ∙ ap (λ v. if has_key k keys then v else none)
              (or_else-none (decoded codec.unmarshal (view s (prefix ++ k))))),
    ),
  )
