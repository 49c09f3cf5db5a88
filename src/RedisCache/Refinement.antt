-- ===== src/RedisCache/Refinement.antt =====
-- The cache in Redis implements a map (pkg/rediscache/cache.go).
use gkit_go.Prelude.{
  ◌≡◌, ◌≢◌, refl, ap, ◌∙◌, Option, none, some, List, [], ◌∷◌, ◌++◌, map, arith, ite, Option-cases,
  inl, inr, if_neg,
}
use gkit_go.Bytes.{Text, text_discrete, after_prefix}
use gkit_go.Bytes.Splitting.{after-prefix}
use gkit_go.RedisCache.{
  Reply, ok, failed, Redis, Codec, Result, value, redis_failed, codec_failed, get, set, delete,
}

-- A server without failures and expiry, which holds what `view` shows.
pub record IsRedis {S J E : Type 0} (redis : Redis S J E) (view : S → Text → Option J)
    : Type 0 where
  pub get_reply : (k : Text) (s : S) → (redis.get k s).0 ≡ ok (view s k)
  pub get_view : (k : Text) (s : S) (j : Text) → view (redis.get k s).1 j ≡ view s j
  pub set_reply : (k : Text) (raw : J) (s : S) → (redis.set k raw 0 s).0 ≡ none
  pub set_view :
      (k : Text) (raw : J) (s : S) (j : Text)
      → view (redis.set k raw 0 s).1 j ≡ ite (text_discrete k j) (some raw) (view s j)
  pub del_reply : (k : Text) (s : S) → (redis.del (k ∷ []) s).0 ≡ none
  pub del_view :
      (k : Text) (s : S) (j : Text)
      → view (redis.del (k ∷ []) s).1 j ≡ ite (text_discrete k j) none (view s j)

-- Every value is encoded, and got back from its encoding.
abbrev pub IsFaithful : {V J : Type 0} → Codec V J → Type 0
IsFaithful {V = V} {J = J} codec =
    (v : V) → (raw : J) × ((codec.marshal v ≡ some raw) × (codec.unmarshal raw ≡ some v))

-- The methods of a map.
pub data Call (V : Type 0) : Type 0 where
  get_of : Text → Call V
  set_of : Text → V → Call V
  delete_of : Text → Call V

-- A map as a function, and the value that `Get` finds.
abbrev pub call_map : {V : Type 0} → Call V → (Text → Option V) → Option V × (Text → Option V)
call_map (get_of k) m = (m k, m)
call_map (set_of k v) m = (none, λ j. ite (text_discrete k j) (some v) (m j))
call_map (delete_of k) m = (none, λ j. ite (text_discrete k j) none (m j))

-- The values that the calls of a sequence find.
abbrev pub map_values : {V : Type 0} → List (Call V) → (Text → Option V) → List (Option V)
map_values [] m = []
map_values (c ∷ calls) m = (call_map c m).0 ∷ map_values calls (call_map c m).1

append_injective : (p s t : Text) → p ++ s ≡ p ++ t → s ≡ t
append_injective [] s t h = h
append_injective (c ∷ p) s t h = append_injective p s t (cc)

pub ite-prefix :
    {A : Type 0} (p s t : Text) (x y : A)
    → ite (text_discrete (p ++ s) (p ++ t)) x y ≡ ite (text_discrete s t) x y
ite-prefix p s t x y = elim (text_discrete s t) [
  | yes e ↦ ground (arith, e)
  | no n ↦ ground (arith, n, append_injective p s t)
]

abbrev as_call : {S V E : Type 0} → Result Unit E × S → Result (Option V) E × S
as_call (value u, s) = (value none, s)
as_call (redis_failed e, s) = (redis_failed e, s)
as_call (codec_failed, s) = (codec_failed, s)

module _ {S V J E : Type 0} (redis : Redis S J E) (codec : Codec V J) (prefix : Text)
    (view : S → Text → Option J) where
  -- The cache under the interface of a map.
  abbrev pub call_cache : Call V → S → Result (Option V) E × S
  call_cache (get_of k) s = get redis codec prefix k s
  call_cache (set_of k v) s = as_call (set redis codec prefix k v 0 s)
  call_cache (delete_of k) s = as_call (delete redis prefix k s)

  -- A value of the map as the server holds it.
  abbrev pub Stores : Option V → Option J → Type 0
  Stores none none = Unit
  Stores none (some raw) = ⊥
  Stores (some v) none = ⊥
  Stores (some v) (some raw) = codec.unmarshal raw ≡ some v

  -- The server holds the map under the prefix.
  abbrev pub Holds : (Text → Option V) → S → Type 0
  Holds m s = (k : Text) → Stores (m k) (view s (prefix ++ k))

  -- The keys outside the prefix stay as they are.
  abbrev pub Spares : S → S → Type 0
  Spares s s' = (j : Text) → after_prefix prefix j ≡ none → view s' j ≡ view s j

  abbrev Refines : Call V → (Text → Option V) → S → Type 0
  Refines c m s =
      ((call_cache c s).0 ≡ value (call_map c m).0)
      × (Holds (call_map c m).1 (call_cache c s).1 × Spares s (call_cache c s).1)

  Stores-ite :
      (k j : Text) (m m' : Option V) (r r' : Option J)
      → Stores m r
      → Stores m' r'
      → Stores (ite (text_discrete k j) m m') (ite (text_discrete (prefix ++ k) (prefix ++ j)) r r')
  Stores-ite k j m m' r r' h h' = rw (ite-prefix prefix k j r r') (chosen (text_discrete k j))
    where
      chosen : (d : Dec (k ≡ j)) → Stores (ite d m m') (ite d r r')
      chosen (yes e) = h
      chosen (no n) = h'

  outside : (k j : Text) → after_prefix prefix j ≡ none → prefix ++ k ≢ j
  outside k j h e = ground (arith, after-prefix prefix k, h, ap (after_prefix prefix) e)

  get-state : (k : Text) (s : S) → (get redis codec prefix k s).1 ≡ (redis.get (prefix ++ k) s).1
  unfolding get
  get-state k s = go (redis.get (prefix ++ k) s) refl
    where
      go :
          (r : Reply (Option J) E × S)
          → redis.get (prefix ++ k) s ≡ r
          → (get redis codec prefix k s).1 ≡ (redis.get (prefix ++ k) s).1
      go (failed e, s') p = ground (arith, p)
      go (ok none, s') p = ground (arith, p)
      go (ok (some raw), s') p = elim (Option-cases (codec.unmarshal raw)) [
        | inl q ↦ ground (arith, p, q)
        | inr (v, q) ↦ ground (arith, p, q)
      ]

  get-reply :
      (k : Text) (s : S) (m : Option V) (r : Option J)
      → Stores m r
      → (redis.get (prefix ++ k) s).0 ≡ ok r
      → (get redis codec prefix k s).0 ≡ value m
  unfolding get
  get-reply k s none none g p = ground (arith, p)
  get-reply k s none (some raw) g p = elim g [ ]
  get-reply k s (some v) none g p = elim g [ ]
  get-reply k s (some v) (some raw) g p = ground (arith, p, g)

  module _ (h : IsRedis redis view) where
    get-Refines : (k : Text) (m : Text → Option V) (s : S) → Holds m s → Refines (get_of k) m s
    get-Refines k m s g = (
      get-reply k s (m k) (view s (prefix ++ k)) (g k) (h.get_reply (prefix ++ k) s),
      (
        λ j. rw (get-state k s, h.get_view (prefix ++ k) s (prefix ++ j)) (g j),
        λ j _. rw (get-state k s) (h.get_view (prefix ++ k) s j),
      ),
    )

    delete-state :
        (k : Text) (s : S)
        → as_call {V = V} (delete redis prefix k s)
          ≡ (value none, (redis.del ((prefix ++ k) ∷ []) s).1)
    unfolding delete
    delete-state k s = ground (arith, h.del_reply (prefix ++ k) s)

    delete-Refines :
        (k : Text) (m : Text → Option V) (s : S) → Holds m s → Refines (delete_of k) m s
    delete-Refines k m s g = rw (delete-state k s) (
      refl,
      (
        λ j.
            rw (h.del_view (prefix ++ k) s (prefix ++ j))
              (Stores-ite k j none (m j) none (view s (prefix ++ j)) tt (g j)),
        λ j o.
            h.del_view (prefix ++ k) s j
            ∙ if_neg (text_discrete (prefix ++ k) j) (outside k j o) none (view s j),
      ),
    )

    set-state :
        (k : Text) (v : V) (raw : J) (s : S)
        → codec.marshal v ≡ some raw
        → as_call {V = V} (set redis codec prefix k v 0 s)
          ≡ (value none, (redis.set (prefix ++ k) raw 0 s).1)
    unfolding set
    set-state k v raw s p = ground (arith, p, h.set_reply (prefix ++ k) raw s)

    set-Refines :
        IsFaithful codec
        → (k : Text) (v : V) (m : Text → Option V) (s : S) → Holds m s
        → Refines (set_of k v) m s
    set-Refines f k v m s g =
        let (raw, both) = f v in
        rw (set-state k v raw s both.0) (
          refl,
          (
            λ j.
                rw (h.set_view (prefix ++ k) raw s (prefix ++ j))
                  (Stores-ite k j (some v) (m j) (some raw) (view s (prefix ++ j)) both.1 (g j)),
            λ j o.
                h.set_view (prefix ++ k) raw s j
                ∙ if_neg (text_discrete (prefix ++ k) j) (outside k j o) (some raw) (view s j),
          ),
        )

    call-Refines :
        IsFaithful codec → (c : Call V) (m : Text → Option V) (s : S) → Holds m s → Refines c m s
    call-Refines f (get_of k) m s g = get-Refines k m s g
    call-Refines f (set_of k v) m s g = set-Refines f k v m s g
    call-Refines f (delete_of k) m s g = delete-Refines k m s g

  -- What the calls of a sequence return, and the server after them.
  abbrev pub cache_values : List (Call V) → S → List (Result (Option V) E) × S
  cache_values [] s = ([], s)
  cache_values (c ∷ calls) s =
      let (r, s') = call_cache c s in let (rs, s'') = cache_values calls s' in (r ∷ rs, s'')

  -- On a server without failures and expiry that holds a map under the prefix, with a codec that
  -- gives every value back: any sequence of Get, Set without expiry and Delete returns what it
  -- returns on the map, and leaves every key outside the prefix as it was.
  pub cache-map :
      IsRedis redis view
      → IsFaithful codec
      → (calls : List (Call V)) (m : Text → Option V) (s : S) → Holds m s
      → ((cache_values calls s).0 ≡ map (λ v. value v) (map_values calls m))
        × Spares s (cache_values calls s).1
  cache-map h f [] m s g = (refl, λ j o. refl)
  cache-map h f (c ∷ calls) m s g =
      let (reply, state) = call-Refines h f c m s g in
      let (replies, spared) = cache-map h f calls (call_map c m).1 (call_cache c s).1 state.0 in
      (rw reply (ap (◌∷◌ (value (call_map c m).0)) replies), λ j o. spared j o ∙ state.1 j o)
