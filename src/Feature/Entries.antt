-- ===== src/Feature/Entries.antt =====
-- The flags that the server holds, and how a key of a page shows one (pkg/feature/feature.go).
use gkit_go.Prelude.{
  ℕ, zero, suc, ◌≡◌, refl, sym, ap, subst, ◌∙◌, Bool, true, false, ◌||◌, Option, none, some, List,
  [], ◌∷◌, ◌++◌, length, ite, arith, Assoc, map_get, map_put, get-put, All, if◌then◌else◌,
  append_assoc,
}
use gkit_go.Bytes.{Text, codes, drop, text_discrete}
use gkit_go.RedisCache.{Reply, ok, failed, Redis, Codec, Result, value, redis_failed, codec_failed}
use gkit_go.RedisCache.Refinement.{ite-prefix}
use gkit_go.Feature.Storage.{Stored, get_flag, key, list_one}

drop-length : (p s : Text) → drop (length p) (p ++ s) ≡ s
unfolding drop
drop-length [] s = refl
drop-length (c ∷ p) s = drop-length p s

module _ {S J E : Type 0} (redis : Redis S J E) (codec : Codec Stored J) (namespace : Text) where
  abbrev pub prefix : Text
  unfolding key
  prefix = key namespace []

  readable : Reply (Option J) E → Option Stored
  readable (failed e) = none
  readable (ok none) = none
  readable (ok (some raw)) = codec.unmarshal raw

  abbrev found : Result (Option Stored) E → Option Stored
  found (value f) = f
  found (redis_failed e) = none
  found codec_failed = none

  -- The flag that `Get` finds under a name, if it finds one and returns no error.
  abbrev pub held : S → Text → Option Stored
  held s name = found (get_flag redis codec namespace name s).0

  key-prefix : (name : Text) → key namespace name ≡ prefix ++ name
  unfolding key
  key-prefix name =
      ap (λ t. namespace ++ t) (sym (append_assoc (codes ":flags:") [] name))
      ∙ sym (append_assoc namespace (codes ":flags:" ++ []) name)

  held-readable : (s : S) (name : Text) → held s name ≡ readable (redis.get (prefix ++ name) s).0
  unfolding get_flag readable
  held-readable s name =
      subst (λ k. held s name ≡ readable (redis.get k s).0) (key-prefix name)
        (read (redis.get (key namespace name) s) refl)
    where
      read :
          (r : Reply (Option J) E × S)
          → redis.get (key namespace name) s ≡ r
          → held s name ≡ readable (redis.get (key namespace name) s).0
      read (failed e, s') q = ground (arith, q)
      read (ok none, s') q = ground (arith, q)
      read (ok (some raw), s') q = decoded (codec.unmarshal raw) refl
        where
          decoded :
              (o : Option Stored)
              → codec.unmarshal raw ≡ o
              → held s name ≡ readable (redis.get (key namespace name) s).0
          decoded none p = ground (arith, q, p)
          decoded (some f) p = ground (arith, q, p)

  -- A server whose reads change nothing, and whose scan finds only keys with the prefix asked for.
  pub record IsReadOnly : Type 0 where
    pub get_keeps : (k : Text) (s : S) → (redis.get k s).1 ≡ s
    pub scan_keeps : (c : ℕ) (p : Text) (s : S) → (redis.scan c p s).1 ≡ s
    pub scan_prefix :
        (c : ℕ) (s : S) (keys : List Text) (next : ℕ)
        → (redis.scan c prefix s).0 ≡ ok (keys, next)
        → All (λ k. (name : Text) × (k ≡ prefix ++ name)) keys

  -- Whether a name is among those of a list of keys.
  abbrev pub is_named : List Text → Text → Bool
  is_named [] name = false
  is_named (k ∷ keys) name = ite (text_discrete k (prefix ++ name)) true (is_named keys name)

  -- The keys of all the pages that the scan gives from a cursor.
  abbrev pub scanned : ℕ → ℕ → S → List Text
  scanned zero cursor s = []
  scanned (suc fuel) cursor s = elim (redis.scan cursor prefix s).0 [
    | failed e ↦ []
    | ok (keys, zero) ↦ keys
    | ok (keys, suc c) ↦ keys ++ scanned fuel (suc c) s
  ]

  is_named-append :
      (xs ys : List Text) (name : Text)
      → is_named (xs ++ ys) name ≡ (is_named xs name || is_named ys name)
  is_named-append [] ys name = refl
  is_named-append (x ∷ xs) ys name = ground (arith, is_named-append xs ys name)

  -- A map of flags shows just what the server holds under the names of some keys.
  abbrev pub Shows : S → List Text → Assoc Text Stored → Type 0
  Shows s keys flags =
      (name : Text)
      → map_get text_discrete flags name ≡ (if is_named keys name then held s name else none)

  pub list_one-Shows :
      (s : S) (seen : List Text) (n : Text) (flags : Assoc Text Stored)
      → Shows s seen flags
      → Shows s
          (seen ++ (prefix ++ n) ∷ [])
          (list_one redis codec namespace (prefix ++ n) (redis.get (prefix ++ n) s).0 flags)
  unfolding list_one readable
  list_one-Shows s seen n flags h name = shown (redis.get (prefix ++ n) s).0 refl
    where
      named :
          is_named (seen ++ (prefix ++ n) ∷ []) name
          ≡ (is_named seen name || ite (text_discrete n name) true false)
      named =
          is_named-append seen ((prefix ++ n) ∷ []) name
          ∙ ap (λ b. is_named seen name || b) (ite-prefix prefix n name true false)

      kept :
          held s n ≡ none
          → map_get text_discrete flags name
            ≡ (if is_named (seen ++ (prefix ++ n) ∷ []) name then held s name else none)
      kept e = elim (text_discrete n name) [
        | yes p ↦
            (let e' : held s name ≡ none = subst (λ m. held s m ≡ none) p e in
              ground (arith, h name, e'))
        | no p ↦ ground (arith, h name, named, p)
      ]

      put :
          (f : Stored)
          → held s n ≡ some f
          → map_get text_discrete
              (map_put text_discrete flags (drop (length prefix) (prefix ++ n)) f)
              name
            ≡ (if is_named (seen ++ (prefix ++ n) ∷ []) name then held s name else none)
      put f e = elim (text_discrete n name) [
        | yes p ↦
            (let e' : held s name ≡ some f = subst (λ m. held s m ≡ some f) p e in
              ground (
                arith,
                e',
                named,
                p,
                drop-length prefix n,
                get-put text_discrete flags (drop (length prefix) (prefix ++ n)) f name,
              ))
        | no p ↦ ground (
          arith,
          h name,
          named,
          p,
          drop-length prefix n,
          get-put text_discrete flags (drop (length prefix) (prefix ++ n)) f name,
        )
      ]

      shown :
          (r : Reply (Option J) E)
          → (redis.get (prefix ++ n) s).0 ≡ r
          → map_get text_discrete (list_one redis codec namespace (prefix ++ n) r flags) name
            ≡ (if is_named (seen ++ (prefix ++ n) ∷ []) name then held s name else none)
      shown (failed e) q = kept (held-readable s n ∙ ap readable q)
      shown (ok none) q = kept (held-readable s n ∙ ap readable q)
      shown (ok (some raw)) q = decoded (codec.unmarshal raw) refl
        where
          decoded :
              (o : Option Stored)
              → codec.unmarshal raw ≡ o
              → map_get text_discrete
                  (list_one redis codec namespace (prefix ++ n) (ok (some raw)) flags)
                  name
                ≡ (if is_named (seen ++ (prefix ++ n) ∷ []) name then held s name else none)
          decoded none p = rw (p, list_one) (kept (held-readable s n ∙ ap readable q ∙ p))
          decoded (some f) p = rw (p, list_one) (put f (held-readable s n ∙ ap readable q ∙ p))
