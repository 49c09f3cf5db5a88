-- ===== src/RateLimit/Keyed.antt =====
-- The limiter by key, pkg/ratelimit/keyed.go. Each call is one step: that a limiter may be evicted
-- between `limiterFor` and the use of its result is left out. Times are in nanoseconds.
use gkit_go.Prelude.{
  ℕ, ◌+◌, ◌≡◌, refl, Bool, [], ◌∷◌, Option, none, some, arith, if◌then◌else◌, ltb, ite, Assoc,
  map_get, map_put, map_delete, IsMap, get-put, length,
}
use gkit_go.RateLimit.Float.{ℤ, Float64}
use gkit_go.RateLimit.Limiter.{Limiter, new, allow_n}

module _ (f : Float64) where
  open f use {F}

  pub record KeyedEntry : Type 0 where
    pub limiter : Limiter f
    pub last_seen : ℕ

  pub record KeyedLimiter (K : Type 0) : Type 0 where
    pub rate : F
    pub burst : ℤ
    pub ttl : ℕ
    pub entries : Assoc K KeyedEntry

  module _ {K : Type 0} (dec : Discrete K) where
    -- The limiter of a key that has none yet is a new one.
    abbrev pub entry_limiter : ℕ → KeyedLimiter K → Option KeyedEntry → Limiter f
    entry_limiter now kl none = new f now kl.rate kl.burst
    entry_limiter now kl (some e) = e.limiter

    -- `limiterFor`, which returns the limiter that the map now holds for the key.
    unfoldable pub limiter_for : ℕ → K → KeyedLimiter K → KeyedLimiter K × Limiter f
    limiter_for now key kl =
        let l = entry_limiter now kl (map_get dec kl.entries key) in
        (
          record kl {
            entries = map_put dec kl.entries key (record { limiter = l; last_seen = now });
          },
          l,
        )

    -- `AllowN`: the limiter is shared with the map, so that its change is seen there.
    unfoldable pub keyed_allow_n : ℕ → K → ℤ → KeyedLimiter K → KeyedLimiter K × Bool
    unfolding limiter_for
    keyed_allow_n now key n kl =
        let (kl', l) = limiter_for now key kl in
        let (l', granted) = allow_n f now n l in
        (
          record kl' {
            entries = map_put dec kl'.entries key (record { limiter = l'; last_seen = now });
          },
          granted,
        )

    -- `Delete`
    unfoldable pub keyed_delete : K → KeyedLimiter K → KeyedLimiter K
    keyed_delete key kl = record kl { entries = map_delete dec kl.entries key }

    -- The loop of `Evict`: what it leaves, and how many it deletes. `lastSeen.Before(now - ttl)`,
    -- with the subtraction moved to the other side.
    unfoldable pub evict_from : ℕ → ℕ → Assoc K KeyedEntry → Assoc K KeyedEntry × ℕ
    evict_from now ttl [] = ([], 0)
    evict_from now ttl ((k, e) ∷ m) =
        let (m', n) = evict_from now ttl m in
        if ltb (e.last_seen + ttl) now then (m', n + 1) else ((k, e) ∷ m', n)

    unfoldable pub evict : ℕ → KeyedLimiter K → KeyedLimiter K × ℕ
    unfolding evict_from
    evict now kl = let (m, n) = evict_from now kl.ttl kl.entries in (record kl { entries = m }, n)

    -- `AllowN` of one key changes no other key's entry, and leaves for its key, seen now, what
    -- `AllowN` makes of the limiter that the key had, or of a new one.
    allow_n-others :
        (now : ℕ) (key : K) (n : ℤ) (kl : KeyedLimiter K) (j : K)
        → map_get dec (keyed_allow_n now key n kl).0.entries j
          ≡ ite
              (dec key j)
              (some (record {
                limiter = (allow_n f now n (entry_limiter now kl (map_get dec kl.entries key))).0;
                last_seen = now;
              }))
              (map_get dec kl.entries j)
    unfolding keyed_allow_n
    allow_n-others now key n kl j = simp get-put (ground arith)

    -- What is left of an entry by `Evict`.
    abbrev pub recent : ℕ → ℕ → Option KeyedEntry → Option KeyedEntry
    recent now ttl none = none
    recent now ttl (some e) = if ltb (e.last_seen + ttl) now then none else some e

    evict_from-recent :
        (now ttl : ℕ) (m : Assoc K KeyedEntry) (j : K)
        → IsMap dec m
        → map_get dec (evict_from now ttl m).0 j ≡ recent now ttl (map_get dec m j)
    unfolding evict_from map_get
    evict_from-recent now ttl [] j h = refl
    evict_from-recent now ttl ((k, e) ∷ m) j h = ground (arith, evict_from-recent now ttl m j)

    evict_from-length :
        (now ttl : ℕ) (m : Assoc K KeyedEntry)
        → length (evict_from now ttl m).0 + (evict_from now ttl m).1 ≡ length m
    unfolding evict_from
    evict_from-length now ttl [] = refl
    evict_from-length now ttl ((k, e) ∷ m) = ground (arith, evict_from-length now ttl m)

    evict_from-IsMap :
        (now ttl : ℕ) (m : Assoc K KeyedEntry) → IsMap dec m → IsMap dec (evict_from now ttl m).0
    unfolding evict_from
    evict_from-IsMap now ttl [] h = tt
    evict_from-IsMap now ttl ((k, e) ∷ m) h =
        ground (arith, evict_from-recent now ttl m k, evict_from-IsMap now ttl m)

    -- On a map without a key twice, `Evict` deletes exactly the limiters that were last seen more
    -- than the time to live ago, keeps the others as they are, and returns how many it deleted;
    -- the map is left without a key twice.
    evict-recent :
        (now : ℕ) (kl : KeyedLimiter K)
        → IsMap dec kl.entries
        → ((j : K)
            → map_get dec (evict now kl).0.entries j ≡ recent now kl.ttl (map_get dec kl.entries j))
          × (length (evict now kl).0.entries + (evict now kl).1 ≡ length kl.entries)
          × IsMap dec (evict now kl).0.entries
    unfolding evict
    evict-recent now kl h = (
      λ j. evict_from-recent now kl.ttl kl.entries j h,
      evict_from-length now kl.ttl kl.entries,
      evict_from-IsMap now kl.ttl kl.entries h,
    )
