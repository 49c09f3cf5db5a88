-- ===== src/Lock/Ownership.antt =====
-- That only its holder frees a lock (pkg/lock/lock.go).
use gkit_go.Prelude.{
  ℕ, ◌≡◌, ◌⊎◌, refl, true, none, some, inl, inr, arith, Bool-cases, Option-cases, ◌∙◌, ap, ◌==◌,
  if◌then◌else◌,
}
use gkit_go.Lock.{
  Redis, stored, Delivery, answered, unreached, unanswered, Handle, Released, freed, mismatched,
  release_failed, holds, run_script, release_script, release,
}

module _ {S K V : Type 0} (redis : Redis S K V) where
  -- What the server promises of its commands on one key.
  abbrev pub IsServer : Type 0
  IsServer =
      ((s : S) (k : K) → redis.get (redis.del k s) k ≡ none)
      × (((s : S) (k : K) (ttl : ℕ) → redis.get (redis.pexpire k ttl s) k ≡ redis.get s k)
          × ((s s' : S) (k : K) (v : V) (ttl : ℕ)
              → redis.set_nx k v ttl s ≡ (stored, s')
              → (redis.get s k ≡ none) × (redis.get s' k ≡ some v)))

  module _ (dec : Discrete V) where
    holds-get : (s : S) (k : K) (v : V) → holds redis dec s k v ≡ true → redis.get s k ≡ some v
    unfolding holds
    holds-get s k v h = elim (Option-cases (redis.get s k)) [
      | inl p ↦ absurd (ground (arith, p, h))
      | inr (u, p) ↦ elim (dec u v) [
        | yes q ↦ p ∙ ap some q
        | no q ↦ absurd (ground (arith, p, q, h))
      ]
    ]

    get-holds : (s : S) (k : K) (v : V) → redis.get s k ≡ some v → holds redis dec s k v ≡ true
    unfolding holds
    get-holds s k v p = ground (arith, p)

    -- What a release that ended so has found and left.
    abbrev pub IsReleased : Handle K V → S → Released × S → Type 0
    IsReleased l s (freed, s') = (redis.get s l.key ≡ some l.token) × (redis.get s' l.key ≡ none)
    IsReleased l s (mismatched, s') = (redis.get s l.key ≡ some l.token → ⊥) × (s' ≡ s)
    IsReleased l s (release_failed, s') =
        (s' ≡ s) ⊎ ((redis.get s l.key ≡ some l.token) × (redis.get s' l.key ≡ none))

    script-IsReleased :
        (l : Handle K V) (s : S)
        → IsServer
        → ((release_script redis dec l.key l.token s ≡ (1, redis.del l.key s))
            × IsReleased l s (freed, redis.del l.key s))
          ⊎ ((release_script redis dec l.key l.token s ≡ (0, s)) × IsReleased l s (mismatched, s))
    unfolding release_script
    script-IsReleased l s server = elim (Bool-cases (holds redis dec s l.key l.token)) [
      | inl p ↦ inl (ground (arith, p), (holds-get s l.key l.token p, server.0 s l.key))
      | inr p ↦ inr (
        ground (arith, p),
        ((λ q. absurd (ground (arith, p, get-holds s l.key l.token q))), refl),
      )
    ]

    module _ (l : Handle K V) (s : S) where
      abbrev ran : ℕ × S
      ran = release_script redis dec l.key l.token s

      release-answered :
          redis.deliver s ≡ answered
          → release redis dec l s ≡ (if ran.0 == 0 then mismatched else freed, ran.1)
      unfolding release run_script
      release-answered q = ground (arith, q)

      release-unreached : redis.deliver s ≡ unreached → release redis dec l s ≡ (release_failed, s)
      unfolding release run_script
      release-unreached q = ground (arith, q)

      release-unanswered :
          redis.deliver s ≡ unanswered → release redis dec l s ≡ (release_failed, ran.1)
      unfolding release run_script
      release-unanswered q = ground (arith, q)

    -- On a server whose DEL, PEXPIRE and SET NX do what they promise to a key: a release that returns
    -- nil found the handle's token in the key and has freed the key; one that returns the mismatch
    -- found no such token and left the server as it was; one that fails with the call of its script
    -- left the server as it was or has freed the key of the handle's token. It does not fail so when
    -- the server answers, and returns nil or the mismatch then.
    pub release-holds :
        (l : Handle K V) (s : S)
        → IsServer
        → IsReleased l s (release redis dec l s)
          × (redis.deliver s ≡ answered → (release redis dec l s).0 ≡ release_failed → ⊥)
    release-holds l s server = by_delivery (redis.deliver s) refl (script-IsReleased l s server)
      where
        by_delivery :
            (d : Delivery)
            → redis.deliver s ≡ d
            → ((release_script redis dec l.key l.token s ≡ (1, redis.del l.key s))
                × IsReleased l s (freed, redis.del l.key s))
              ⊎ ((release_script redis dec l.key l.token s ≡ (0, s))
                  × IsReleased l s (mismatched, s))
            → IsReleased l s (release redis dec l s)
              × (redis.deliver s ≡ answered → (release redis dec l s).0 ≡ release_failed → ⊥)
        by_delivery answered q (inl (e, h)) =
            rw (release-answered l s q, e, q) (h, λ _ x. absurd (ground (arith, x)))
        by_delivery answered q (inr (e, h)) =
            rw (release-answered l s q, e, q) (h, λ _ x. absurd (ground (arith, x)))
        by_delivery unreached q h =
            rw (release-unreached l s q, q) (inl refl, λ x _. absurd (ground (arith, x)))
        by_delivery unanswered q (inl (e, h)) =
            rw (release-unanswered l s q, e, q) (inr h, λ x _. absurd (ground (arith, x)))
        by_delivery unanswered q (inr (e, h)) =
            rw (release-unanswered l s q, e, q) (inl refl, λ x _. absurd (ground (arith, x)))
