-- ===== src/Lock/Waiting.antt =====
-- What waiting for a lock comes to (pkg/lock/lock.go).
use gkit_go.Prelude.{
  ℕ, zero, suc, ◌+◌, ◌≤◌, ◌<◌, ◌≡◌, refl, Bool, true, false, Option, none, some, inl, inr, arith,
  Bool-cases, leb, max,
}
use gkit_go.Lock.{
  Redis, Reply, stored, refused, broken, Locker, Handle, Outcome, acquired, failed, not_acquired,
  server_error, context_error, try_acquire, acquire,
}
use gkit_go.Lock.Ownership.{IsServer}

module _ {S K V : Type 0} (redis : Redis S K V) (l : Locker) (token : ℕ → V)
    (pause : ℕ → S → Bool × S) (k : K) (ttl : ℕ) where
  -- What an outcome says of the server: a lock that was acquired has a token that was drawn for it
  -- and the key holds that token.
  abbrev pub IsOutcome : Option (Outcome K V × S) → Type 0
  IsOutcome none = ⊥
  IsOutcome (some (acquired h, s)) =
      (h.key ≡ k) × ((n : ℕ) × ((h.token ≡ token n) × (redis.get s k ≡ some h.token)))
  IsOutcome (some (failed e, s)) = Unit

  try_acquire-stored :
      (n : ℕ) (s s' : S) (h : Handle K V)
      → IsServer redis
      → try_acquire redis k (token n) ttl s ≡ (acquired h, s')
      → IsOutcome (some (acquired h, s'))
  unfolding try_acquire
  try_acquire-stored n s s' h server p = answered (redis.set_nx k (token n) ttl s) refl
    where
      answered :
          (r : Reply × S) → redis.set_nx k (token n) ttl s ≡ r → IsOutcome (some (acquired h, s'))
      answered (stored, t) q =
          let kept = server.1.1 s t k (token n) ttl q in
          (ground (arith, p, q), (n, (ground (arith, p, q), ground (arith, p, q, kept))))
      answered (refused, t) q = absurd (ground (arith, p, q))
      answered (broken, t) q = absurd (ground (arith, p, q))

  acquire-acquired :
      (fuel attempt : ℕ) (s s' : S) (g : Handle K V)
      → try_acquire redis k (token attempt) ttl s ≡ (acquired g, s')
      → acquire redis l token pause k ttl (suc fuel) attempt s ≡ some (acquired g, s')
  unfolding acquire
  acquire-acquired fuel attempt s s' g p = ground (arith, p)

  module _ (fuel attempt : ℕ) (s s' : S)
      (held : try_acquire redis k (token attempt) ttl s ≡ (failed not_acquired, s')) where
    acquire-exhausted :
        l.retry_ok ≡ true
        → leb l.retry_n (attempt + 1) ≡ true
        → acquire redis l token pause k ttl (suc fuel) attempt s ≡ some (failed not_acquired, s')
    unfolding acquire
    acquire-exhausted ok q = ground arith

    acquire-cancelled :
        leb l.retry_n (attempt + 1) ≡ false
        → (pause attempt s').0 ≡ true
        → acquire redis l token pause k ttl (suc fuel) attempt s
          ≡ some (failed context_error, (pause attempt s').1)
    unfolding acquire
    acquire-cancelled q c = ground arith

    acquire-again :
        leb l.retry_n (attempt + 1) ≡ false
        → (pause attempt s').0 ≡ false
        → acquire redis l token pause k ttl (suc fuel) attempt s
          ≡ acquire redis l token pause k ttl fuel (attempt + 1) (pause attempt s').1
    unfolding acquire
    acquire-again q c = ground arith

  acquire-IsOutcome :
      (fuel attempt : ℕ) (s : S)
      → IsServer redis
      → l.retry_ok ≡ true
      → max (attempt + 1) l.retry_n ≤ attempt + fuel
      → IsOutcome (acquire redis l token pause k ttl fuel attempt s)
  unfolding acquire
  acquire-IsOutcome zero attempt s server ok h = absurd (omega (arith, h))
  acquire-IsOutcome (suc fuel) attempt s server ok h =
      tried (try_acquire redis k (token attempt) ttl s) refl
        (λ t less. acquire-IsOutcome fuel (attempt + 1) t server ok (omega (arith, h, less)))
    where
      tried :
          (r : Outcome K V × S)
          → try_acquire redis k (token attempt) ttl s ≡ r
          → ((t : S)
              → attempt + 1 < l.retry_n
              → IsOutcome (acquire redis l token pause k ttl fuel (attempt + 1) t))
          → IsOutcome (acquire redis l token pause k ttl (suc fuel) attempt s)
      tried (acquired g, s') p next =
          rw (acquire-acquired fuel attempt s s' g p) (try_acquire-stored attempt s s' g server p)
      tried (failed server_error, s') p next = rw (p, acquire) tt
      tried (failed context_error, s') p next = rw (p, acquire) tt
      tried (failed not_acquired, s') p next = elim (Bool-cases (leb l.retry_n (attempt + 1))) [
        | inl q ↦ rw (acquire-exhausted fuel attempt s s' p ok q) tt
        | inr q ↦ elim (Bool-cases (pause attempt s').0) [
          | inl c ↦ rw (acquire-cancelled fuel attempt s s' p q c) tt
          | inr c ↦
              rw (acquire-again fuel attempt s s' p q c)
                (next (pause attempt s').1 (ground (arith, q)))
        ]
      ]

  -- With `WithRetry`, the loop of `Acquire` ends within as many rounds as it was given, or one, and
  -- a lock that it returns is for the key, which then holds a token drawn for the lock.
  pub acquire-ends :
      (s : S)
      → IsServer redis
      → l.retry_ok ≡ true
      → IsOutcome (acquire redis l token pause k ttl (max 1 l.retry_n) 0 s)
  acquire-ends s server ok = acquire-IsOutcome (max 1 l.retry_n) 0 s server ok (omega arith)
