-- ===== src/Lock.antt =====
-- The distributed lock, pkg/lock/lock.go. The Redis client is the parameter `Redis`, on its state
-- `S`; the scripts are what their Lua text does with its commands. Tokens are of type `V`.
pub mod Keepalive
pub mod Ownership
pub mod Waiting
mod Tests
use gkit_go.Prelude.{
  ◌⊎◌, inl, inr, ℕ, zero, suc, ◌+◌, Bool, true, false, Option, none, some, ltb, leb, ◌==◌, ◌&&◌,
  if◌then◌else◌, ite,
}

-- What the server answers to `SET NX`.
pub data Reply : Type 0 where
  stored : Reply
  refused : Reply
  broken : Reply

-- What becomes of a call of a script: the server runs it and answers; an error comes and it has
-- not run; or an error comes although it has.
pub data Delivery : Type 0 where
  answered : Delivery
  unreached : Delivery
  unanswered : Delivery

-- The commands that the lock uses: GET, DEL, PEXPIRE and SET with NX and a time to live.
pub record Redis (S K V : Type 0) : Type 0 where
  pub get : S → K → Option V
  pub del : K → S → S
  pub pexpire : K → ℕ → S → S
  pub set_nx : K → V → ℕ → S → Reply × S
  pub deliver : S → Delivery  -- the fate of a script that is called now

-- `Locker`: the bound on the attempts, if `WithRetry` gave one.
pub record Locker : Type 0 where
  pub retry_ok : Bool
  pub retry_n : ℕ

-- `Lock`
pub record Handle (K V : Type 0) : Type 0 where
  pub key : K
  pub token : V
  pub ttl : ℕ

-- The errors: `ErrNotAcquired`, one of the server, one of the context.
pub data Error : Type 0 where
  not_acquired : Error
  server_error : Error
  context_error : Error

pub data Outcome (K V : Type 0) : Type 0 where
  acquired : Handle K V → Outcome K V
  failed : Error → Outcome K V

-- What `Release` returns: nil, the error of a token mismatch, or that of the script's call.
pub data Released : Type 0 where
  freed : Released
  mismatched : Released
  release_failed : Released

module _ {S K V : Type 0} (redis : Redis S K V) (dec : Discrete V) where
  -- Whether GET returns the token.
  unfoldable pub holds : S → K → V → Bool
  holds s k v = elim (redis.get s k) [ none ↦ false | some u ↦ ite (dec u v) true false ]

  -- `releaseScript`; DEL returns 1 for the key that GET has found.
  unfoldable pub release_script : K → V → S → ℕ × S
  release_script k v s = if holds s k v then (1, redis.del k s) else (0, s)

  -- `renewScript`
  unfoldable pub renew_script : K → V → ℕ → S → ℕ × S
  renew_script k v ttl s = if holds s k v then (1, redis.pexpire k ttl s) else (0, s)

  -- `Run` of a script: its number, or an error.
  unfoldable pub run_script : (S → ℕ × S) → S → Option ℕ × S
  run_script script s = elim (redis.deliver s) [
    | answered ↦ let (n, s') = script s in (some n, s')
    | unreached ↦ (none, s)
    | unanswered ↦ (none, (script s).1)
  ]

  -- `Release`, once the keepalive has ended.
  unfoldable pub release : Handle K V → S → Released × S
  unfolding run_script
  release l s =
      let (reply, s') = run_script (release_script l.key l.token) s in
      elim reply [
        | none ↦ (release_failed, s')
        | some n ↦ (if n == 0 then mismatched else freed, s')
      ]

  -- A tick of `keepalive`, which ignores an error.
  unfoldable pub keepalive_tick : Handle K V → S → S
  unfolding run_script
  keepalive_tick l s = (run_script (renew_script l.key l.token l.ttl) s).1

module _ {S K V : Type 0} (redis : Redis S K V) where
  -- `TryAcquire`, with the token drawn for it.
  unfoldable pub try_acquire : K → V → ℕ → S → Outcome K V × S
  try_acquire k v ttl s =
      let (r, s') = redis.set_nx k v ttl s in
      elim r [
        | stored ↦ (acquired (record { key = k; token = v; ttl = ttl }), s')
        | refused ↦ (failed not_acquired, s')
        | broken ↦ (failed server_error, s')
      ]

  -- `Acquire`: `token n` is drawn for attempt `n`, and `pause` is the wait after it, which is over
  -- when the context is (true) or the interval, with what others have done to the server meanwhile.
  -- `none` is the end of the fuel.
  unfoldable pub acquire :
      Locker → (ℕ → V) → (ℕ → S → Bool × S) → K → ℕ → ℕ → ℕ → S → Option (Outcome K V × S)
  acquire l token pause k ttl zero attempt s = none
  acquire l token pause k ttl (suc fuel) attempt s =
      let (o, s') = try_acquire k (token attempt) ttl s in
      elim o [
        | acquired h ↦ some (acquired h, s')
        | failed server_error ↦ some (failed server_error, s')
        | failed context_error ↦ some (failed context_error, s')
        | failed not_acquired ↦ elim (l.retry_ok && leb l.retry_n (attempt + 1)) [
          | true ↦ some (failed not_acquired, s')
          | false ↦
              let (cancelled, s'') = pause attempt s' in
              elim cancelled [
                | true ↦ some (failed context_error, s'')
                | false ↦ acquire l token pause k ttl fuel (attempt + 1) s''
              ]
        ]
      ]

-- `WithLock`: the function runs only under the lock, which is released after it; the result is that of
-- the function, or the error of the acquisition.
unfoldable pub with_lock :
    {S K V R : Type 0} (redis : Redis S K V) (dec : Discrete V)
    → Option (Outcome K V × S)
    → (S → R × S)
    → Option ((R ⊎ Error) × S)
unfolding release
with_lock redis dec none fn = none
with_lock redis dec (some (failed e, s)) fn = some (inr e, s)
with_lock redis dec (some (acquired l, s)) fn =
    let (r, s') = fn s in some (inl r, (release redis dec l s').1)
