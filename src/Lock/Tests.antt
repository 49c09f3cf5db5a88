-- ===== src/Lock/Tests.antt =====
-- Runs of the lock and its theorems at concrete inputs (pkg/lock/lock.go).
use gkit_go.Prelude.{
  ℕ, ◌+◌, ◌≡◌, refl, Bool, true, false, Option, none, some, ℕ_discrete, arith, max, [], ◌∷◌, List,
  ◌>>=◌,
}
use gkit_go.Lock.{
  Redis, Reply, stored, refused, Locker, Handle, acquired, failed, not_acquired, answered,
  unreached, freed, release_failed, holds, run_script, release_script, release, try_acquire,
  acquire,
}
use gkit_go.Lock.Keepalive
use gkit_go.Lock.Keepalive.{Holder, new_holder, keepalive-IsQuiet}
use gkit_go.Lock.Ownership.{IsServer, IsReleased, release-holds}
use gkit_go.Lock.Waiting.{IsOutcome, acquire-ends}

abbrev nx : ℕ → Option ℕ → Reply × Option ℕ
nx v none = (stored, some v)
nx v (some u) = (refused, some u)

-- A server with one key, which holds a token or nothing.
abbrev one_key : Redis (Option ℕ) ℕ ℕ
one_key = record {
  get = λ s k. s;
  del = λ k s. none;
  pexpire = λ k ttl s. s;
  set_nx = λ k v ttl s. nx v s;
  deliver = λ s. answered;
}

one_key-IsServer : IsServer one_key
one_key-IsServer = ((λ s k. refl), ((λ s k ttl. refl), set))
  where
    set : (s s' : Option ℕ) (k v ttl : ℕ) → nx v s ≡ (stored, s') → (s ≡ none) × (s' ≡ some v)
    set none s' k v ttl p = (refl, ground (arith, p))
    set (some u) s' k v ttl p = absurd (ground (arith, p))

abbrev twice : Locker
twice = record { retry_ok = true; retry_n = 2 }

abbrev idle : ℕ → Option ℕ → Bool × Option ℕ
idle n s = (false, s)

-- The other holder is gone after the first pause.
abbrev let_in : ℕ → Option ℕ → Bool × Option ℕ
let_in n s = (false, none)

abbrev draw : ℕ → ℕ
draw n = 50 + n

waits_in_vain :
    acquire one_key twice draw idle 1 30 2 0 (some 9) ≡ some (failed not_acquired, some 9)
unfolding acquire try_acquire
waits_in_vain = refl

waits :
    acquire one_key twice draw let_in 1 30 2 0 (some 9)
    ≡ some (acquired (record { key = 1; token = 51; ttl = 30 }), some 51)
unfolding acquire try_acquire
waits = refl

abbrev mine : Handle ℕ ℕ
mine = record { key = 1; token = 50; ttl = 30 }

abbrev own : ℕ
own = 50

abbrev other : ℕ
other = 9

release-holds_example :
    IsReleased one_key ℕ_discrete mine (some own) (release one_key ℕ_discrete mine (some own))
    × (answered ≡ answered → (release one_key ℕ_discrete mine (some own)).0 ≡ release_failed → ⊥)
release-holds_example = release-holds one_key ℕ_discrete mine (some own) one_key-IsServer

frees : release one_key ℕ_discrete mine (some own) ≡ (freed, none)
unfolding release run_script release_script holds ℕ_discrete
frees = refl

-- A server that is not reached leaves the token of the holder there.
unreachable :
    release (record one_key { deliver = λ s. unreached }) ℕ_discrete mine (some own)
    ≡ (release_failed, some own)
unfolding release run_script release_script holds ℕ_discrete
unreachable = refl

acquire-ends_example :
    IsOutcome one_key twice draw let_in 1 30
      (acquire one_key twice draw let_in 1 30 (max 1 2) 0 (some other))
acquire-ends_example =
    acquire-ends one_key twice draw let_in 1 30 (some other) one_key-IsServer refl

-- A renewal is under way when Release is called.
abbrev renewed_once : List Keepalive.Action
renewed_once =
    Keepalive.ticked ∷ Keepalive.release_called ∷ Keepalive.stop_closing ∷ Keepalive.renewed
    ∷ Keepalive.stopped ∷ Keepalive.wait_over ∷ Keepalive.script_run ∷ []

abbrev let_go : Holder
let_go = record {
  stop_closed = true;
  done_closed = true;
  renewing = false;
  checked = 0;
  waiting = 0;
  releasing = 0;
  released = 1;
  renewals = 1;
  late = 0;
  panics = 0;
}

run-renewed_once : Keepalive.run renewed_once new_holder ≡ some let_go
unfolding Keepalive.run new_holder
run-renewed_once = refl

keepalive-IsQuiet_example :
    (let_go.late ≡ 0)
    × ((let_go.renewing ≡ false) × (Keepalive.step Keepalive.ticked let_go ≡ none))
keepalive-IsQuiet_example = keepalive-IsQuiet renewed_once let_go run-renewed_once (omega arith)

-- Two calls of Release that both find the channel open: the second to close it panics.
both_close :
    (do
      h ←
          Keepalive.run
            (Keepalive.release_called ∷ Keepalive.release_called ∷ Keepalive.stop_closing
              ∷ Keepalive.stop_closing ∷ [])
            new_holder
      some h.panics)
    ≡ some 1
unfolding Keepalive.run new_holder
both_close = refl
