-- ===== src/Async.antt =====
-- The semaphore and the throttle, pkg/async/semaphore.go, by the number of items in their channels.
-- Each operation is one step of a channel; a schedule is a sequence of steps.
pub mod Barrier
pub mod Debounce
pub mod Quiet
pub mod Futures
pub mod Permits
mod Tests
use gkit_go.Prelude.{
  ℕ, zero, suc, ◌+◌, ◌-◌, Bool, true, false, Option, none, some, List, [], ◌∷◌, ltb, if◌then◌else◌,
}

-- `Semaphore`: the capacity and the length of its channel.
pub record Semaphore : Type 0 where
  pub capacity : ℕ
  pub used : ℕ

unfoldable pub new_semaphore : ℕ → Semaphore
new_semaphore n = record { capacity = n; used = 0 }

-- `TryAcquire`, and `Acquire` where it does not block.
unfoldable pub try_acquire : Semaphore → Bool × Semaphore
try_acquire s = if ltb s.used s.capacity then (true, record s { used = s.used + 1 }) else (false, s)

-- `Release`; `none` is the panic.
unfoldable pub release : Semaphore → Option Semaphore
release s = if ltb 0 s.used then some (record s { used = s.used - 1 }) else none

-- `Available`
unfoldable pub available : Semaphore → ℕ
available s = s.capacity - s.used

-- The throttle: whether its channel holds the permit, and how often the function was called.
pub record Throttle : Type 0 where
  pub permit : Bool
  pub calls : ℕ

unfoldable pub new_throttle : Throttle
new_throttle = record { permit = true; calls = 0 }

-- A tick of its ticker.
unfoldable pub replenish : Throttle → Throttle
replenish t = record t { permit = true }

-- A call of the function that `Throttle` returns.
unfoldable pub call : Throttle → Throttle
call t = if t.permit then record { permit = false; calls = t.calls + 1 } else t
