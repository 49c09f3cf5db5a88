-- ===== src/Async/Permits.antt =====
-- How many permits are out, and how often a throttled function is called (pkg/async/semaphore.go).
use gkit_go.Prelude.{
  ℕ, suc, ◌+◌, ◌-◌, is_some, ◌≤◌, ◌<◌, ◌≡◌, ◌↔◌, true, Option, none, some, List, [], ◌∷◌, arith,
  ltb, if◌then◌else◌, inl, inr, Bool-cases,
}
use gkit_go.Async.{
  Semaphore, new_semaphore, try_acquire, release, available, Throttle, new_throttle, replenish,
  call,
}

-- What goroutines do to a semaphore.
pub data Op : Type 0 where
  acquiring : Op
  releasing : Op

-- A schedule, with the permits that its goroutines hold; `none` is a panic.
unfoldable pub schedule : List Op → Semaphore → ℕ → Option (Semaphore × ℕ)
unfolding try_acquire release
schedule [] s held = some (s, held)
schedule (acquiring ∷ ops) s held =
    let (granted, s') = try_acquire s in schedule ops s' (if granted then held + 1 else held)
schedule (releasing ∷ ops) s held = elim (release s) [
  | none ↦ none
  | some s' ↦ schedule ops s' (held - 1)
]

-- The permits held and those available are all there are; one more can be had while they are not
-- all held, and one can be returned while one is held.
abbrev pub IsCounted : ℕ → Option (Semaphore × ℕ) → Type 0
IsCounted n none = Unit
IsCounted n (some (s, held)) =
    (held + available s ≡ n)
    × ((((try_acquire s).0 ≡ true) ↔ (held < n)) × ((is_some (release s) ≡ true) ↔ (0 < held)))

counted :
    (s : Semaphore) (held : ℕ)
    → held ≡ s.used
    → s.used ≤ s.capacity
    → IsCounted s.capacity (some (s, held))
unfolding available try_acquire release
counted s held p q = (
  ground arith,
  (
    ((λ h. ground (arith, h)), (λ h. ground arith)),
    ((λ h. ground (arith, h)), (λ h. ground arith)),
  ),
)

schedule-IsCounted :
    (ops : List Op) (s : Semaphore) (held : ℕ)
    → held ≡ s.used
    → s.used ≤ s.capacity
    → IsCounted s.capacity (schedule ops s held)
unfolding schedule try_acquire release
schedule-IsCounted [] s held p q = counted s held p q
schedule-IsCounted (acquiring ∷ ops) s held p q = elim (Bool-cases (ltb s.used s.capacity)) [
  | inl h ↦ rw (h) (
      schedule-IsCounted ops (record s { used = s.used + 1 }) (held + 1) (omega (arith, p))
        (ground arith))
  | inr h ↦ rw (h) (schedule-IsCounted ops s held p q)
]
schedule-IsCounted (releasing ∷ ops) s held p q = elim (Bool-cases (ltb 0 s.used)) [
  | inl h ↦
      rw (h, schedule, release)
        (schedule-IsCounted ops (record s { used = s.used - 1 }) (held - 1) (omega (arith, p))
          (omega (arith, q)))
  | inr h ↦ rw (h, schedule, release) tt
]

-- Whatever goroutines acquire and release in whatever order, as long as no release panics: of `n`
-- permits those held and those available are all there are, so no more than `n` are held;
-- TryAcquire succeeds just while fewer are held; and Release panics just when none is held.
semaphore-IsCounted : (n : ℕ) (ops : List Op) → IsCounted n (schedule ops (new_semaphore n) 0)
unfolding new_semaphore
semaphore-IsCounted n ops = schedule-IsCounted ops (new_semaphore n) 0 (omega arith) (omega arith)

-- What happens to a throttle.
pub data Event : Type 0 where
  tick : Event
  called : Event

unfoldable pub throttled : List Event → Throttle → Throttle
unfolding replenish call
throttled [] t = t
throttled (tick ∷ events) t = throttled events (replenish t)
throttled (called ∷ events) t = throttled events (call t)

abbrev pub ticks : List Event → ℕ
ticks [] = 0
ticks (tick ∷ events) = suc (ticks events)
ticks (called ∷ events) = ticks events

throttled-bound :
    (events : List Event) (t : Throttle)
    → (throttled events t).calls ≤ t.calls + (if t.permit then 1 else 0) + ticks events
unfolding throttled replenish call
throttled-bound [] t = ground arith
throttled-bound (tick ∷ events) t = ground (arith, throttled-bound events (replenish t))
throttled-bound (called ∷ events) t = ground (arith, throttled-bound events (call t))

-- However often the throttled function is called and whenever its ticker ticks, the function
-- behind it is called at most once more than there were ticks.
throttle-bound : (events : List Event) → (throttled events new_throttle).calls ≤ 1 + ticks events
unfolding new_throttle
throttle-bound events = omega (arith, throttled-bound events new_throttle)
