-- ===== src/Async/Tests.antt =====
-- Schedules and the theorems at concrete inputs (pkg/async/semaphore.go, pkg/async/future.go).
use gkit_go.Prelude.{ℕ, ◌-◌, ◌≤◌, true, false, ◌≡◌, refl, none, some, List, [], ◌∷◌, arith, ◌>>=◌}
use gkit_go.Async.Futures
use gkit_go.Async.Futures.{Result, Future, new_future, resolve, await, all_results, all_from}
use gkit_go.Async.Futures.Results.{valued, await-await}
use gkit_go.Async.{new_semaphore, try_acquire, release, new_throttle, replenish, call}
use gkit_go.Async.Barrier
use gkit_go.Async.Barrier.{Barrier, new_barrier, barrier-Opens, opening, calls}
use gkit_go.Async.Debounce
use gkit_go.Async.Debounce.{Debouncer, debounce}
use gkit_go.Async.Quiet.{debounce-IsQuiet}
use gkit_go.Async.Permits.{Op, acquiring, releasing, schedule, Event, tick, called, throttled}

abbrev three_want_two : List Op
three_want_two = acquiring ∷ acquiring ∷ acquiring ∷ releasing ∷ []

one_left : schedule three_want_two (new_semaphore 2) 0 ≡ some (record { capacity = 2; used = 1 }, 1)
unfolding schedule new_semaphore try_acquire release
one_left = refl

panics : schedule (releasing ∷ []) (new_semaphore 2) 0 ≡ none
unfolding schedule new_semaphore release
panics = refl

abbrev burst : List Event
burst = called ∷ called ∷ tick ∷ called ∷ called ∷ []

twice : (throttled burst new_throttle).calls ≡ 2
unfolding throttled new_throttle replenish call
twice = refl

-- The results of two futures, the second first.
abbrev swapped : List (ℕ × ℕ)
swapped = (1, 20) ∷ (0, 10) ∷ []

in_order : all_results {E = ℕ} 0 2 (valued swapped) none ≡ some (Futures.value (10 ∷ 20 ∷ []))
unfolding all_results all_from
in_order = refl

-- The future is resolved after the context of the first Await has ended.
abbrev ended : Future ℕ ℕ
ended = record { channel = none; cached = some (Futures.error 8) }

first_ends : await (some 8) false new_future ≡ some (ended, Futures.error 8)
unfolding await new_future
first_ends = refl

await-await_example :
    await none false (resolve (Futures.value 5) ended)
    ≡ some (resolve (Futures.value 5) ended, Futures.error 8)
await-await_example =
    await-await (some 8) none false false (Futures.error 8) new_future ended (Futures.value 5)
      first_ends

-- Two callers of a barrier for two, one of them cancelled before the other comes.
abbrev met : List Barrier.Action
met =
    Barrier.arrive ∷ Barrier.take ∷ Barrier.cancel ∷ Barrier.arrive ∷ Barrier.take ∷ Barrier.unlock
    ∷ Barrier.release ∷ []

abbrev left : Barrier
left = record {
  size = 2;
  arrived = 0;
  taken = 2;
  opened = true;
  waiting = 0;
  released = 1;
  cancelled = 1;
}

run-met : Barrier.run met (new_barrier 2) ≡ some left
unfolding Barrier.run new_barrier
run-met = refl

abbrev two_wait : Barrier
two_wait = record {
  size = 2;
  arrived = 1;
  taken = 1;
  opened = false;
  waiting = 2;
  released = 0;
  cancelled = 0;
}

run-two_wait :
    Barrier.run (Barrier.arrive ∷ Barrier.take ∷ Barrier.arrive ∷ []) (new_barrier 2)
    ≡ some two_wait
unfolding Barrier.run new_barrier
run-two_wait = refl

barrier-Opens_example :
    (b' : Barrier) × ((Barrier.run (opening (2 - two_wait.taken)) two_wait ≡ some b')
      × (b'.opened ≡ true))
barrier-Opens_example =
    barrier-Opens 2 (Barrier.arrive ∷ Barrier.take ∷ Barrier.arrive ∷ []) two_wait run-two_wait
      (omega arith) refl

-- The third call of Wait on an open barrier for one blocks in its send, whatever its context.
third_blocks :
    (do
      b ←
          Barrier.run
            (Barrier.arrive ∷ Barrier.take ∷ Barrier.unlock ∷ Barrier.arrive ∷ [])
            (new_barrier 1)
      Barrier.step Barrier.arrive b)
    ≡ none
unfolding Barrier.run Barrier.step new_barrier
third_blocks = refl

-- Three calls, the last while the timer runs.
abbrev typing : List Debounce.Action
typing =
    Debounce.call
    ∷ Debounce.call
    ∷ Debounce.reset
    ∷ Debounce.pass 3
    ∷ Debounce.call
    ∷ Debounce.reset
    ∷ Debounce.pass 5
    ∷ Debounce.expire
    ∷ Debounce.fire
    ∷ []

abbrev saved : Debouncer
saved = record {
  interval = 5;
  now = 8;
  trigger = false;
  deadline = none;
  expired = false;
  reset_at = 3;
  signals = 2;
  calls = 1;
  early = 0;
}

run-typing : Debounce.run typing (debounce 5) ≡ some saved
unfolding Debounce.run debounce
run-typing = refl

debounce-IsQuiet_example : (saved.calls ≤ saved.signals) × (saved.early ≡ 0)
debounce-IsQuiet_example = debounce-IsQuiet 5 typing saved run-typing
