-- ===== src/Stream/Channels.antt =====
-- The goroutines of `FanOut`, `Tee` and `OrDone`, pkg/async/stream.go, as steps on channels. A
-- channel keeps what its reader has received.
use gkit_go.Prelude.{
  ℕ, zero, suc, ◌-◌, Bool, true, false, Option, none, some, List, [], ◌∷◌, ◌++◌, length, ltb,
  replicate, if◌then◌else◌,
}

-- A channel out of the dispatcher.
pub record Out (T : Type 0) : Type 0 where
  pub received : List T
  pub buffered : List T

-- The dispatcher: what is still to come from `in`, which is closed at the end; the item that it is
-- sending, the channels that have it, and those that wait for it.
pub record Dispatcher (T : Type 0) : Type 0 where
  pub capacity : ℕ
  pub input : List T
  pub current : Option T
  pub sent : List (Out T)
  pub waiting : List (Out T)
  pub closed : Bool

pub data Action : Type 0 where
  receive : Action
  send : Action
  read : ℕ → Action  -- the reader of a channel
  done : Action  -- the end of the context

module _ {T : Type 0} where
  abbrev empty_out : Out T
  empty_out = record { received = []; buffered = [] }

  -- The dispatcher of `n` channels.
  unfoldable pub dispatcher : ℕ → ℕ → List T → Dispatcher T
  dispatcher capacity n input = record {
    capacity = capacity;
    input = input;
    current = none;
    sent = replicate n empty_out;
    waiting = [];
    closed = false;
  }

  abbrev pub still : List (Out T) → T → Option T
  still [] v = none
  still (o ∷ os) v = some v

  unfoldable pub receive_item : Dispatcher T → Option (Dispatcher T)
  receive_item d = elim d.current [
    | some v ↦ none
    | none ↦ elim d.input [
      | [] ↦ some (record d { closed = true })
      | v ∷ vs ↦
          some (record d { input = vs; current = still d.sent v; sent = []; waiting = d.sent })
    ]
  ]

  unfoldable pub send_item : T → List (Out T) → Dispatcher T → Option (Dispatcher T)
  send_item v [] d = none
  send_item v (o ∷ os) d =
      if ltb (length o.buffered) d.capacity
      then some (record d {
        current = still os v;
        sent = d.sent ++ record o { buffered = o.buffered ++ v ∷ [] } ∷ [];
        waiting = os;
      })
      else none

  abbrev pub read_out : Out T → Out T
  read_out o = record { received = o.received ++ first o.buffered; buffered = rest o.buffered }
    where
      first : List T → List T
      first [] = []
      first (v ∷ vs) = v ∷ []

      rest : List T → List T
      rest [] = []
      rest (v ∷ vs) = vs

  -- The reader of the channel at an index takes what is there.
  unfoldable pub read_at : ℕ → List (Out T) → List (Out T)
  read_at i [] = []
  read_at zero (o ∷ os) = read_out o ∷ os
  read_at (suc i) (o ∷ os) = o ∷ read_at i os

  -- A step, or `none` where it cannot be taken.
  unfoldable pub step : Action → Dispatcher T → Option (Dispatcher T)
  unfolding receive_item send_item read_at
  step receive d = if d.closed then none else receive_item d
  step send d =
      if d.closed then none else (elim d.current [ none ↦ none | some v ↦ send_item v d.waiting d ])
  step (read i) d =
      if ltb i (length d.sent)
      then some (record d { sent = read_at i d.sent })
      else some (record d { waiting = read_at (i - length d.sent) d.waiting })
  step done d = some (record d { closed = true })

  -- A schedule of steps.
  unfoldable pub run : List Action → Dispatcher T → Option (Dispatcher T)
  unfolding step
  run [] d = some d
  run (a ∷ actions) d = elim (step a d) [ none ↦ none | some d' ↦ run actions d' ]

  -- `FanOut`, `Tee` and `OrDone`, each under a schedule of its steps and those of its readers.
  unfoldable pub fan_out : ℕ → List T → List Action → Option (Dispatcher T)
  unfolding run dispatcher
  fan_out n input actions = run actions (dispatcher 16 n input)

  unfoldable pub tee : List T → List Action → Option (Dispatcher T)
  unfolding run dispatcher
  tee input actions = run actions (dispatcher 16 2 input)

  unfoldable pub or_done : List T → List Action → Option (Dispatcher T)
  unfolding run dispatcher
  or_done input actions = run actions (dispatcher 1 1 input)
