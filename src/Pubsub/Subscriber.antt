-- ===== src/Pubsub/Subscriber.antt =====
-- One subscription of the event bus (pkg/pubsub/bus.go): its delivery channel and the goroutine
-- that reads it. Payloads are of a type `P`; `accepts` tells those that the type assertion lets pass.
use gkit_go.Prelude.{
  ℕ, ◌+◌, Bool, true, false, Option, none, some, List, [], ◌∷◌, ◌++◌, length, ltb, if◌then◌else◌,
}

-- Where the dispatch goroutine stands.
pub data Dispatch (P : Type 0) : Type 0 where
  idle : Dispatch P  -- before its select
  waiting : Dispatch P  -- in its select, with nothing to receive
  busy : P → Dispatch P  -- in the handler
  ended : Dispatch P

-- `rawHandler` with what its closures hold. The last four fields are a record of what has happened.
pub record Subscriber (K P : Type 0) : Type 0 where
  pub topic : K
  pub accepts : P → Bool
  pub capacity : ℕ
  pub queue : List P
  pub closed : Bool
  pub cancelled : Bool
  pub dispatch : Dispatch P
  pub accepted : List P
  pub handled : List P
  pub dropped : ℕ
  pub panics : ℕ  -- of publishers

-- The steps of the dispatch goroutine.
pub data Move : Type 0 where
  received : Move
  blocked : Move
  finished : Move
  left : Move

-- The steps of a subscription: those of publishers, of its goroutine, and of `unsubscribe`.
pub data Action (P : Type 0) : Type 0 where
  offered : P → Action P
  moved : Move → Action P
  cancelling : Action P
  closing : Action P

module _ {K P : Type 0} where
  -- The subscription that `Subscribe` makes.
  unfoldable pub new_subscriber : K → (P → Bool) → ℕ → Subscriber K P
  new_subscriber topic accepts buf_size = record {
    topic = topic;
    accepts = accepts;
    capacity = buf_size;
    queue = [];
    closed = false;
    cancelled = false;
    dispatch = idle;
    accepted = [];
    handled = [];
    dropped = 0;
    panics = 0;
  }

  -- The send of the closure `publish`, on an open channel, by where the receiver stands.
  unfoldable pub send : P → Dispatch P → Subscriber K P → Subscriber K P
  send x waiting s = record s { dispatch = busy x; accepted = s.accepted ++ x ∷ [] }
  send x d s =
      if ltb (length s.queue) s.capacity
      then record s { queue = s.queue ++ x ∷ []; accepted = s.accepted ++ x ∷ [] }
      else record s { dropped = s.dropped + 1 }

  -- The closure `publish`.
  unfoldable pub publish_to : P → Subscriber K P → Subscriber K P
  unfolding send
  publish_to x s =
      if s.accepts x
      then (if s.closed then record s { panics = s.panics + 1 } else send x s.dispatch s)
      else record s { panics = s.panics + 1 }

  -- Whether it panics: the type assertion fails, or the channel is closed.
  abbrev pub publish_panics : P → Subscriber K P → Bool
  publish_panics x s = if s.accepts x then s.closed else true

  -- The receive of the dispatch goroutine.
  unfoldable pub receive : List P → Dispatch P → Subscriber K P → Option (Subscriber K P)
  receive (x ∷ xs) idle s = some (record s { queue = xs; dispatch = busy x })
  receive xs d s = none

  -- Its select blocks.
  unfoldable pub block : List P → Dispatch P → Subscriber K P → Option (Subscriber K P)
  block [] idle s =
      if s.closed
      then none
      else (if s.cancelled then none else some (record s { dispatch = waiting }))
  block xs d s = none

  unfoldable pub finish : Dispatch P → Subscriber K P → Option (Subscriber K P)
  finish (busy x) s = some (record s { dispatch = idle; handled = s.handled ++ x ∷ [] })
  finish d s = none

  -- Its select finds the context done, or the channel closed and empty.
  unfoldable pub leave : List P → Dispatch P → Subscriber K P → Option (Subscriber K P)
  leave xs (busy x) s = none
  leave xs ended s = none
  leave xs d s = if s.cancelled then some (record s { dispatch = ended }) else elim xs [
    | [] ↦ if s.closed then some (record s { dispatch = ended }) else none
    | y ∷ ys ↦ none
  ]

  -- `rh.cancel()`
  unfoldable pub cancel : Subscriber K P → Subscriber K P
  cancel s = record s { cancelled = true }

  -- `close(ch)`; `none` is its panic.
  unfoldable pub close : Subscriber K P → Option (Subscriber K P)
  close s = if s.closed then none else some (record s { closed = true })

  -- A step, or `none` where it cannot be taken.
  unfoldable pub move : Move → Subscriber K P → Option (Subscriber K P)
  unfolding receive block finish leave
  move received s = receive s.queue s.dispatch s
  move blocked s = block s.queue s.dispatch s
  move finished s = finish s.dispatch s
  move left s = leave s.queue s.dispatch s

  unfoldable pub step : Action P → Subscriber K P → Option (Subscriber K P)
  unfolding publish_to move cancel close
  step (offered x) s = some (publish_to x s)
  step (moved m) s = move m s
  step cancelling s = some (cancel s)
  step closing s = close s

  -- A schedule of steps.
  unfoldable pub run : List (Action P) → Subscriber K P → Option (Subscriber K P)
  unfolding step
  run [] s = some s
  run (a ∷ actions) s = elim (step a s) [ none ↦ none | some s' ↦ run actions s' ]
