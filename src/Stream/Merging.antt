-- ===== src/Stream/Merging.antt =====
-- `FanIn` of pkg/async/stream.go: the goroutines that forward an input each, as steps on channels. The
-- output keeps what its reader has received; `lost` is what goroutines held when they left.
use gkit_go.Prelude.{
  ℕ, zero, suc, Bool, true, false, Option, none, some, List, [], ◌∷◌, ◌++◌, length, ltb, map,
  if◌then◌else◌,
}

-- A goroutine of `forward`: what is still to come from its input, which is closed at the end, and the
-- item that it is sending.
pub record Forwarder (T : Type 0) : Type 0 where
  pub input : List T
  pub holding : Option T
  pub exited : Bool

pub record Merger (T : Type 0) : Type 0 where
  pub capacity : ℕ
  pub forwarders : List (Forwarder T)
  pub buffered : List T
  pub received : List T
  pub lost : List T
  pub ended : Bool  -- the context
  pub closed : Bool  -- the output

pub data Action : Type 0 where
  receive : ℕ → Action
  send : ℕ → Action
  finish : ℕ → Action  -- the input is closed
  quit : ℕ → Action  -- the context has ended
  read : Action
  close_out : Action
  end_context : Action

module _ {T : Type 0} where
  -- `FanIn`
  unfoldable pub fan_in : List (List T) → Merger T
  fan_in inputs = record {
    capacity = 16;
    forwarders = map (λ input. record { input = input; holding = none; exited = false }) inputs;
    buffered = [];
    received = [];
    lost = [];
    ended = false;
    closed = false;
  }

  abbrev pub held : Option T → List T
  held none = []
  held (some v) = v ∷ []

  -- A goroutine receives the next item.
  unfoldable pub receive_next : Option T → List T → Bool → Option (Forwarder T)
  receive_next none (v ∷ input) false =
      some (record { input = input; holding = some v; exited = false })
  receive_next o input e = none

  -- A goroutine whose input is closed returns.
  unfoldable pub finish_one : Option T → List T → Bool → Option (Forwarder T)
  finish_one none [] false = some (record { input = []; holding = none; exited = true })
  finish_one o input e = none

  -- The goroutine at an index takes a step of its own.
  unfoldable pub update :
      (Option T → List T → Bool → Option (Forwarder T))
      → ℕ
      → List (Forwarder T)
      → Option (List (Forwarder T))
  update f i [] = none
  update f zero (w ∷ ws) = elim (f w.holding w.input w.exited) [
    | none ↦ none
    | some w' ↦ some (w' ∷ ws)
  ]
  update f (suc i) (w ∷ ws) =
      let rest = update f i ws in elim rest [ none ↦ none | some ws' ↦ some (w ∷ ws') ]

  -- The item that the goroutine at an index sends, and the goroutines after it.
  unfoldable pub give : ℕ → List (Forwarder T) → Option (T × List (Forwarder T))
  give i [] = none
  give zero (w ∷ ws) = elim w.holding [
    | none ↦ none
    | some v ↦ some (v, record w { holding = none } ∷ ws)
  ]
  give (suc i) (w ∷ ws) =
      let rest = give i ws in elim rest [ none ↦ none | some (v, ws') ↦ some (v, w ∷ ws') ]

  -- The goroutine at an index returns, with what it holds.
  unfoldable pub drop_out : ℕ → List (Forwarder T) → Option (List T × List (Forwarder T))
  drop_out i [] = none
  drop_out zero (w ∷ ws) =
      if w.exited
      then none
      else some (held w.holding, record w { holding = none; exited = true } ∷ ws)
  drop_out (suc i) (w ∷ ws) =
      let rest = drop_out i ws in elim rest [ none ↦ none | some (vs, ws') ↦ some (vs, w ∷ ws') ]

  unfoldable pub all_exited : List (Forwarder T) → Bool
  all_exited [] = true
  all_exited (w ∷ ws) = if w.exited then all_exited ws else false

  unfoldable pub read_one : List T → Merger T → Option (Merger T)
  read_one [] m = none
  read_one (v ∷ vs) m = some (record m { buffered = vs; received = m.received ++ v ∷ [] })

  -- A step, or `none` where it cannot be taken.
  unfoldable pub step : Action → Merger T → Option (Merger T)
  unfolding receive_next finish_one update give drop_out all_exited read_one
  step (receive i) m = elim (update receive_next i m.forwarders) [
    | none ↦ none
    | some ws ↦ some (record m { forwarders = ws })
  ]
  step (send i) m =
      if ltb (length m.buffered) m.capacity
      then elim (give i m.forwarders) [
        | none ↦ none
        | some (v, ws) ↦ some (record m { forwarders = ws; buffered = m.buffered ++ v ∷ [] })
      ]
      else none
  step (finish i) m = elim (update finish_one i m.forwarders) [
    | none ↦ none
    | some ws ↦ some (record m { forwarders = ws })
  ]
  step (quit i) m =
      if m.ended
      then elim (drop_out i m.forwarders) [
        | none ↦ none
        | some (vs, ws) ↦ some (record m { forwarders = ws; lost = m.lost ++ vs })
      ]
      else none
  step read m = read_one m.buffered m
  step close_out m =
      if m.closed
      then none
      else (if all_exited m.forwarders then some (record m { closed = true }) else none)
  step end_context m = some (record m { ended = true })

  -- A schedule of steps.
  unfoldable pub run : List Action → Merger T → Option (Merger T)
  unfolding step
  run [] m = some m
  run (a ∷ actions) m = elim (step a m) [ none ↦ none | some m' ↦ run actions m' ]
