-- ===== src/Stream.antt =====
-- The operators on streams, pkg/async/stream.go. A stream is what comes out of its two channels: the
-- items and the error, if any. Which items come before the end of a context, and where a timeout of
-- a batch falls between two items, is an argument.
pub mod Batches
pub mod Channels
pub mod Broadcast
pub mod Dispatch
pub mod Interleaving
pub mod Merging
pub mod Tally
mod Tests
use gkit_go.Prelude.{
  ℕ, zero, suc, ◌+◌, Bool, true, false, Option, none, some, List, [], ◌∷◌, ◌++◌, map, take, length,
  ltb, leb, if◌then◌else◌,
}

-- `Stream`
pub record Stream (A E : Type 0) : Type 0 where
  pub items : List A
  pub err : Option E

-- What the loop of `Batch` receives: an item, or the timeout.
pub data Signal (A : Type 0) : Type 0 where
  item : A → Signal A
  timeout : Signal A

module _ {E : Type 0} where
  -- `FromSlice`, whose context lets the first `sent` sends through.
  unfoldable pub from_slice : {A : Type 0} → ℕ → List A → Stream A E
  from_slice sent s = record { items = take sent s; err = none }

  -- `Map`
  unfoldable pub map_stream : {A B : Type 0} → Stream A E → (A → B) → Stream B E
  map_stream s fn = record { items = map fn s.items; err = s.err }

module _ {A : Type 0} where
  unfoldable pub kept : (A → Bool) → List A → List A
  kept keep [] = []
  kept keep (v ∷ vs) = let rest = kept keep vs in if keep v then v ∷ rest else rest

  -- The loop of `Take`, with the items counted so far.
  unfoldable pub taken : ℕ → ℕ → List A → List A
  taken n count [] = []
  taken n count (v ∷ vs) = let rest = taken n (count + 1) vs in if leb n count then [] else v ∷ rest

  -- `flush`
  unfoldable pub flush : List A → List (List A)
  flush [] = []
  flush (v ∷ buf) = (v ∷ buf) ∷ []

  -- The loop of `Batch`; the end of the signals is the end of the stream.
  unfoldable pub batches : ℕ → List A → List (Signal A) → List (List A)
  batches size buf [] = flush buf
  batches size buf (item v ∷ signals) = elim (leb size (length (buf ++ v ∷ []))) [
    | true ↦ flush (buf ++ v ∷ []) ++ batches size [] signals
    | false ↦ batches size (buf ++ v ∷ []) signals
  ]
  batches size buf (timeout ∷ signals) = flush buf ++ batches size [] signals

  module _ {E : Type 0} where
    -- `Filter`
    unfoldable pub filter_stream : Stream A E → (A → Bool) → Stream A E
    filter_stream s keep = record { items = kept keep s.items; err = s.err }

    -- `Take`, which does not read the error.
    unfoldable pub take_stream : Stream A E → ℕ → Stream A E
    take_stream s n = record { items = taken n 0 s.items; err = none }

    -- `Batch`, of the stream whose items the signals bring and whose error is given.
    unfoldable pub batch : ℕ → List (Signal A) → Option E → Stream (List A) E
    batch size signals err = record { items = batches size [] signals; err = err }

    -- `Collect`; the context may end after a number of items, which gives up those received.
    unfoldable pub collect : List A → List A → Option (ℕ × E) → Option E → List A × Option E
    collect out vs (some (zero, e)) err = ([], some e)
    collect out [] stop err = (out, err)
    collect out (v ∷ vs) none err = collect (out ++ v ∷ []) vs none err
    collect out (v ∷ vs) (some (suc n, e)) err = collect (out ++ v ∷ []) vs (some (n, e)) err

    -- `ForEach`
    unfoldable pub for_each :
        {W : Type 0}
        → (A → W → Option E × W)
        → List A
        → Option (ℕ × E)
        → Option E
        → W
        → Option E × W
    for_each fn vs (some (zero, e)) err w = (some e, w)
    for_each fn [] stop err w = (err, w)
    for_each fn (v ∷ vs) none err w =
        let (failed, w') = fn v w in
        elim failed [ some e ↦ (some e, w') | none ↦ for_each fn vs none err w' ]
    for_each fn (v ∷ vs) (some (suc n, e)) err w =
        let (failed, w') = fn v w in
        elim failed [ some e' ↦ (some e', w') | none ↦ for_each fn vs (some (n, e)) err w' ]
