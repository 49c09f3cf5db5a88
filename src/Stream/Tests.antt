-- ===== src/Stream/Tests.antt =====
-- Streams and the theorem at concrete inputs (pkg/async/stream.go).
use gkit_go.Prelude.{
  length, true, ◌+◌, ◌≤◌, leb, ℕ, false, ◌*◌, ◌%◌, ◌≡◌, refl, none, some, List, [], ◌∷◌, ◌==◌,
}
use gkit_go.Stream.{
  Stream, Signal, item, timeout, from_slice, map_stream, filter_stream, kept, take_stream, taken,
  batch, batches, flush, collect, for_each,
}
use gkit_go.Stream.Channels.{
  Dispatcher, dispatcher, receive, send, read, receive_item, send_item, read_at, step, run, or_done,
}
use gkit_go.Stream.Interleaving.{fan_in-Delivers}
use gkit_go.Stream.Merging
use gkit_go.Stream.Merging.{Merger, fan_in}
use gkit_go.Stream.Tally.{count, count_all}
use gkit_go.Stream.Broadcast.{IsBroadcast, run-IsBroadcast}

abbrev failing : Stream ℕ ℕ
failing = record { items = 1 ∷ 2 ∷ 3 ∷ []; err = some 9 }

doubled : (map_stream failing (λ v. v * 2)).items ≡ 2 ∷ 4 ∷ 6 ∷ []
unfolding map_stream
doubled = refl

even : filter_stream failing (λ v. v % 2 == 0) ≡ record { items = 2 ∷ []; err = some 9 }
unfolding filter_stream kept
even = refl

-- The error of the stream is lost.
first_two : take_stream failing 2 ≡ record { items = 1 ∷ 2 ∷ []; err = none }
unfolding take_stream taken
first_two = refl

abbrev pair : Stream ℕ ℕ
pair = from_slice 2 (5 ∷ 6 ∷ 7 ∷ [])

collected : collect [] pair.items none pair.err ≡ (5 ∷ 6 ∷ [], none)
unfolding collect from_slice
collected = refl

given_up : collect {A = ℕ} {E = ℕ} [] (1 ∷ 2 ∷ 3 ∷ []) (some (1, 4)) (some 9) ≡ ([], some 4)
unfolding collect
given_up = refl

summed : for_each {E = ℕ} (λ v w. (none, w + v)) (1 ∷ 2 ∷ 3 ∷ []) none (some 9) 0 ≡ (some 9, 6)
unfolding for_each
summed = refl

abbrev signals : List (Signal ℕ)
signals = item 1 ∷ item 2 ∷ item 3 ∷ timeout ∷ timeout ∷ item 4 ∷ []

batched : (batch {E = ℕ} 2 signals none).items ≡ (1 ∷ 2 ∷ []) ∷ (3 ∷ []) ∷ (4 ∷ []) ∷ []
unfolding batch batches flush
batched = refl

-- The first channel has read its item before the second has been sent it.
abbrev halfway : Dispatcher ℕ
halfway = record {
  capacity = 16;
  input = 2 ∷ [];
  current = some 1;
  sent = record { received = 1 ∷ []; buffered = [] } ∷ [];
  waiting = record { received = []; buffered = [] } ∷ [];
  closed = false;
}

tee_runs : run (receive ∷ send ∷ read 0 ∷ []) (dispatcher 16 2 (1 ∷ 2 ∷ [])) ≡ some halfway
unfolding run step receive_item send_item read_at dispatcher
tee_runs = refl

-- A full channel stops the goroutine.
full_stops : or_done {T = ℕ} (1 ∷ 2 ∷ []) (receive ∷ send ∷ receive ∷ send ∷ []) ≡ none
unfolding or_done run step receive_item send_item read_at dispatcher
full_stops = refl

run-IsBroadcast_example : IsBroadcast 2 (1 ∷ 2 ∷ []) halfway
run-IsBroadcast_example =
    run-IsBroadcast 16 2 (1 ∷ 2 ∷ []) (receive ∷ send ∷ read 0 ∷ []) halfway tee_runs

-- Two inputs merged, the second first.
abbrev two_inputs : List (List ℕ)
two_inputs = (1 ∷ []) ∷ (7 ∷ []) ∷ []

abbrev merging : List Merging.Action
merging =
    Merging.receive 0
    ∷ Merging.receive 1
    ∷ Merging.send 1
    ∷ Merging.send 0
    ∷ Merging.read
    ∷ Merging.finish 0
    ∷ Merging.finish 1
    ∷ Merging.close_out
    ∷ []

abbrev gone : Merging.Forwarder ℕ
gone = record { input = []; holding = none; exited = true }

abbrev merged : Merger ℕ
merged = record {
  capacity = 16;
  forwarders = gone ∷ gone ∷ [];
  buffered = 1 ∷ [];
  received = 7 ∷ [];
  lost = [];
  ended = false;
  closed = true;
}

run-merging : Merging.run merging (fan_in two_inputs) ≡ some merged
unfolding Merging.run fan_in
run-merging = refl

fan_in-Delivers_example :
    (count (leb 5) merged.received + count (leb 5) merged.buffered ≡ count_all (leb 5) two_inputs)
    × (length merged.buffered ≤ 16)
fan_in-Delivers_example = fan_in-Delivers (leb 5) two_inputs merging merged run-merging refl refl
