-- ===== src/EventStore/Tests.antt =====
-- Runs of the event store and its theorems at concrete inputs (pkg/eventstore/eventstore.go).
use gkit_go.Prelude.{
  map_get, map_put, map_delete, ℕ, ◌<◌, ◌≡◌, refl, true, Option, none, some, List, [], ◌∷◌,
  ℕ_discrete, arith, ltb, if◌then◌else◌,
}
use gkit_go.EventStore.{
  Snapshot, save_snapshot, load_snapshot, EventData, Event, any_version, at_version, Error, ok,
  failed, version_conflict, admits, next_version, is_taken, insert, insert_all, append, place,
  select, load,
}
use gkit_go.EventStore.Appending.{IsLog, IsExtended, append-IsExtended, append-stale}

-- Data that has a JSON form when it is below 100.
abbrev small_json : ℕ → Option ℕ
small_json d = if ltb d 100 then some d else none

abbrev any_json : ℕ → Option ℕ
any_json d = some d

abbrev placed : EventData ℕ
placed = record { event_type = 1; data_of = 7 }

abbrev row : ℕ → ℕ → Event ℕ ℕ
row k v = record { stream = k; version = v; event_type = 1; json = 7 }

abbrev table : List (Event ℕ ℕ)
table = row 5 1 ∷ row 6 0 ∷ row 5 0 ∷ []

table-IsLog : IsLog ℕ_discrete table
unfolding next_version ℕ_discrete
table-IsLog = (refl, (refl, (refl, tt)))

appends :
    append ℕ_discrete small_json 5 (placed ∷ []) (at_version 1) table table ≡ ok (row 5 2 ∷ table)
unfolding append insert_all insert is_taken admits next_version ℕ_discrete
appends = refl

conflicts :
    append ℕ_discrete small_json 5 (placed ∷ []) (at_version 0) table table
    ≡ failed version_conflict
unfolding append insert_all insert is_taken admits next_version ℕ_discrete
conflicts = refl

loads : load ℕ_discrete table 5 0 ≡ ok (row 5 0 ∷ row 5 1 ∷ [])
unfolding load select place ℕ_discrete
loads = refl

append-IsExtended_example :
    IsExtended ℕ_discrete 5 1 table
      (append ℕ_discrete small_json 5 (placed ∷ []) any_version table table)
append-IsExtended_example =
    append-IsExtended ℕ_discrete small_json 5 (placed ∷ []) any_version table table table-IsLog
      (omega arith)

seen_before : next_version ℕ_discrete (row 5 0 ∷ []) 5 < next_version ℕ_discrete table 5
unfolding next_version ℕ_discrete
seen_before = omega arith

append-stale_example :
    (e : Error) × (append ℕ_discrete small_json 5 (placed ∷ []) (at_version 0) (row 5 0 ∷ []) table
      ≡ failed e)
append-stale_example =
    append-stale ℕ_discrete small_json 5 placed [] (at_version 0) (row 5 0 ∷ []) table table-IsLog
      seen_before

admitted : admits (at_version 1) (next_version ℕ_discrete table 5) ≡ true
unfolding admits next_version ℕ_discrete
admitted = refl

abbrev saved : Snapshot ℕ ℕ
saved = record { stream = 5; version = 1; json = 42 }

snapshot_saved : save_snapshot ℕ_discrete small_json 5 1 42 [] ≡ some ((5, saved) ∷ [])
unfolding save_snapshot map_put map_delete
snapshot_saved = refl

snapshot_found : load_snapshot ℕ_discrete 5 ((5, saved) ∷ []) ≡ some saved
unfolding load_snapshot map_get ℕ_discrete
snapshot_found = refl
