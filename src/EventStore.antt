-- ===== src/EventStore.antt =====
-- The event store, pkg/eventstore/eventstore.go, on the rows of the events table. Streams are of a
-- type `K` with decidable equality. A version is a natural number; the next version stands for
-- the current one, which is the number before it, or -1 for a stream without events.
pub mod Appending
pub mod Loading
mod Tests
use gkit_go.Prelude.{
  Assoc, map_get, map_put, ℕ, zero, suc, ◌+◌, Bool, true, false, Option, none, some, List, [], ◌∷◌,
  ltb, leb, ◌==◌, ◌&&◌, if◌then◌else◌, max, ite,
}

-- `EventData`
pub record EventData (D : Type 0) : Type 0 where
  pub event_type : ℕ
  pub data_of : D

-- `Event`; the type of an event stands by a number, and its data by the JSON of type `J`.
pub record Event (K J : Type 0) : Type 0 where
  pub stream : K
  pub version : ℕ
  pub event_type : ℕ
  pub json : J

-- The `expectedVersion` of `Append`: `ExpectedVersionNew`, `ExpectedVersionAny`, a version, or a
-- negative number that is neither.
pub data Expected : Type 0 where
  stream_new : Expected
  any_version : Expected
  at_version : ℕ → Expected
  below_all : Expected

-- The errors of `Append` and `Load`.
pub data Error : Type 0 where
  version_conflict : Error
  stream_not_found : Error
  marshal_failed : Error
  insert_failed : Error

pub data Result (A : Type 0) : Type 0 where
  ok : A → Result A
  failed : Error → Result A

-- The switch on `expectedVersion`, true where the append goes on.
unfoldable pub admits : Expected → ℕ → Bool
admits stream_new next = next == 0
admits any_version next = true
admits (at_version v) next = suc v == next
admits below_all next = false

module _ {K J : Type 0} where
  -- `ORDER BY version`
  unfoldable pub place : Event K J → List (Event K J) → List (Event K J)
  place e [] = e ∷ []
  place e (x ∷ xs) =
      let rest = place e xs in if leb x.version e.version then x ∷ rest else e ∷ x ∷ xs

module _ {K J : Type 0} (dec : Discrete K) where
  -- `COALESCE(MAX(version), -1)` of the stream's rows, plus one.
  unfoldable pub next_version : List (Event K J) → K → ℕ
  next_version [] k = 0
  next_version (e ∷ rows) k =
      let rest = next_version rows k in ite (dec e.stream k) (max (suc e.version) rest) rest

  -- Whether a row has the primary key.
  unfoldable pub is_taken : List (Event K J) → K → ℕ → Bool
  is_taken [] k v = false
  is_taken (e ∷ rows) k v =
      let rest = is_taken rows k v in
      ite (dec e.stream k) (if e.version == v then true else rest) rest

  -- The INSERT, which fails on a primary key that is taken.
  unfoldable pub insert : Event K J → List (Event K J) → Option (List (Event K J))
  insert e rows = if is_taken rows e.stream e.version then none else some (e ∷ rows)

  module _ {D : Type 0} (marshal : D → Option J) where
    -- The loop of `Append` from `next` on.
    unfoldable pub insert_all :
        K → List (EventData D) → ℕ → List (Event K J) → Result (List (Event K J))
    insert_all k [] next rows = ok rows
    insert_all k (ed ∷ eds) next rows = elim (marshal ed.data_of) [
      | none ↦ failed marshal_failed
      | some j ↦
          elim (insert (record { stream = k; version = next; event_type = ed.event_type; json = j })
            rows) [ none ↦ failed insert_failed | some rows' ↦ insert_all k eds (next + 1) rows' ]
    ]

    -- `Append`, where the transaction has read the rows `seen` and inserts into `rows`.
    unfoldable pub append :
        K
        → List (EventData D)
        → Expected
        → List (Event K J)
        → List (Event K J)
        → Result (List (Event K J))
    append k [] expected seen rows = ok rows
    append k (ed ∷ eds) expected seen rows =
        if admits expected (next_version seen k)
        then insert_all k (ed ∷ eds) (next_version seen k) rows
        else failed version_conflict

    -- `WithTx` leaves the rows as they were when its function fails.
    unfoldable pub committed : List (Event K J) → Result (List (Event K J)) → List (Event K J)
    committed rows (ok rows') = rows'
    committed rows (failed e) = rows

  -- The SELECT of `Load`.
  unfoldable pub select : List (Event K J) → K → ℕ → List (Event K J)
  select [] k from = []
  select (e ∷ rows) k from =
      let rest = select rows k from in
      ite (dec e.stream k) (if leb from e.version then place e rest else rest) rest

  unfoldable pub load : List (Event K J) → K → ℕ → Result (List (Event K J))
  load rows k from = elim (select rows k from) [
    | [] ↦ if from == 0 then failed stream_not_found else ok []
    | e ∷ es ↦ ok (e ∷ es)
  ]

-- `Snapshot`
pub record Snapshot (K J : Type 0) : Type 0 where
  pub stream : K
  pub version : ℕ
  pub json : J

module _ {K J : Type 0} (dec : Discrete K) where
  -- `SaveSnapshot`: the INSERT with its ON CONFLICT, where `none` is an error of the marshalling.
  unfoldable pub save_snapshot :
      {D : Type 0}
      → (D → Option J)
      → K
      → ℕ
      → D
      → Assoc K (Snapshot K J)
      → Option (Assoc K (Snapshot K J))
  save_snapshot marshal k version state snapshots = elim (marshal state) [
    | none ↦ none
    | some j ↦ some (map_put dec snapshots k (record { stream = k; version = version; json = j }))
  ]

  -- `LoadSnapshot`
  unfoldable pub load_snapshot : K → Assoc K (Snapshot K J) → Option (Snapshot K J)
  load_snapshot k snapshots = map_get dec snapshots k
