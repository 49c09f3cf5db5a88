-- ===== src/Outbox.antt =====
-- The outbox relay, pkg/outbox/outbox.go, on the rows of the outbox table. Identifiers are numbers;
-- the publisher acts on the world `W`.
pub mod Delivery
pub mod Guarantee
pub mod Identity
pub mod Polling
pub mod Selection
mod Tests
use gkit_go.Prelude.{
  ℕ, Bool, true, false, Option, none, some, List, [], ◌∷◌, map, ◌==◌, if◌then◌else◌,
}

-- What the relay reads of a row.
pub record Event (T P : Type 0) : Type 0 where
  pub id : ℕ
  pub topic : T
  pub payload : P

-- A row of the table.
pub record Row (T P : Type 0) : Type 0 where
  pub event : Event T P
  pub created_at : ℕ
  pub published_at : Option ℕ

-- `id = ANY(ids)`
unfoldable pub is_any : List ℕ → ℕ → Bool
is_any [] id = false
is_any (i ∷ ids) id = let rest = is_any ids id in if i == id then true else rest

module _ {T P : Type 0} where
  -- The INSERT of `Store`.
  unfoldable pub store :
      {R : Type 0} → (R → Option P) → ℕ → ℕ → T → R → List (Row T P) → Option (List (Row T P))
  store marshal id now topic payload rows = elim (marshal payload) [
    | none ↦ none
    | some raw ↦ some (
        record {
          event = record { id = id; topic = topic; payload = raw };
          created_at = now;
          published_at = none;
        }
        ∷ rows)
  ]

  -- The UPDATE of `relay`.
  unfoldable pub mark_published : ℕ → List ℕ → List (Row T P) → List (Row T P)
  mark_published now ids [] = []
  mark_published now ids (r ∷ rows) =
      let rest = mark_published now ids rows in
      (if is_any ids r.event.id then record r { published_at = some now } else r) ∷ rest

  module _ {W E : Type 0} (publish : T → P → W → Option E × W) where
    -- The loop of `relay` that publishes, up to the first error.
    unfoldable pub publish_all : List (Event T P) → W → Option E × W
    publish_all [] w = (none, w)
    publish_all (e ∷ events) w =
        let (err, w') = publish e.topic e.payload w in
        elim err [ some x ↦ (some x, w') | none ↦ publish_all events w' ]

    -- `relay`, of the events that its SELECT has read and locked; on an error the transaction
    -- leaves the rows as they were.
    unfoldable pub relay :
        ℕ → List (Event T P) → List (Row T P) × W → Option E × (List (Row T P) × W)
    relay now [] (rows, w) = (none, (rows, w))
    relay now (e ∷ events) (rows, w) =
        let (err, w') = publish_all (e ∷ events) w in
        elim err [
          | some x ↦ (some x, (rows, w'))
          | none ↦
              (none, (mark_published now (map (λ (x : Event T P). x.id) (e ∷ events)) rows, w'))
        ]
