-- ===== src/Outbox/Polling.antt =====
-- The polling of the outbox relay, pkg/outbox/outbox.go: its options, the SELECT of `relay` on the
-- rows, and the loop of `run` by the branches that its select takes. The rows that other
-- transactions have locked are `locked`.
use gkit_go.Prelude.{
  ℕ, Bool, true, false, not, ◌&&◌, ◌*◌, ◌^◌, Option, none, some, List, [], ◌∷◌, map, take, leb,
  if◌then◌else◌,
}
use gkit_go.Outbox.{Event, Row, relay}

-- `relayOptions`, without the logger and the callback.
pub record RelayOptions : Type 0 where
  pub interval : ℕ
  pub batch_size : ℕ

-- `defaultRelayOptions`
unfoldable pub default_relay_options : RelayOptions
default_relay_options = record { interval = 5 * 10 ^ 9; batch_size = 100 }

-- `WithRelayInterval` and `WithBatchSize`.
pub data RelayOption : Type 0 where
  with_relay_interval : ℕ → RelayOption
  with_batch_size : ℕ → RelayOption

unfoldable pub apply_option : RelayOption → RelayOptions → RelayOptions
apply_option (with_relay_interval d) o = record o { interval = d }
apply_option (with_batch_size n) o = record o { batch_size = n }

-- The options of `NewRelay`.
unfoldable pub new_options : List RelayOption → RelayOptions → RelayOptions
unfolding apply_option
new_options [] o = o
new_options (opt ∷ opts) o = new_options opts (apply_option opt o)

unfoldable pub is_open : Option ℕ → Bool
is_open none = true
is_open (some t) = false

module _ {T P : Type 0} where
  -- The WHERE clause, and SKIP LOCKED.
  unfoldable pub select_open : (ℕ → Bool) → List (Row T P) → List (Row T P)
  unfolding is_open
  select_open locked [] = []
  select_open locked (r ∷ rows) =
      let rest = select_open locked rows in
      if is_open r.published_at && not (locked r.event.id) then r ∷ rest else rest

  unfoldable pub insert_by_creation : Row T P → List (Row T P) → List (Row T P)
  insert_by_creation r [] = r ∷ []
  insert_by_creation r (q ∷ rows) =
      let rest = insert_by_creation r rows in
      if leb r.created_at q.created_at then r ∷ q ∷ rows else q ∷ rest

  -- ORDER BY created_at
  unfoldable pub by_creation : List (Row T P) → List (Row T P)
  unfolding insert_by_creation
  by_creation [] = []
  by_creation (r ∷ rows) = insert_by_creation r (by_creation rows)

  -- The events that the SELECT returns.
  unfoldable pub batch_of : ℕ → (ℕ → Bool) → List (Row T P) → List (Event T P)
  unfolding select_open by_creation
  batch_of batch_size locked rows =
      map (λ (r : Row T P). r.event) (take batch_size (by_creation (select_open locked rows)))

-- The branch that the select of `run` takes, in turn; a tick comes with the time and the locks.
pub data Signal : Type 0 where
  stopped : Signal
  context_done : Signal
  ticked : ℕ → (ℕ → Bool) → Signal

-- The errors that the callback has got.
abbrev pub report : {E : Type 0} → Option E → List E → List E
report none errs = errs
report (some e) errs = e ∷ errs

module _ {T P W E : Type 0} (publish : T → P → W → Option E × W) (batch_size : ℕ) where
  -- A whole cycle of `relay`, whose database does not fail.
  unfoldable pub relay_cycle : ℕ → (ℕ → Bool) → List (Row T P) × W → Option E × (List (Row T P) × W)
  unfolding relay batch_of
  relay_cycle now locked (rows, w) = relay publish now (batch_of batch_size locked rows) (rows, w)

  -- `run`: the errors reported, the last first, with the table and the world.
  unfoldable pub run : List Signal → List E → List (Row T P) × W → List E × (List (Row T P) × W)
  unfolding relay_cycle
  run [] errs s = (errs, s)
  run (stopped ∷ signals) errs s = (errs, s)
  run (context_done ∷ signals) errs s = (errs, s)
  run (ticked now locked ∷ signals) errs s =
      let (err, s') = relay_cycle now locked s in run signals (report err errs) s'
