-- ===== src/Store.antt =====
-- Transactions, pkg/store/store.go, and the scheme of a DSN, pkg/store/migrate.go. The driver is the
-- parameter `Driver`; the function that runs in a transaction acts on the world `W`.
pub mod Migrations
pub mod Opening
pub mod Spans
pub mod Transactions
mod Tests
use gkit_go.Bytes.{Text, after_prefix}
use gkit_go.Prelude.{
  ℕ, Bool, true, false, Option, none, some, List, [], ◌∷◌, length, ltb, ◌==◌, ◌&&◌, if◌then◌else◌,
}

-- `BeginTx`, `Commit` and `Rollback` of the driver, each with its error, if any.
pub record Driver (W E : Type 0) : Type 0 where
  pub begin : W → Option E × W
  pub commit : W → Option E × W
  pub rollback : W → Option E × W

-- How the function of a transaction, or `WithTx`, ends.
pub data Ending (E P : Type 0) : Type 0 where
  returned : Ending E P  -- nil
  failed : E → Ending E P
  begin_failed : E → Ending E P
  commit_failed : E → Ending E P
  panicked : P → Ending E P

-- A context, by whether it holds a transaction.
pub data Context : Type 0 where
  plain : Context
  in_tx : Context

module _ {W E P : Type 0} (driver : Driver W E) where
  -- What `WithTx` does once the function has ended, in a transaction that it has begun.
  unfoldable pub finish : Ending E P × W → Ending E P × W
  finish (panicked p, w) = (panicked p, (driver.rollback w).1)
  finish (failed e, w) = (failed e, (driver.rollback w).1)
  finish (begin_failed e, w) = (begin_failed e, (driver.rollback w).1)
  finish (commit_failed e, w) = (commit_failed e, (driver.rollback w).1)
  finish (returned, w) =
      let (err, w') = driver.commit w in
      elim err [ none ↦ (returned, w') | some e ↦ (commit_failed e, w') ]

  -- `WithTx`
  unfoldable pub with_tx : Context → (Context → W → Ending E P × W) → W → Ending E P × W
  unfolding finish
  with_tx in_tx fn w = fn in_tx w
  with_tx plain fn w =
      let (err, w') = driver.begin w in
      elim err [ some e ↦ (begin_failed e, w') | none ↦ finish (fn in_tx w') ]

-- Two functions of a transaction, the second only after the first has returned nil.
unfoldable pub and_then :
    {W E P : Type 0}
    → (Context → W → Ending E P × W)
    → (Context → W → Ending E P × W)
    → Context
    → W
    → Ending E P × W
and_then first second ctx w =
    let (ending, w') = first ctx w in elim ending [ returned ↦ second ctx w' | other ↦ (other, w') ]

-- The loop of `stripScheme` over its prefixes.
unfoldable pub strip_prefixes : List Text → Text → Text
unfolding after_prefix
strip_prefixes [] dsn = dsn
strip_prefixes (prefix ∷ prefixes) dsn =
    let rest = strip_prefixes prefixes dsn in
    if ltb (length prefix) (length dsn)
    then elim (after_prefix prefix dsn) [ some s ↦ s | none ↦ rest ]
    else rest
