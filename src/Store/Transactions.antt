-- ===== src/Store/Transactions.antt =====
-- That a transaction takes effect whole or not at all (pkg/store/store.go).
use gkit_go.Prelude.{ℕ, ◌+◌, ◌-◌, ◌≡◌, refl, ◌∙◌, Option, none, some, arith, ap, sym}
use gkit_go.Store.{
  Driver, Ending, returned, failed, begin_failed, commit_failed, panicked, Context, plain, in_tx,
  with_tx, finish,
}

-- What a database promises: `visible` is what other connections see, `working` what the
-- transaction of this one sees, and `open_txs` how many transactions are open. A transaction is
-- open from its begin to its commit, whether that fails or not, or to its rollback.
pub record IsDatabase {W E D : Type 0} (driver : Driver W E) (visible working : W → D)
    (open_txs : W → ℕ) : Type 0 where
  pub begin-visible : (w : W) → visible (driver.begin w).1 ≡ visible w
  pub begin-working : (w : W) → (driver.begin w).0 ≡ none → working (driver.begin w).1 ≡ visible w
  pub commit-visible :
      (w : W) → (driver.commit w).0 ≡ none → visible (driver.commit w).1 ≡ working w
  pub commit_failed-visible :
      (w : W) (e : E) → (driver.commit w).0 ≡ some e → visible (driver.commit w).1 ≡ visible w
  pub rollback-visible : (w : W) → visible (driver.rollback w).1 ≡ visible w
  pub begin-open :
      (w : W) → (driver.begin w).0 ≡ none → open_txs (driver.begin w).1 ≡ open_txs w + 1
  pub begin_failed-open :
      (w : W) (e : E) → (driver.begin w).0 ≡ some e → open_txs (driver.begin w).1 ≡ open_txs w
  pub commit-open : (w : W) → open_txs (driver.commit w).1 ≡ open_txs w - 1
  pub rollback-open : (w : W) → open_txs (driver.rollback w).1 ≡ open_txs w - 1

module _ {W E P D : Type 0} (driver : Driver W E) (visible working : W → D) (open_txs : W → ℕ)
    (fn : Context → W → Ending E P × W) where
  -- The function runs its statements in the transaction only, and neither begins nor ends one.
  abbrev pub IsIsolated : Type 0
  IsIsolated =
      (w : W) → (visible (fn in_tx w).1 ≡ visible w) × (open_txs (fn in_tx w).1 ≡ open_txs w)

  -- How `WithTx` ends, from a world: with nil and the function's work visible to all, or otherwise
  -- with what was visible before.
  abbrev pub IsAtomic : W → Ending E P × W → Type 0
  IsAtomic w (returned, w') =
      (w₀ : W) × ((working w₀ ≡ visible w)
        × (((fn in_tx w₀).0 ≡ returned) × (visible w' ≡ working (fn in_tx w₀).1)))
  IsAtomic w (failed e, w') = visible w' ≡ visible w
  IsAtomic w (begin_failed e, w') = visible w' ≡ visible w
  IsAtomic w (commit_failed e, w') = visible w' ≡ visible w
  IsAtomic w (panicked p, w') = visible w' ≡ visible w

  module _ (db : IsDatabase driver visible working open_txs) (isolated : IsIsolated) where
    unseen :
        (w w₀ : W) (r : Ending E P × W)
        → visible w₀ ≡ visible w
        → fn in_tx w₀ ≡ r
        → visible r.1 ≡ visible w
    unseen w w₀ r p eq = ap (λ (s : Ending E P × W). visible s.1) (sym eq) ∙ (isolated w₀).0 ∙ p

    committed :
        (w w₀ v : W) (c : Option E × W)
        → visible v ≡ visible w
        → working w₀ ≡ visible w
        → fn in_tx w₀ ≡ (returned, v)
        → driver.commit v ≡ c
        → IsAtomic w (finish driver (returned, v))
    unfolding finish
    committed w w₀ v (none, v') unseen q eq c =
        let seen = db.commit-visible v (ground (arith, c)) in
        rw (c, finish) (w₀, (q, (ground (arith, eq), ground (arith, eq, c, seen))))
    committed w w₀ v (some e, v') unseen q eq c =
        let seen = db.commit_failed-visible v e (ground (arith, c)) in
        rw (c, finish) (ground (arith, c, seen, unseen))

    finish-IsAtomic :
        (w w₀ : W) (r : Ending E P × W)
        → visible w₀ ≡ visible w
        → working w₀ ≡ visible w
        → fn in_tx w₀ ≡ r
        → IsAtomic w (finish driver r)
    unfolding finish
    finish-IsAtomic w w₀ (returned, v) p q eq =
        committed w w₀ v (driver.commit v) (unseen w w₀ (returned, v) p eq) q eq refl
    finish-IsAtomic w w₀ (failed e, v) p q eq =
        db.rollback-visible v ∙ unseen w w₀ (failed e, v) p eq
    finish-IsAtomic w w₀ (begin_failed e, v) p q eq =
        db.rollback-visible v ∙ unseen w w₀ (begin_failed e, v) p eq
    finish-IsAtomic w w₀ (commit_failed e, v) p q eq =
        db.rollback-visible v ∙ unseen w w₀ (commit_failed e, v) p eq
    finish-IsAtomic w w₀ (panicked x, v) p q eq =
        db.rollback-visible v ∙ unseen w w₀ (panicked x, v) p eq

    with_tx-begun :
        (w w₀ : W)
        → driver.begin w ≡ (none, w₀)
        → with_tx driver plain fn w ≡ finish driver (fn in_tx w₀)
    unfolding with_tx
    with_tx-begun w w₀ p = ground (arith, p)

    finish-open :
        (w₀ : W) (r : Ending E P × W)
        → fn in_tx w₀ ≡ r
        → open_txs (finish driver r).1 ≡ open_txs w₀ - 1
    unfolding finish
    finish-open w₀ (returned, v) eq = ground (arith, eq, isolated w₀, db.commit-open v)
    finish-open w₀ (failed e, v) eq = ground (arith, eq, isolated w₀, db.rollback-open v)
    finish-open w₀ (begin_failed e, v) eq = ground (arith, eq, isolated w₀, db.rollback-open v)
    finish-open w₀ (commit_failed e, v) eq = ground (arith, eq, isolated w₀, db.rollback-open v)
    finish-open w₀ (panicked x, v) eq = ground (arith, eq, isolated w₀, db.rollback-open v)

    with_tx-open : (w : W) → open_txs (with_tx driver plain fn w).1 ≡ open_txs w
    unfolding with_tx
    with_tx-open w = begun (driver.begin w) refl
      where
        begun :
            (b : Option E × W)
            → driver.begin w ≡ b
            → open_txs (with_tx driver plain fn w).1 ≡ open_txs w
        begun (none, w₀) p =
            let n : open_txs w₀ ≡ open_txs w + 1 =
              ap (λ (s : Option E × W). open_txs s.1) (sym p)
              ∙ db.begin-open w (ap (λ (s : Option E × W). s.0) p) in
            rw (with_tx-begun w w₀ p) (omega (arith, finish-open w₀ (fn in_tx w₀) refl, n))
        begun (some e, w₀) p =
            rw (p, with_tx) (db.begin_failed-open w e (ap (λ (s : Option E × W). s.0) p))

    ends-IsAtomic : (w : W) → IsAtomic w (with_tx driver plain fn w)
    unfolding with_tx
    ends-IsAtomic w = begun (driver.begin w) refl
      where
        begun : (b : Option E × W) → driver.begin w ≡ b → IsAtomic w (with_tx driver plain fn w)
        begun (none, w₀) p = rw (with_tx-begun w w₀ p) (
            finish-IsAtomic w w₀ (fn in_tx w₀)
              (ap (λ (s : Option E × W). visible s.1) (sym p) ∙ db.begin-visible w)
              (ap (λ (s : Option E × W). working s.1) (sym p)
                ∙ db.begin-working w (ground (arith, p)))
              refl)
        begun (some e, w₀) p = rw (p, with_tx) (db.begin-visible w)

    -- On a database whose commit makes the work of a transaction visible, whose rollback and failed
    -- commit do not, and whose transaction is open until one of these, with a function that runs its
    -- statements in the transaction only and does not end it: if `WithTx` on a plain context returns
    -- nil, then the function returned nil and its work, done on what was visible before, is visible
    -- now; if it returns an error or panics, what is visible is as before; and however it ends, no
    -- more transactions are open than before.
    pub with_tx-IsAtomic :
        (w : W)
        → IsAtomic w (with_tx driver plain fn w)
          × (open_txs (with_tx driver plain fn w).1 ≡ open_txs w)
    with_tx-IsAtomic w = (ends-IsAtomic w, with_tx-open w)
