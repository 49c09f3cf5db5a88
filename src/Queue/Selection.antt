-- ===== src/Queue/Selection.antt =====
-- The jobs that a poll of the job queue selects (pkg/queue/queue.go).
use gkit_go.Prelude.{
  ℕ, zero, suc, ◌≡◌, ◌≢◌, refl, sym, ap, subst, ◌∙◌, Bool, true, false, List, [], ◌∷◌, map, take,
  arith, All, Any, inl, inr, leb, ◌==◌, if◌then◌else◌,
}
use gkit_go.Queue.{Job, Row, Status, pending, done, failed, dead, Update, set, set_where}
use gkit_go.Queue.Accounting.{IsDistinct, IsLocked, set-id}
use gkit_go.Queue.Polling.{is_pending, is_due, select_due, insert_by_time, by_time}

-- What holds of both branches.
on_branches :
    {A : Type 0} (Q : A → Type 0) (b : Bool) (x y : A) → Q x → Q y → Q (if b then x else y)
on_branches Q true x y hx hy = hx
on_branches Q false x y hx hy = hy

is_pending-pending : (t : Status) → is_pending t ≡ true → t ≡ pending
unfolding is_pending
is_pending-pending pending e = refl
is_pending-pending done e = absurd (ground (arith, e))
is_pending-pending failed e = absurd (ground (arith, e))
is_pending-pending dead e = absurd (ground (arith, e))

module _ {P E : Type 0} where
  -- No id stands twice.
  abbrev pub IsUnique : List (Row P E) → Type 0
  IsUnique [] = Unit
  IsUnique (r ∷ rows) = All (λ (q : Row P E). q.job.id ≢ r.job.id) rows × IsUnique rows

  abbrev Other : ℕ → List (Row P E) → Type 0
  Other id rows = All (λ (q : Row P E). q.job.id ≢ id) rows

  module _ (R : Row P E → Type 0) where
    insert_by_time-All :
        (r : Row P E) (rows : List (Row P E)) → R r → All R rows → All R (insert_by_time r rows)
    unfolding insert_by_time
    insert_by_time-All r [] x h = (x, tt)
    insert_by_time-All r (q ∷ rows) x h =
        on_branches (All R) (leb r.run_at q.run_at) (r ∷ q ∷ rows) (q ∷ insert_by_time r rows)
          (x, h) (h.0, insert_by_time-All r rows x h.1)

    pub by_time-All : (rows : List (Row P E)) → All R rows → All R (by_time rows)
    unfolding by_time
    by_time-All [] h = tt
    by_time-All (r ∷ rows) h = insert_by_time-All r (by_time rows) h.0 (by_time-All rows h.1)

    pub take-All : (n : ℕ) (rows : List (Row P E)) → All R rows → All R (take n rows)
    take-All zero rows h = tt
    take-All (suc n) [] h = tt
    take-All (suc n) (r ∷ rows) h = (h.0, take-All n rows h.1)

    select_due-All :
        (locked : ℕ → Bool) (now : ℕ) (rows : List (Row P E))
        → All R rows
        → All R (select_due locked now rows)
    unfolding select_due
    select_due-All locked now [] h = tt
    select_due-All locked now (r ∷ rows) h =
        let rest = select_due-All locked now rows h.1 in
        on_branches (All R) (is_due locked now r) (r ∷ select_due locked now rows)
          (select_due locked now rows) (h.0, rest) rest

  insert_by_time-IsUnique :
      (r : Row P E) (rows : List (Row P E))
      → Other r.job.id rows
      → IsUnique rows
      → IsUnique (insert_by_time r rows)
  unfolding insert_by_time
  insert_by_time-IsUnique r [] x h = (tt, tt)
  insert_by_time-IsUnique r (q ∷ rows) x h =
      on_branches IsUnique (leb r.run_at q.run_at) (r ∷ q ∷ rows) (q ∷ insert_by_time r rows) (x, h)
        (
          insert_by_time-All (λ (p : Row P E). p.job.id ≢ q.job.id) r rows (λ e. x.0 (sym e)) h.0,
          insert_by_time-IsUnique r rows x.1 h.1,
        )

  pub by_time-IsUnique : (rows : List (Row P E)) → IsUnique rows → IsUnique (by_time rows)
  unfolding by_time
  by_time-IsUnique [] h = tt
  by_time-IsUnique (r ∷ rows) h =
      insert_by_time-IsUnique r (by_time rows)
        (by_time-All (λ (p : Row P E). p.job.id ≢ r.job.id) rows h.0) (by_time-IsUnique rows h.1)

  pub select_due-IsUnique :
      (locked : ℕ → Bool) (now : ℕ) (rows : List (Row P E))
      → IsUnique rows
      → IsUnique (select_due locked now rows)
  unfolding select_due
  select_due-IsUnique locked now [] h = tt
  select_due-IsUnique locked now (r ∷ rows) h =
      let rest = select_due-IsUnique locked now rows h.1 in
      on_branches IsUnique (is_due locked now r) (r ∷ select_due locked now rows)
        (select_due locked now rows)
        (select_due-All (λ (p : Row P E). p.job.id ≢ r.job.id) locked now rows h.0, rest) rest

  map-All :
      (id : ℕ) (rows : List (Row P E))
      → Other id rows
      → All (λ (k : Job P). k.id ≢ id) (map (λ (r : Row P E). r.job) rows)
  map-All id [] h = tt
  map-All id (r ∷ rows) h = (h.0, map-All id rows h.1)

  pub take-IsDistinct :
      (n : ℕ) (rows : List (Row P E))
      → IsUnique rows
      → IsDistinct (map (λ (r : Row P E). r.job) (take n rows))
  take-IsDistinct zero rows h = tt
  take-IsDistinct (suc n) [] h = tt
  take-IsDistinct (suc n) (r ∷ rows) h = (
    map-All r.job.id (take n rows) (take-All (λ (p : Row P E). p.job.id ≢ r.job.id) n rows h.0),
    take-IsDistinct n rows h.1,
  )

  -- A pending row of the table.
  abbrev pub Stands : List (Row P E) → Row P E → Type 0
  Stands rows r = Any (λ (q : Row P E). q ≡ r) rows × (r.status ≡ pending)

  Other-IsLocked : (job : Job P) (rows : List (Row P E)) → Other job.id rows → IsLocked rows job
  Other-IsLocked job [] h = tt
  Other-IsLocked job (r ∷ rows) h = ((λ e. absurd (h.0 e)), Other-IsLocked job rows h.1)

  Other-Any :
      (r : Row P E) (rows : List (Row P E)) (id : ℕ)
      → Other id rows
      → Any (λ (q : Row P E). q ≡ r) rows
      → r.job.id ≢ id
  Other-Any r [] id h a = elim a [ ]
  Other-Any r (q ∷ rows) id h (inl e) = subst (λ (p : Row P E). p.job.id ≢ id) e h.0
  Other-Any r (q ∷ rows) id h (inr a) = Other-Any r rows id h.1 a

  Stands-IsLocked :
      (r : Row P E) (rows : List (Row P E)) → IsUnique rows → Stands rows r → IsLocked rows r.job
  Stands-IsLocked r [] h (a, p) = elim a [ ]
  Stands-IsLocked r (q ∷ rows) h (inl e, p) = (
    (λ i. (ap (λ (x : Row P E). x.job) e, ap (λ (x : Row P E). x.status) e ∙ p)),
    Other-IsLocked r.job rows (subst (λ (x : Row P E). Other x.job.id rows) e h.0),
  )
  Stands-IsLocked r (q ∷ rows) h (inr a, p) =
      ((λ i. absurd (Other-Any r rows q.job.id h.0 a (sym i))), Stands-IsLocked r rows h.1 (a, p))

  Stands-cons :
      (q : Row P E) (rows found : List (Row P E))
      → All (Stands rows) found
      → All (Stands (q ∷ rows)) found
  Stands-cons q rows [] h = tt
  Stands-cons q rows (r ∷ found) h = ((inr h.0.0, h.0.1), Stands-cons q rows found h.1)

  pub select_due-Stands :
      (locked : ℕ → Bool) (now : ℕ) (rows : List (Row P E))
      → All (Stands rows) (select_due locked now rows)
  unfolding select_due is_due
  select_due-Stands locked now [] = tt
  select_due-Stands locked now (r ∷ rows) =
      chosen (is_pending r.status) refl
        (Stands-cons r rows (select_due locked now rows) (select_due-Stands locked now rows))
    where
      chosen :
          (b : Bool)
          → is_pending r.status ≡ b
          → All (Stands (r ∷ rows)) (select_due locked now rows)
          → All (Stands (r ∷ rows)) (select_due locked now (r ∷ rows))
      chosen true e rest =
          on_branches (All (Stands (r ∷ rows))) (is_due locked now r)
            (r ∷ select_due locked now rows) (select_due locked now rows)
            ((inl refl, is_pending-pending r.status e), rest) rest
      chosen false e rest = rw (e) rest

  pub Stands-jobs :
      (rows found : List (Row P E))
      → IsUnique rows
      → All (Stands rows) found
      → All (IsLocked rows) (map (λ (r : Row P E). r.job) found)
  Stands-jobs rows [] u h = tt
  Stands-jobs rows (r ∷ found) u h = (Stands-IsLocked r rows u h.0, Stands-jobs rows found u h.1)

  set_where-Other :
      (id i : ℕ) (u : Update E) (rows : List (Row P E))
      → Other i rows
      → Other i (set_where id u rows)
  unfolding set_where
  set_where-Other id i u [] h = tt
  set_where-Other id i u (r ∷ rows) h =
      ground (arith, h.0, set-id u r, set_where-Other id i u rows h.1)

  pub set_where-IsUnique :
      (id : ℕ) (u : Update E) (rows : List (Row P E))
      → IsUnique rows
      → IsUnique (set_where id u rows)
  unfolding set_where
  set_where-IsUnique id u [] h = tt
  set_where-IsUnique id u (r ∷ rows) h =
      let rest = set_where-IsUnique id u rows h.1 in
      let others = set_where-Other id r.job.id u rows h.0 in
      on_branches IsUnique (r.job.id == id) (set u r ∷ set_where id u rows)
        (r ∷ set_where id u rows)
        (subst (λ i. Other i (set_where id u rows)) (sym (set-id u r)) others, rest) (others, rest)
