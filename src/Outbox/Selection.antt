-- ===== src/Outbox/Selection.antt =====
-- The events that the outbox relay selects (pkg/outbox/outbox.go).
use gkit_go.Prelude.{
  ℕ, zero, suc, ◌≡◌, ◌≢◌, refl, sym, Bool, true, false, not, ◌&&◌, List, [], ◌∷◌, map, take, leb,
  if◌then◌else◌, All,
}
use gkit_go.Outbox.{Event, Row}
use gkit_go.Outbox.Polling.{is_open, select_open, insert_by_creation, by_creation, batch_of}

-- What holds of both branches.
on_branches :
    {A : Type 0} (Q : A → Type 0) (b : Bool) (x y : A) → Q x → Q y → Q (if b then x else y)
on_branches Q true x y hx hy = hx
on_branches Q false x y hx hy = hy

module _ {T P : Type 0} where
  -- The row with the id of an event is the event's.
  abbrev pub Matches : List (Row T P) → Event T P → Type 0
  Matches rows e = All (λ (r : Row T P). r.event.id ≡ e.id → r.event ≡ e) rows

  -- No id stands twice.
  abbrev pub IsUnique : List (Row T P) → Type 0
  IsUnique [] = Unit
  IsUnique (r ∷ rows) = All (λ (q : Row T P). q.event.id ≢ r.event.id) rows × IsUnique rows

  module _ (R : Row T P → Type 0) where
    insert-All :
        (r : Row T P) (rows : List (Row T P)) → R r → All R rows → All R (insert_by_creation r rows)
    unfolding insert_by_creation
    insert-All r [] x h = (x, tt)
    insert-All r (q ∷ rows) x h =
        on_branches (All R) (leb r.created_at q.created_at) (r ∷ q ∷ rows)
          (q ∷ insert_by_creation r rows) (x, h) (h.0, insert-All r rows x h.1)

    by_creation-All : (rows : List (Row T P)) → All R rows → All R (by_creation rows)
    unfolding by_creation
    by_creation-All [] h = tt
    by_creation-All (r ∷ rows) h = insert-All r (by_creation rows) h.0 (by_creation-All rows h.1)

    select_open-All :
        (locked : ℕ → Bool) (rows : List (Row T P)) → All R rows → All R (select_open locked rows)
    unfolding select_open
    select_open-All locked [] h = tt
    select_open-All locked (r ∷ rows) h =
        let rest = select_open-All locked rows h.1 in
        on_branches (All R) (is_open r.published_at && not (locked r.event.id))
          (r ∷ select_open locked rows) (select_open locked rows) (h.0, rest) rest

    take-All : (n : ℕ) (rows : List (Row T P)) → All R rows → All R (take n rows)
    take-All zero rows h = tt
    take-All (suc n) [] h = tt
    take-All (suc n) (r ∷ rows) h = (h.0, take-All n rows h.1)

  Matches-others :
      (e : Event T P) (rows : List (Row T P))
      → All (λ (q : Row T P). q.event.id ≢ e.id) rows
      → Matches rows e
  Matches-others e [] h = tt
  Matches-others e (r ∷ rows) h = ((λ i. absurd (h.0 i)), Matches-others e rows h.1)

  -- In a table without a repeated id every row matches.
  all-Match :
      (rows : List (Row T P)) → IsUnique rows → All (λ (r : Row T P). Matches rows r.event) rows
  all-Match [] u = tt
  all-Match (r ∷ rows) u =
      (((λ i. refl), Matches-others r.event rows u.0), widen rows u.0 (all-Match rows u.1))
    where
      widen :
          (found : List (Row T P))
          → All (λ (q : Row T P). q.event.id ≢ r.event.id) found
          → All (λ (q : Row T P). Matches rows q.event) found
          → All (λ (q : Row T P). Matches (r ∷ rows) q.event) found
      widen [] n h = tt
      widen (q ∷ found) n h = (((λ i. absurd (n.0 (sym i))), h.0), widen found n.1 h.1)

  map-Matches :
      (rows found : List (Row T P))
      → All (λ (r : Row T P). Matches rows r.event) found
      → All (Matches rows) (map (λ (r : Row T P). r.event) found)
  map-Matches rows [] h = tt
  map-Matches rows (r ∷ found) h = (h.0, map-Matches rows found h.1)

  pub batch_of-Matches :
      (n : ℕ) (locked : ℕ → Bool) (rows : List (Row T P))
      → IsUnique rows
      → All (Matches rows) (batch_of n locked rows)
  unfolding batch_of
  batch_of-Matches n locked rows u =
      let R : Row T P → Type 0 = λ r. Matches rows r.event in
      map-Matches rows (take n (by_creation (select_open locked rows))) (
        take-All R n (by_creation (select_open locked rows)) (
          by_creation-All R (select_open locked rows)
            (select_open-All R locked rows (all-Match rows u))))
