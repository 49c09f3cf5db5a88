-- ===== src/Outbox/Identity.antt =====
-- That a relay keeps the ids of the rows (pkg/outbox/outbox.go).
use gkit_go.Prelude.{
  ℕ, ◌≡◌, ◌≢◌, refl, sym, subst, ◌∙◌, Bool, true, false, Option, none, some, List, [], ◌∷◌, map,
  if◌then◌else◌, All,
}
use gkit_go.Outbox.{Event, Row, is_any, mark_published, publish_all, relay}
use gkit_go.Outbox.Selection.{IsUnique}

module _ {T P : Type 0} where
  marked-id :
      (b : Bool) (now : ℕ) (r : Row T P)
      → (if b then record r { published_at = some now } else r).event.id ≡ r.event.id
  marked-id true now r = refl
  marked-id false now r = refl

  mark_published-others :
      (now : ℕ) (ids : List ℕ) (i : ℕ) (rows : List (Row T P))
      → All (λ (q : Row T P). q.event.id ≢ i) rows
      → All (λ (q : Row T P). q.event.id ≢ i) (mark_published now ids rows)
  unfolding mark_published
  mark_published-others now ids i [] h = tt
  mark_published-others now ids i (r ∷ rows) h = (
    (λ e. h.0 (sym (marked-id (is_any ids r.event.id) now r) ∙ e)),
    mark_published-others now ids i rows h.1,
  )

  mark_published-IsUnique :
      (now : ℕ) (ids : List ℕ) (rows : List (Row T P))
      → IsUnique rows
      → IsUnique (mark_published now ids rows)
  unfolding mark_published
  mark_published-IsUnique now ids [] u = tt
  mark_published-IsUnique now ids (r ∷ rows) u = (
    subst (λ i. All (λ (q : Row T P). q.event.id ≢ i) (mark_published now ids rows))
        (sym (marked-id (is_any ids r.event.id) now r))
        (mark_published-others now ids r.event.id rows u.0),
    mark_published-IsUnique now ids rows u.1,
  )

  pub relay-IsUnique :
      {W E : Type 0} (publish : T → P → W → Option E × W) (now : ℕ) (events : List (Event T P))
      (rows : List (Row T P)) (w : W)
      → IsUnique rows
      → IsUnique (relay publish now events (rows, w)).1.0
  unfolding relay
  relay-IsUnique publish now [] rows w u = u
  relay-IsUnique {W = W} {E = E} publish now (e ∷ events) rows w u =
      published (publish_all publish (e ∷ events) w) refl
    where
      published :
          (r : Option E × W)
          → publish_all publish (e ∷ events) w ≡ r
          → IsUnique (relay publish now (e ∷ events) (rows, w)).1.0
      published (some x, w') q = rw (q, relay) u
      published (none, w') q =
          rw (q, relay)
            (mark_published-IsUnique now (map (λ (x : Event T P). x.id) (e ∷ events)) rows u)
