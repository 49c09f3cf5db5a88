-- ===== src/Outbox/Delivery.antt =====
-- That no event is marked as published that was not (pkg/outbox/outbox.go).
use gkit_go.Prelude.{
  ℕ, Any, ◌≡◌, ◌⊎◌, refl, true, Option, none, some, List, [], ◌∷◌, map, inl, inr, arith, Bool-cases,
  ◌==◌,
}
use gkit_go.Outbox.{Event, Row, is_any, mark_published, publish_all, relay}

is_any-Any : (ids : List ℕ) (id : ℕ) → is_any ids id ≡ true → Any (λ i. i ≡ id) ids
unfolding is_any
is_any-Any [] id h = cc
is_any-Any (i ∷ ids) id h = elim (Bool-cases (i == id)) [
  | inl p ↦ inl (ground (arith, p))
  | inr p ↦ inr (is_any-Any ids id (ground (arith, p, h)))
]

Any-is_any : (ids : List ℕ) (id : ℕ) → Any (λ i. i ≡ id) ids → is_any ids id ≡ true
unfolding is_any
Any-is_any [] id h = elim h [ ]
Any-is_any (i ∷ ids) id (inl p) = ground arith
Any-is_any (i ∷ ids) id (inr h) = ground (arith, Any-is_any ids id h)

module _ {T P : Type 0} where
  -- The rows with one of the identifiers are published now, and the others as before.
  abbrev pub IsMarked : ℕ → List ℕ → List (Row T P) → List (Row T P) → Type 0
  IsMarked now ids [] [] = Unit
  IsMarked now ids [] (r' ∷ rows') = ⊥
  IsMarked now ids (r ∷ rows) [] = ⊥
  IsMarked now ids (r ∷ rows) (r' ∷ rows') =
      ((Any (λ i. i ≡ r.event.id) ids × (r' ≡ record r { published_at = some now }))
        ⊎ ((Any (λ i. i ≡ r.event.id) ids → ⊥) × (r' ≡ r)))
      × IsMarked now ids rows rows'

  unmarked-IsMarked : (now : ℕ) (rows : List (Row T P)) → IsMarked now [] rows rows
  unmarked-IsMarked now [] = tt
  unmarked-IsMarked now (r ∷ rows) = (inr ((λ h. h), refl), unmarked-IsMarked now rows)

  mark_published-IsMarked :
      (now : ℕ) (ids : List ℕ) (rows : List (Row T P))
      → IsMarked now ids rows (mark_published now ids rows)
  unfolding mark_published
  mark_published-IsMarked now ids [] = tt
  mark_published-IsMarked now ids (r ∷ rows) = elim (Bool-cases (is_any ids r.event.id)) [
    | inl p ↦ rw (p) (inl (is_any-Any ids r.event.id p, refl), mark_published-IsMarked now ids rows)
    | inr p ↦ rw (p) (
      inr ((λ h. absurd (ground (arith, p, Any-is_any ids r.event.id h))), refl),
      mark_published-IsMarked now ids rows,
    )
  ]

module _ {T P W E : Type 0} (publish : T → P → W → Option E × W) where
  -- The publisher has taken the events, one after the other, without an error.
  abbrev pub IsDelivered : List (Event T P) → W → W → Type 0
  IsDelivered [] w w' = w ≡ w'
  IsDelivered (e ∷ events) w w' =
      (v : W) × ((publish e.topic e.payload w ≡ (none, v)) × IsDelivered events v w')

  -- How a relay cycle ends: with an error and the rows as they were, or with every event of the
  -- batch delivered and the rows of just these events marked.
  abbrev pub IsRelayed :
      ℕ → List (Event T P) → List (Row T P) → W → Option E × (List (Row T P) × W) → Type 0
  IsRelayed now events rows w (some x, (rows', w')) = rows' ≡ rows
  IsRelayed now events rows w (none, (rows', w')) =
      IsDelivered events w w' × IsMarked now (map (λ (x : Event T P). x.id) events) rows rows'

  publish_all-IsDelivered :
      (events : List (Event T P)) (w w' : W)
      → publish_all publish events w ≡ (none, w')
      → IsDelivered events w w'
  unfolding publish_all
  publish_all-IsDelivered [] w w' h = ground (arith, h)
  publish_all-IsDelivered (e ∷ events) w w' h =
      sent (publish e.topic e.payload w) refl (λ v. publish_all-IsDelivered events v w')
    where
      sent :
          (r : Option E × W)
          → publish e.topic e.payload w ≡ r
          → ((v : W) → publish_all publish events v ≡ (none, w') → IsDelivered events v w')
          → IsDelivered (e ∷ events) w w'
      sent (none, v) p next = (v, (p, next v (ground (arith, p, h))))
      sent (some x, v) p next = absurd (ground (arith, p, h))

  -- A cycle of the relay ends with an error and the rows as they were, or with every event of its
  -- batch taken by the publisher, in order and without an error, and exactly their rows marked as
  -- published.
  relay-IsRelayed :
      (now : ℕ) (events : List (Event T P)) (rows : List (Row T P)) (w : W)
      → IsRelayed now events rows w (relay publish now events (rows, w))
  unfolding relay
  relay-IsRelayed now [] rows w = (refl, unmarked-IsMarked now rows)
  relay-IsRelayed now (e ∷ events) rows w = published (publish_all publish (e ∷ events) w) refl
    where
      published :
          (r : Option E × W)
          → publish_all publish (e ∷ events) w ≡ r
          → IsRelayed now (e ∷ events) rows w (relay publish now (e ∷ events) (rows, w))
      published (none, w') p =
          rw (p, relay)
            (
              publish_all-IsDelivered (e ∷ events) w (publish_all publish (e ∷ events) w).1
                  (ground (arith, p)),
              mark_published-IsMarked now (map (λ (x : Event T P). x.id) (e ∷ events)) rows,
            )
      published (some x, w') p = rw (p, relay) refl
