-- ===== src/EventStore/Appending.antt =====
-- That the versions of a stream have no gap and none stands twice (pkg/eventstore/eventstore.go).
use gkit_go.Prelude.{
  ℕ, suc, ◌+◌, ap, ◌∙◌, ◌⊎◌, length, ◌≤◌, ◌<◌, ◌≡◌, refl, true, Option, none, some, List, [], ◌∷◌,
  inl, inr, arith, Option-cases, Bool-cases, ltb,
}
use gkit_go.EventStore.{
  EventData, Event, Expected, Result, Error, version_conflict, ok, failed, marshal_failed,
  insert_failed, admits, next_version, is_taken, insert, insert_all, append,
}

module _ {K J : Type 0} (dec : Discrete K) where
  -- Every row was inserted at the next version of its stream.
  abbrev pub IsLog : List (Event K J) → Type 0
  IsLog [] = Unit
  IsLog (e ∷ rows) = (e.version ≡ next_version dec rows e.stream) × IsLog rows

  -- The versions taken are those below the next one.
  is_taken-IsLog :
      (rows : List (Event K J)) (k : K) (v : ℕ)
      → IsLog rows
      → is_taken dec rows k v ≡ ltb v (next_version dec rows k)
  unfolding is_taken next_version
  is_taken-IsLog [] k v h = ground arith
  is_taken-IsLog (e ∷ rows) k v h = elim (dec e.stream k) [
    | yes p ↦ ground (arith, is_taken-IsLog rows k v h.1, ap (next_version dec rows) p)
    | no p ↦ ground (arith, is_taken-IsLog rows k v h.1)
  ]

  insert-cases :
      (e : Event K J) (rows : List (Event K J))
      → IsLog rows
      → e.version ≤ next_version dec rows e.stream
      → ((insert dec e rows ≡ none) × (e.version < next_version dec rows e.stream))
        ⊎ ((insert dec e rows ≡ some (e ∷ rows)) × (e.version ≡ next_version dec rows e.stream))
  unfolding insert
  insert-cases e rows h le = elim (Bool-cases (ltb e.version (next_version dec rows e.stream))) [
    | inl p ↦ inl (ground (arith, p, is_taken-IsLog rows e.stream e.version h))
    | inr p ↦ inr (ground (arith, p, le, is_taken-IsLog rows e.stream e.version h))
  ]

  pub next_version-inserted :
      (e : Event K J) (rows : List (Event K J))
      → e.version ≡ next_version dec rows e.stream
      → next_version dec (e ∷ rows) e.stream ≡ next_version dec rows e.stream + 1
  unfolding next_version
  next_version-inserted e rows p = ground arith

  pub next_version-others :
      (e : Event K J) (rows : List (Event K J)) (j : K)
      → (e.stream ≡ j → ⊥)
      → next_version dec (e ∷ rows) j ≡ next_version dec rows j
  unfolding next_version
  next_version-others e rows j p = ground arith

  -- What a successful append leaves: no gap, `n` more events in its stream, the others as before.
  abbrev pub IsExtended : K → ℕ → List (Event K J) → Result (List (Event K J)) → Type 0
  IsExtended k n rows (failed e) = Unit
  IsExtended k n rows (ok rows') =
      IsLog rows'
      × ((next_version dec rows' k ≡ next_version dec rows k + n)
          × ((j : K) → (k ≡ j → ⊥) → next_version dec rows' j ≡ next_version dec rows j))

  extend_one :
      (e : Event K J) (rows : List (Event K J)) (n : ℕ) (r : Result (List (Event K J)))
      → e.version ≡ next_version dec rows e.stream
      → IsExtended e.stream n (e ∷ rows) r
      → IsExtended e.stream (suc n) rows r
  extend_one e rows n (failed _) p h = tt
  extend_one e rows n (ok rows') p h = (
    h.0,
    (
      omega (arith, h.1.0, next_version-inserted e rows p),
      λ j other. h.1.1 j other ∙ next_version-others e rows j other,
    ),
  )

  module _ {D : Type 0} (marshal : D → Option J) where
    insert_all-IsExtended :
        (k : K) (eds : List (EventData D)) (next : ℕ) (rows : List (Event K J))
        → IsLog rows
        → next ≤ next_version dec rows k
        → IsExtended k (length eds) rows (insert_all dec marshal k eds next rows)
    unfolding insert_all
    insert_all-IsExtended k [] next rows h le = (h, (omega arith, λ j other. refl))
    insert_all-IsExtended k (ed ∷ eds) next rows h le = elim (Option-cases (marshal ed.data_of)) [
      | inl p ↦ rw (p, insert_all) tt
      | inr (j, p) ↦
          let e : Event K J = record {
            stream = k;
            version = next;
            event_type = ed.event_type;
            json = j;
          } in
          elim (insert-cases e rows h le) [
            | inl (q, _) ↦ rw (p, q, insert_all) tt
            | inr (q, new) ↦
                rw (p, q, insert_all)
                  (extend_one e rows (length eds)
                    (insert_all dec marshal k eds (next + 1) (e ∷ rows)) new
                    (insert_all-IsExtended k eds (next + 1) (e ∷ rows) (new, h)
                      (omega (arith, new, next_version-inserted e rows new))))
          ]
    ]

    -- An append to a table whose versions have no gap fails or leaves one whose versions have no
    -- gap, with as many more events in its stream as it was given and the other streams as they
    -- were, also where other appends to the stream have come between its read and its inserts.
    pub append-IsExtended :
        (k : K) (eds : List (EventData D)) (expected : Expected) (seen rows : List (Event K J))
        → IsLog rows
        → next_version dec seen k ≤ next_version dec rows k
        → IsExtended k (length eds) rows (append dec marshal k eds expected seen rows)
    unfolding append
    append-IsExtended k [] expected seen rows h le = (h, (omega arith, λ j other. refl))
    append-IsExtended k (ed ∷ eds) expected seen rows h le =
        elim (Bool-cases (admits expected (next_version dec seen k))) [
          | inl p ↦ rw (p) (insert_all-IsExtended k (ed ∷ eds) (next_version dec seen k) rows h le)
          | inr p ↦ rw (p) tt
        ]

    -- Where another append to the stream has come between the read and the inserts, an append of
    -- at least one event fails.
    pub append-stale :
        (k : K) (ed : EventData D) (eds : List (EventData D)) (expected : Expected)
        (seen rows : List (Event K J))
        → IsLog rows
        → next_version dec seen k < next_version dec rows k
        → (e : Error) × (append dec marshal k (ed ∷ eds) expected seen rows ≡ failed e)
    unfolding append insert_all
    append-stale k ed eds expected seen rows h less =
        elim (Bool-cases (admits expected (next_version dec seen k))) [
          | inr p ↦ (version_conflict, ground (arith, p))
          | inl p ↦ elim (Option-cases (marshal ed.data_of)) [
            | inl q ↦ (marshal_failed, ground (arith, p, q))
            | inr (j, q) ↦
                let e : Event K J = record {
                  stream = k;
                  version = next_version dec seen k;
                  event_type = ed.event_type;
                  json = j;
                } in
                elim (insert-cases e rows h (omega arith)) [
                  | inl (r, _) ↦ (insert_failed, rw (p, q, r, insert_all) refl)
                  | inr (_, new) ↦ absurd (omega (arith, new, less))
                ]
          ]
        ]

    insert_all-ok :
        (k : K) (eds : List (EventData D)) (next : ℕ) (rows : List (Event K J))
        → ((d : D) → (j : J) × (marshal d ≡ some j))
        → IsLog rows
        → next ≡ next_version dec rows k
        → (rows' : List (Event K J)) × (insert_all dec marshal k eds next rows ≡ ok rows')
    unfolding insert_all
    insert_all-ok k [] next rows total h p = (rows, refl)
    insert_all-ok k (ed ∷ eds) next rows total h p =
        let (j, q) = total ed.data_of in
        let e : Event K J = record {
          stream = k;
          version = next;
          event_type = ed.event_type;
          json = j;
        } in
        elim (insert-cases e rows h (omega arith)) [
          | inl (_, less) ↦ absurd (omega (arith, less, p))
          | inr (r, new) ↦
              rw (q, r, insert_all)
                (insert_all-ok k eds (next + 1) (e ∷ rows) total (new, h)
                  (omega (arith, new, next_version-inserted e rows new)))
        ]

    -- An append whose expectation the stream meets, of events that all have a JSON form and with no
    -- other append in between, succeeds.
    append-ok :
        (k : K) (eds : List (EventData D)) (expected : Expected) (rows : List (Event K J))
        → ((d : D) → (j : J) × (marshal d ≡ some j))
        → IsLog rows
        → admits expected (next_version dec rows k) ≡ true
        → (rows' : List (Event K J)) × (append dec marshal k eds expected rows rows ≡ ok rows')
    unfolding append
    append-ok k [] expected rows total h p = (rows, refl)
    append-ok k (ed ∷ eds) expected rows total h p =
        rw (p) (insert_all-ok k (ed ∷ eds) (next_version dec rows k) rows total h refl)
