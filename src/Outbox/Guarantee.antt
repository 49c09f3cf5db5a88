-- ===== src/Outbox/Guarantee.antt =====
-- That an event is marked only after it was published (pkg/outbox/outbox.go).
use gkit_go.Prelude.{
  ℕ, ◌≡◌, refl, sym, subst, ◌∙◌, Bool, true, false, Option, none, some, List, [], ◌∷◌, map, ◌==◌,
  if◌then◌else◌, arith, All, Bool-cases, inl, inr,
}
use gkit_go.Outbox.{Event, Row, is_any, mark_published, publish_all, relay}
use gkit_go.Outbox.Polling.{
  is_open, batch_of, Signal, stopped, context_done, ticked, report, relay_cycle, run,
}
use gkit_go.Outbox.Identity.{relay-IsUnique}
use gkit_go.Outbox.Selection.{IsUnique, Matches, batch_of-Matches}

-- A predicate `Sent` on what was published up to a state of the world: a publish without an error
-- makes it hold of its event, and no publish ends it.
pub record IsPublisher {T P W E : Type 0} (publish : T → P → W → Option E × W)
    (Sent : Event T P → W → Type 0) : Type 0 where
  pub sends : (e : Event T P) (w w' : W) → publish e.topic e.payload w ≡ (none, w') → Sent e w'
  pub stays : (e : Event T P) (t : T) (p : P) (w : W) → Sent e w → Sent e (publish t p w).1

-- Every row that is marked is of an event that was published.
abbrev pub IsSent : {T P W : Type 0} → (Event T P → W → Type 0) → List (Row T P) → W → Type 0
IsSent {T = T} {P = P} Sent rows w =
    All (λ (r : Row T P). is_open r.published_at ≡ false → Sent r.event w) rows

module _ {T P W E : Type 0} (publish : T → P → W → Option E × W) (Sent : Event T P → W → Type 0)
    (publisher : IsPublisher publish Sent) where
  publish_all-stays :
      (events : List (Event T P)) (w : W) (e : Event T P)
      → Sent e w
      → Sent e (publish_all publish events w).1
  unfolding publish_all
  publish_all-stays [] w e h = h
  publish_all-stays (x ∷ events) w e h =
      published (publish x.topic x.payload w) refl (λ w'. publish_all-stays events w' e)
    where
      published :
          (r : Option E × W)
          → publish x.topic x.payload w ≡ r
          → ((w' : W) → Sent e w' → Sent e (publish_all publish events w').1)
          → Sent e (publish_all publish (x ∷ events) w).1
      published (some err, w') q next =
          let same : publish_all publish (x ∷ events) w ≡ (some err, w') = ground (arith, q) in
          subst (λ (r : Option E × W). Sent e r.1) (q ∙ sym same)
            (publisher.stays e x.topic x.payload w h)
      published (none, w') q next =
          let same : publish_all publish (x ∷ events) w ≡ publish_all publish events w' =
            ground (arith, q) in
          subst (λ (r : Option E × W). Sent e r.1) (sym same)
            (next w' (
              subst (λ (r : Option E × W). Sent e r.1) q (publisher.stays e x.topic x.payload w h)))

  publish_all-sends :
      (events : List (Event T P)) (w w' : W)
      → publish_all publish events w ≡ (none, w')
      → All (λ (e : Event T P). Sent e w') events
  unfolding publish_all
  publish_all-sends [] w w' h = tt
  publish_all-sends (x ∷ events) w w' h =
      published (publish x.topic x.payload w) refl (λ v. publish_all-sends events v w')
    where
      published :
          (r : Option E × W)
          → publish x.topic x.payload w ≡ r
          → ((v : W)
              → publish_all publish events v ≡ (none, w')
              → All (λ (e : Event T P). Sent e w') events)
          → All (λ (e : Event T P). Sent e w') (x ∷ events)
      published (some err, v) q next = absurd (ground (arith, h, q))
      published (none, v) q next =
          let rest : publish_all publish events v ≡ (none, w') = ground (arith, h, q) in
          (
            subst (λ (r : Option E × W). Sent x r.1) rest
                (publish_all-stays events v x (publisher.sends x w v q)),
            next v rest,
          )

  IsSent-stays :
      (rows : List (Row T P)) (w w' : W)
      → ((e : Event T P) → Sent e w → Sent e w')
      → IsSent Sent rows w
      → IsSent Sent rows w'
  IsSent-stays [] w w' k h = tt
  IsSent-stays (r ∷ rows) w w' k h = ((λ m. k r.event (h.0 m)), IsSent-stays rows w w' k h.1)

  -- The event of a row whose id is among those of a batch that was published.
  found-Sent :
      (r : Row T P) (rows : List (Row T P)) (events : List (Event T P)) (w : W)
      → All (Matches (r ∷ rows)) events
      → All (λ (e : Event T P). Sent e w) events
      → is_any (map (λ (e : Event T P). e.id) events) r.event.id ≡ true
      → Sent r.event w
  unfolding is_any
  found-Sent r rows [] w m s h = absurd (ground (arith, h))
  found-Sent r rows (e ∷ events) w m s h = elim (Bool-cases (e.id == r.event.id)) [
    | inl p ↦ subst (λ (x : Event T P). Sent x w) (sym (m.0.0 (ground (arith, p)))) s.0
    | inr p ↦ found-Sent r rows events w m.1 s.1 (ground (arith, h, p))
  ]

  tail-Matches :
      (r : Row T P) (rows : List (Row T P)) (events : List (Event T P))
      → All (Matches (r ∷ rows)) events
      → All (Matches rows) events
  tail-Matches r rows [] m = tt
  tail-Matches r rows (e ∷ events) m = (m.0.1, tail-Matches r rows events m.1)

  mark_published-IsSent :
      (now : ℕ) (rows : List (Row T P)) (events : List (Event T P)) (w : W)
      → All (Matches rows) events
      → All (λ (e : Event T P). Sent e w) events
      → IsSent Sent rows w
      → IsSent Sent (mark_published now (map (λ (e : Event T P). e.id) events) rows) w
  unfolding mark_published
  mark_published-IsSent now [] events w m s h = tt
  mark_published-IsSent now (r ∷ rows) events w m s h = (
    marked (is_any (map (λ (e : Event T P). e.id) events) r.event.id) refl,
    mark_published-IsSent now rows events w (tail-Matches r rows events m) s h.1,
  )
    where
      marked :
          (b : Bool)
          → is_any (map (λ (e : Event T P). e.id) events) r.event.id ≡ b
          → is_open (if b then record r { published_at = some now } else r).published_at ≡ false
          → Sent (if b then record r { published_at = some now } else r).event w
      marked true q o = found-Sent r rows events w m s q
      marked false q o = h.0 o

  relay_cycle-IsSent :
      (n now : ℕ) (locked : ℕ → Bool) (rows : List (Row T P)) (w : W)
      → IsUnique rows
      → IsSent Sent rows w
      → IsSent Sent
          (relay_cycle publish n now locked (rows, w)).1.0
          (relay_cycle publish n now locked (rows, w)).1.1
  unfolding relay_cycle relay
  relay_cycle-IsSent n now locked rows w u h =
      relayed (batch_of n locked rows) (batch_of-Matches n locked rows u)
    where
      relayed :
          (events : List (Event T P))
          → All (Matches rows) events
          → IsSent Sent
              (relay publish now events (rows, w)).1.0
              (relay publish now events (rows, w)).1.1
      relayed [] m = h
      relayed (e ∷ events) m = published (publish_all publish (e ∷ events) w) refl
        where
          stay :
              (y : Event T P) (w' : W) (err : Option E)
              → publish_all publish (e ∷ events) w ≡ (err, w')
              → Sent y w
              → Sent y w'
          stay y w' err q k =
              subst (λ (r : Option E × W). Sent y r.1) q (publish_all-stays (e ∷ events) w y k)

          published :
              (r : Option E × W)
              → publish_all publish (e ∷ events) w ≡ r
              → IsSent Sent
                  (relay publish now (e ∷ events) (rows, w)).1.0
                  (relay publish now (e ∷ events) (rows, w)).1.1
          published (some x, w') q =
              let same : relay publish now (e ∷ events) (rows, w) ≡ (some x, (rows, w')) =
                ground (arith, q) in
              subst (λ (r : Option E × (List (Row T P) × W)). IsSent Sent r.1.0 r.1.1) (sym same)
                (IsSent-stays rows w w' (λ y s. stay y w' (some x) q s) h)
          published (none, w') q =
              let marked = mark_published now (map (λ (y : Event T P). y.id) (e ∷ events)) rows in
              let same : relay publish now (e ∷ events) (rows, w) ≡ (none, (marked, w')) =
                ground (arith, q) in
              subst (λ (r : Option E × (List (Row T P) × W)). IsSent Sent r.1.0 r.1.1) (sym same)
                (mark_published-IsSent now rows (e ∷ events) w' m
                  (publish_all-sends (e ∷ events) w w' q)
                  (IsSent-stays rows w w' (λ y s. stay y w' none q s) h))

-- However the loop of a relay goes, over ticks, a stop and the end of its context, whatever rows
-- others have locked and whichever publishes fail, on a table in which no id stands twice: when
-- every marked row was of a published event before, every marked row is of a published event after.
pub run-IsSent :
    {T P W E : Type 0} (publish : T → P → W → Option E × W) (Sent : Event T P → W → Type 0) (n : ℕ)
    (signals : List Signal) (errs : List E) (rows : List (Row T P)) (w : W)
    → IsPublisher publish Sent
    → IsUnique rows
    → IsSent Sent rows w
    → IsSent Sent
        (run publish n signals errs (rows, w)).1.0
        (run publish n signals errs (rows, w)).1.1
unfolding run relay_cycle
run-IsSent publish Sent n [] errs rows w p u h = h
run-IsSent publish Sent n (stopped ∷ signals) errs rows w p u h = h
run-IsSent publish Sent n (context_done ∷ signals) errs rows w p u h = h
run-IsSent publish Sent n (ticked now locked ∷ signals) errs rows w p u h =
    let (err, (rows', w')) = relay_cycle publish n now locked (rows, w) in
    run-IsSent publish Sent n signals (report err errs) rows' w' p
      (relay-IsUnique publish now (batch_of n locked rows) rows w u)
      (relay_cycle-IsSent publish Sent p n now locked rows w u h)
