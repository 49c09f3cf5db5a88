-- ===== src/Outbox/Tests.antt =====
-- Runs of the relay and its theorem at concrete inputs (pkg/outbox/outbox.go).
use gkit_go.Prelude.{
  ℕ, ◌+◌, ◌≡◌, refl, Option, none, some, List, [], ◌∷◌, ◌++◌, ◌==◌, Bool, true, false, Any, inl,
  inr, subst, arith,
}
use gkit_go.Outbox.{Event, Row, store, relay, publish_all, mark_published, is_any}
use gkit_go.Outbox.Guarantee.{IsPublisher, IsSent, run-IsSent}
use gkit_go.Outbox.Polling.{
  Signal, stopped, ticked, run, relay_cycle, batch_of, by_creation, insert_by_creation, select_open,
  is_open,
}

abbrev logged : Bool → ℕ → List ℕ → Option ℕ × List ℕ
logged true payload w = (some payload, w)
logged false payload w = (none, w ++ payload ∷ [])

-- A publisher that logs the payloads and refuses the topic 9.
abbrev logging : ℕ → ℕ → List ℕ → Option ℕ × List ℕ
logging topic payload w = logged (topic == 9) payload w

abbrev event : ℕ → ℕ → Event ℕ ℕ
event id topic = record { id = id; topic = topic; payload = 10 + id }

abbrev stored : ℕ → ℕ → Option ℕ → Row ℕ ℕ
stored id topic at = record { event = event id topic; created_at = 0; published_at = at }

abbrev rows : List (Row ℕ ℕ)
rows = stored 1 4 none ∷ stored 2 4 none ∷ stored 3 9 none ∷ []

stores : store {T = ℕ} (λ (n : ℕ). some n) 1 0 4 11 [] ≡ some (stored 1 4 none ∷ [])
unfolding store
stores = refl

relays :
    relay logging 50 (event 1 4 ∷ event 2 4 ∷ []) (rows, [])
    ≡ (none, (stored 1 4 (some 50) ∷ stored 2 4 (some 50) ∷ stored 3 9 none ∷ [], 11 ∷ 12 ∷ []))
unfolding relay publish_all mark_published is_any
relays = refl

-- On an error the rows stay, though the first event has been published.
refused : relay logging 50 (event 1 4 ∷ event 3 9 ∷ []) (rows, []) ≡ (some 13, (rows, 11 ∷ []))
unfolding relay publish_all mark_published is_any
refused = refl

-- What `logging` has published: the payload is in its log.
abbrev Logged : Event ℕ ℕ → List ℕ → Type 0
Logged e w = Any (λ p. p ≡ e.payload) w

Any-append-left : (x : ℕ) (w v : List ℕ) → Any (λ p. p ≡ x) w → Any (λ p. p ≡ x) (w ++ v)
Any-append-left x [] v a = elim a [ ]
Any-append-left x (y ∷ w) v (inl e) = inl e
Any-append-left x (y ∷ w) v (inr a) = inr (Any-append-left x w v a)

Any-append-last : (x : ℕ) (w : List ℕ) → Any (λ p. p ≡ x) (w ++ x ∷ [])
Any-append-last x [] = inl refl
Any-append-last x (y ∷ w) = inr (Any-append-last x w)

logging-IsPublisher : IsPublisher logging Logged
logging-IsPublisher = record {
  sends = λ e w w' q. sent e w w' (e.topic == 9) refl q;
  stays = λ e t p w h. stayed e p w (t == 9) h;
}
  where
    sent :
        (e : Event ℕ ℕ) (w w' : List ℕ) (b : Bool)
        → (e.topic == 9) ≡ b
        → logging e.topic e.payload w ≡ (none, w')
        → Logged e w'
    sent e w w' true t q = absurd (ground (arith, t, q))
    sent e w w' false t q =
        let same : w ++ e.payload ∷ [] ≡ w' = ground (arith, t, q) in
        subst (λ v. Logged e v) same (Any-append-last e.payload w)

    stayed :
        (e : Event ℕ ℕ) (p : ℕ) (w : List ℕ) (b : Bool) → Logged e w → Logged e (logged b p w).1
    stayed e p w true h = h
    stayed e p w false h = Any-append-left e.payload w (p ∷ []) h

-- Two ticks of batches of two: the second meets the topic that is refused.
abbrev two_ticks : List Signal
two_ticks = ticked 50 (λ id. false) ∷ ticked 60 (λ id. false) ∷ stopped ∷ []

reported : (run logging 2 two_ticks [] (rows, [])).0 ≡ 13 ∷ []
unfolding run relay_cycle relay publish_all mark_published is_any batch_of by_creation
    insert_by_creation select_open is_open
reported = refl

rows-IsSent : IsSent Logged rows []
unfolding is_open
rows-IsSent = (
  (λ p. absurd (ground (arith, p))),
  ((λ p. absurd (ground (arith, p))), ((λ p. absurd (ground (arith, p))), tt)),
)

run-IsSent_example :
    IsSent Logged
      (run logging 2 two_ticks [] (rows, [])).1.0
      (run logging 2 two_ticks [] (rows, [])).1.1
run-IsSent_example =
    run-IsSent logging Logged 2 two_ticks [] rows [] logging-IsPublisher
      (
        ((λ p. ground (arith, p)), ((λ p. ground (arith, p)), tt)),
        (((λ p. ground (arith, p)), tt), (tt, tt)),
      )
      rows-IsSent
