-- ===== src/Pubsub/Tests.antt =====
-- Runs of the event bus, and the witnesses.
use gkit_go.Prelude.{
  ℕ, ◌+◌, ◌≤◌, ◌≡◌, refl, Bool, true, false, some, List, [], ◌∷◌, ◌++◌, length, map, ℕ_discrete,
  get_elem?, none, if◌then◌else◌, zero, suc, arith, map_put, map_get, map_delete, ◌>>=◌,
}
use gkit_go.Pubsub.Subscriber.{
  Dispatch, Subscriber, Action, offered, moved, cancelling, closing, received, blocked, finished,
  new_subscriber, publish_to, cancel, run,
}
use gkit_go.Pubsub.Registry.{
  Bus, new_bus, topics, Op, subscribing, unsubscribing, publishing, publish, apply_all,
}
use gkit_go.Pubsub.Sending.{current, offers}
use gkit_go.Pubsub.Delivery.{run-Delivers}
use gkit_go.Pubsub.Routing.{Takes, publish-Broadcasts, delivered}

abbrev all_pass : ℕ → Bool
all_pass x = true

-- Two events published to a subscription with room for one while its handler runs the first: the
-- second is queued, the third dropped.
abbrev actions : List (Action ℕ)
actions = moved blocked ∷ offered 5 ∷ offered 6 ∷ offered 7 ∷ moved finished ∷ moved received ∷ []

abbrev served : Subscriber ℕ ℕ
served = record {
  topic = 1;
  accepts = all_pass;
  capacity = 1;
  queue = [];
  closed = false;
  cancelled = false;
  dispatch = Dispatch.busy 6;
  accepted = 5 ∷ 6 ∷ [];
  handled = 5 ∷ [];
  dropped = 1;
  panics = 0;
}

run-served : run actions (new_subscriber 1 all_pass 1) ≡ some served
unfolding run new_subscriber
run-served = refl

run-Delivers_example :
    (served.handled ++ (current served.dispatch ++ served.queue) ≡ served.accepted)
    × ((length served.queue ≤ served.capacity)
        × (length served.accepted + served.dropped + served.panics ≡ offers actions))
run-Delivers_example = run-Delivers 1 all_pass 1 actions served run-served

-- A publisher that has copied the handlers before an unsubscribe, and sends after it, panics.
late_publish :
    (do
      s ←
          run {K = ℕ}
            (offered 5 ∷ cancelling ∷ closing ∷ offered 6 ∷ [])
            (new_subscriber 1 all_pass 4)
      some s.panics)
    ≡ some 1
unfolding run new_subscriber
late_publish = refl

-- Without a buffer, an event published while the dispatch goroutine is not in its select is dropped.
unbuffered_drops :
    (do s ← run {K = ℕ} (offered 5 ∷ []) (new_subscriber 1 all_pass 0); some s.dropped) ≡ some 1
unfolding run new_subscriber
unbuffered_drops = refl

abbrev ops : List (Op ℕ ℕ)
ops =
    subscribing 1 all_pass 2
    ∷ subscribing 1 all_pass 2
    ∷ subscribing 2 all_pass 2
    ∷ unsubscribing 0
    ∷ publishing 2 9
    ∷ []

abbrev open_bus : Bus ℕ ℕ
unfolding new_subscriber publish_to cancel
open_bus = record {
  subs = (1, 1 ∷ []) ∷ (2, 2 ∷ []) ∷ [];
  store =
      record (cancel (new_subscriber 1 all_pass 2)) { closed = true }
      ∷ new_subscriber 1 all_pass 2
      ∷ publish_to 9 (new_subscriber 2 all_pass 2)
      ∷ [];
}

apply_all-open_bus : apply_all ℕ_discrete ops new_bus ≡ some open_bus
unfolding apply_all new_bus open_bus map_put map_get map_delete ℕ_discrete
apply_all-open_bus = refl

open_bus-Takes :
    (j : ℕ) (s : Subscriber ℕ ℕ) → get_elem? open_bus.store j ≡ some s → Takes ℕ_discrete 1 7 s
unfolding open_bus publish_to cancel new_subscriber
open_bus-Takes zero s q t c = ground (arith, q)
open_bus-Takes (suc zero) s q t c = ground (arith, q)
open_bus-Takes (suc (suc zero)) s q t c = ground (arith, q)
open_bus-Takes (suc (suc (suc j))) s q t c = absurd (ground (arith, q))

publish-Broadcasts_example :
    ((publish ℕ_discrete 1 7 open_bus).0 ≡ false)
    × ((publish ℕ_discrete 1 7 open_bus).1.store ≡ map (delivered ℕ_discrete 1 7) open_bus.store)
    × ((publish ℕ_discrete 1 7 open_bus).1.subs ≡ open_bus.subs)
publish-Broadcasts_example =
    publish-Broadcasts ℕ_discrete ops open_bus 1 7 apply_all-open_bus open_bus-Takes

-- A subscription for another type panics the publisher, and the one after it gets nothing.
abbrev none_pass : ℕ → Bool
none_pass x = false

mixed_panics :
    (do
      b ← apply_all ℕ_discrete (subscribing 1 none_pass 2 ∷ subscribing 1 all_pass 2 ∷ []) new_bus
      s ← get_elem? (publish ℕ_discrete 1 7 b).1.store 1
      if (publish ℕ_discrete 1 7 b).0 then some s.accepted else none)
    ≡ some []
unfolding apply_all publish new_bus map_put map_get map_delete ℕ_discrete new_subscriber
mixed_panics = refl

topics_listed : topics {K = ℕ} ((1, []) ∷ (2, 2 ∷ []) ∷ []) ≡ 2 ∷ []
unfolding topics
topics_listed = refl
