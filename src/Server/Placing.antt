-- ===== src/Server/Placing.antt =====
-- What an order does to the subscribers of the bus (examples/server/main.go).
use gkit_go.Prelude.{
  ℕ, ◌≡◌, ◌⊎◌, inl, inr, refl, sym, subst, Option, none, some, List, ◌∷◌, map, arith, Option-cases,
  get_elem?,
}
use gkit_go.Pubsub.Registry.{Bus, new_bus, Op, subscribing, publish, apply, apply_all}
use gkit_go.Pubsub.Subscriber.{Subscriber}
use gkit_go.Pubsub.Routing.{Takes, delivered, publish-Broadcasts}
use gkit_go.Server.Orders.{OrderEvent, any_order, orders_bus, post_order}

module _ {K I : Type 0} (dec : Discrete K) (orders_placed : K) where
  -- Every subscription was offered an order once, if it is to the topic of orders and not
  -- unsubscribed, and else is as it was.
  abbrev pub IsOffered : OrderEvent I → Bus K (OrderEvent I) → Bus K (OrderEvent I) → Type 0
  IsOffered ev b b' = (b'.store ≡ map (delivered dec orders_placed ev) b.store) × (b'.subs ≡ b.subs)

  started :
      (ops : List (Op K (OrderEvent I))) (b : Bus K (OrderEvent I))
      → apply_all dec ops (orders_bus dec orders_placed) ≡ some b
      → apply_all dec (subscribing orders_placed any_order 64 ∷ ops) new_bus ≡ some b
  unfolding apply_all apply orders_bus
  started ops b e = e

  -- The open subscriptions to orders are for `OrderEvent`.
  abbrev pub AllTakeOrders : Bus K (OrderEvent I) → Type 0
  AllTakeOrders b =
      (ev : OrderEvent I) (j : ℕ) (s : Subscriber K (OrderEvent I))
      → get_elem? b.store j ≡ some s
      → Takes dec orders_placed ev s

  -- Whatever has happened on the bus of the service, if its open subscriptions to orders are for
  -- `OrderEvent`: POST /orders answers 400 and publishes nothing when its body is not an order; else
  -- it answers 202, and the order, with the time of its arrival, was offered once to each
  -- subscription to orders that is not unsubscribed, and to no other.
  pub post_order-IsOffered :
      {B : Type 0} (decode : B → Option (OrderEvent I)) (now : ℕ) (body : B)
      (ops : List (Op K (OrderEvent I))) (b : Bus K (OrderEvent I))
      → apply_all dec ops (orders_bus dec orders_placed) ≡ some b
      → AllTakeOrders b
      → ((decode body ≡ none) × (post_order dec orders_placed decode now body b ≡ (some 400, b)))
        ⊎ ((ev : OrderEvent I) × ((decode body ≡ some ev)
              × (((post_order dec orders_placed decode now body b).0 ≡ some 202)
                  × IsOffered
                      (record ev { at = now })
                      b
                      (post_order dec orders_placed decode now body b).1)))
  unfolding post_order
  post_order-IsOffered decode now body ops b e takes = elim (Option-cases (decode body)) [
    | inl p ↦ inl (p, ground (arith, p))
    | inr (ev, p) ↦
        let sent =
          publish-Broadcasts dec (subscribing orders_placed any_order 64 ∷ ops) b orders_placed
            (record ev { at = now }) (started ops b e) (takes (record ev { at = now })) in
        let same : post_order dec orders_placed decode now body b
            ≡ (some 202, (publish dec orders_placed (record ev { at = now }) b).1) =
          ground (arith, p, sent.0) in
        inr (
          ev,
          (
            p,
            subst
                (λ (r : Option ℕ × Bus K (OrderEvent I)).
                  (r.0 ≡ some 202) × IsOffered (record ev { at = now }) b r.1)
                (sym same) (refl, (sent.1, sent.2)),
          ),
        )
  ]
