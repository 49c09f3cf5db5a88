-- ===== src/Server/Tests.antt =====
-- Requests for products and the theorems at concrete inputs (examples/server/main.go).
use gkit_go.Prelude.{
  map_put, Bool, ◌%◌, ◌≤◌, ◌≡◌, ◌⊎◌, ◌++◌, List, zero, suc, index_down, ◌+◌, ◌==◌, ℕ, ℕ_discrete,
  Option, none, some, [], ◌∷◌, arith, refl, map_get,
}
use gkit_go.Cache.Elements.{locate}
use gkit_go.Cache.{Cache}
use gkit_go.Cache.Invariant.{Inv}
use gkit_go.Cache.Reads.{read}
use gkit_go.CircuitBreaker.{Breaker, Error, new}
use gkit_go.Retry.{failed, max_attempts_error}
use gkit_go.Server.{
  Service, product, refused, get_product, list_products, is_not_found, product_status,
}
use Prim.Native.String.{String}
use gkit_go.Graceful.{shutdown, register}
use gkit_go.Pubsub.Registry.{apply_all, subscribe, new_bus, listed}
use gkit_go.Pubsub.Subscriber.{new_subscriber}
use gkit_go.Server.Orders.{OrderEvent, orders_bus, post_order, server_group}
use gkit_go.Server.Placing.{IsOffered, AllTakeOrders, post_order-IsOffered}
use gkit_go.Server.Products.{IsRefusal, get_product-answers}

-- A product by its id and its price.
abbrev Item : Type 0
Item = ℕ × ℕ

-- The world counts the random numbers drawn; every fifth is below 0.2.
abbrev draw : ℕ → Bool × ℕ
draw w = (w % 5 == 0, w + 1)

abbrev cold : Cache ℕ Item
cold = record {
  capacity = 2;
  ttl = 10;
  list = [];
  items = [];
  hits = 0;
  misses = 0;
  evicts = 0;
  fresh = 0;
}

cold-Inv : Inv ℕ_discrete cold
unfolding map_get locate
cold-Inv = record {
  indexed = λ k. refl;
  proper = tt;
  bounded = omega arith;
  positive = omega arith;
}

abbrev fresh_breaker : Breaker
unfolding new
fresh_breaker = new []

abbrev shop : Service ℕ Item
shop = record { products = cold; breaker = fresh_breaker }

abbrev nothing : Option Item
nothing = none

get_product-answers_example :
    ((p : Item) × (nothing ≡ some p)
      × (c : Cache ℕ Item) × (get_product ℕ_discrete
            (0, 0)
            draw
            (λ (p : Item). p.0)
            1
            1
            2
            3
            7
            shop
            0
          ≡ some (product p, record shop { products = c }, 0)))
    ⊎ ((nothing ≡ none)
        × (e : Error) × IsRefusal {K = ℕ} ℕ_discrete (0, 0) draw (λ (p : Item). p.0) e
        × (c : Cache ℕ Item) × (b : Breaker) × (w' : ℕ) × (get_product ℕ_discrete
              (0, 0)
              draw
              (λ (p : Item). p.0)
              1
              1
              2
              3
              7
              shop
              0
            ≡ some (refused e, record { products = c; breaker = b }, w'))
        × Inv ℕ_discrete c
        × ((t j : ℕ) → 1 ≤ t → read ℕ_discrete t j c ≡ read ℕ_discrete t j cold))
unfolding locate
get_product-answers_example =
    get_product-answers ℕ_discrete (0, 0) draw (λ (p : Item). p.0) 1 1 2 3 7 shop 0 cold-Inv

pages : list_products {P = ℕ} (1 ∷ 2 ∷ 3 ∷ []) (some 2) ≡ 1 ∷ 2 ∷ []
unfolding list_products
pages = refl

gone : product_status {T = ℕ} (λ (e : ℕ). e == 404) (failed (max_attempts_error 3 (some 404))) ≡ 404
unfolding product_status is_not_found
gone = refl

-- A body is the number of a product, and 0 is not an order.
abbrev decode_order : ℕ → Option (OrderEvent ℕ)
decode_order zero = none
decode_order (suc id) = some (record { product_id = suc id; quantity = 1; at = 0 })

orders_bus-AllTakeOrders :
    {I : Type 0} → AllTakeOrders {I = I} ℕ_discrete 1 (orders_bus ℕ_discrete 1)
unfolding orders_bus subscribe new_bus new_subscriber listed map_get map_put
orders_bus-AllTakeOrders ev zero s q t c = ground (arith, q)
orders_bus-AllTakeOrders ev (suc j) s q t c = absurd (ground (arith, q))

post_order-IsOffered_example :
    ((decode_order 7 ≡ none)
      × (post_order ℕ_discrete 1 decode_order 30 7 (orders_bus ℕ_discrete 1)
          ≡ (some 400, orders_bus ℕ_discrete 1)))
    ⊎ ((ev : OrderEvent ℕ) × ((decode_order 7 ≡ some ev)
          × (((post_order ℕ_discrete 1 decode_order 30 7 (orders_bus ℕ_discrete 1)).0 ≡ some 202)
              × IsOffered ℕ_discrete 1
                  (record ev { at = 30 })
                  (orders_bus ℕ_discrete 1)
                  (post_order ℕ_discrete 1 decode_order 30 7 (orders_bus ℕ_discrete 1)).1)))
unfolding apply_all
post_order-IsOffered_example =
    post_order-IsOffered ℕ_discrete 1 decode_order 30 7 [] (orders_bus ℕ_discrete 1) refl
      orders_bus-AllTakeOrders

abbrev noted : String → List String → Option ℕ × List String
noted name names = (none, names ++ name ∷ [])

-- The pool is stopped before the servers that still take orders.
pool_first :
    shutdown
      (server_group
        (noted "scheduler")
        (noted "grpc-server")
        (noted "http-server")
        (noted "order-pool"))
      []
    ≡ some ([], "order-pool" ∷ "http-server" ∷ "grpc-server" ∷ "scheduler" ∷ [])
unfolding shutdown server_group register index_down
pool_first = refl
