-- ===== src/Server/Orders.antt =====
-- The orders of the example service, examples/server/main.go: what POST /orders and the RPC
-- PlaceOrder publish on the event bus, and the hooks of the shutdown. Topics are numbers or any
-- other type; the JSON of an order is the parameter `decode`.
use Prim.Native.String.{String}
use gkit_go.Prelude.{ℕ, Bool, true, Option, none, some, if◌then◌else◌}
use gkit_go.Graceful
use gkit_go.Graceful.{Registration, Group}
use gkit_go.Pubsub.Registry.{Bus, new_bus, subscribe, publish}

-- `OrderEvent`
pub record OrderEvent (I : Type 0) : Type 0 where
  pub product_id : I
  pub quantity : ℕ
  pub at : ℕ

-- `PlaceOrderResponse`: the time in the order's id, and the status.
pub record OrderReply : Type 0 where
  pub order_id : ℕ
  pub status : String

abbrev pub any_order : {I : Type 0} → OrderEvent I → Bool
any_order ev = true

module _ {K I : Type 0} (dec : Discrete K) (orders_placed : K) where
  -- The bus of `main`, with the subscription that feeds the pool.
  unfoldable pub orders_bus : Bus K (OrderEvent I)
  unfolding subscribe new_bus
  orders_bus = (subscribe dec orders_placed any_order 64 new_bus).1

  -- The handler of POST /orders: the status of its answer, or `none` for the panic of a publish.
  unfoldable pub post_order :
      {B : Type 0}
      → (B → Option (OrderEvent I))
      → ℕ
      → B
      → Bus K (OrderEvent I)
      → Option ℕ × Bus K (OrderEvent I)
  unfolding publish
  post_order decode now body bus = elim (decode body) [
    | none ↦ (some 400, bus)
    | some ev ↦
        let (panicked, bus') = publish dec orders_placed (record ev { at = now }) bus in
        (if panicked then none else some 202, bus')
  ]

  -- `PlaceOrder`, with the two readings of the clock; `none` is the panic of a publish.
  unfoldable pub place_order :
      ℕ → ℕ → I → ℕ → Bus K (OrderEvent I) → Option OrderReply × Bus K (OrderEvent I)
  unfolding publish
  place_order now later product_id quantity bus =
      let ev : OrderEvent I = record { product_id = product_id; quantity = quantity; at = now } in
      let (panicked, bus') = publish dec orders_placed ev bus in
      (if panicked then none else some (record { order_id = later; status = "accepted" }), bus')

-- The hooks that `main` registers, in its order.
unfoldable pub server_group :
    {W E : Type 0}
    → (W → Option E × W)
    → (W → Option E × W)
    → (W → Option E × W)
    → (W → Option E × W)
    → Group W E
unfolding Graceful.register Graceful.new
server_group scheduler grpc_server http_server order_pool =
    Graceful.register (record { name = "order-pool"; fn = order_pool })
      (Graceful.register (record { name = "http-server"; fn = http_server })
        (Graceful.register (record { name = "grpc-server"; fn = grpc_server })
          (Graceful.register (record { name = "scheduler"; fn = scheduler })
            (record Graceful.new { timeout = 15_000_000_000 }))))
