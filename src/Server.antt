-- ===== src/Server.antt =====
-- The example service, examples/server/main.go: the products with their cache, the circuit breaker
-- in front of the database, and the retries of the HTTP handler. The random numbers of the
-- database are drawn from the world `W`; the context of a request does not end.
pub mod Orders
pub mod Placing
pub mod Products
mod Tests
use gkit_go.Prelude.{
  ◌>>=◌, ℕ, Bool, true, false, Option, none, some, List, [], ◌∷◌, length, take, ltb, ◌==◌, ◌||◌,
  if◌then◌else◌,
}
use gkit_go.Cache.{Cache, get, set}
use gkit_go.CircuitBreaker.{
  Breaker, Error, err_open, fn_error, State, state_open, same_state, execute, current_state,
}
use gkit_go.Retry.{
  Result, value, error, Outcome, done, failed, Failure, context_error, stopped, sleep_error,
  max_attempts_error,
}

-- The fields of `productService` that the requests change.
pub record Service (K P : Type 0) : Type 0 where
  pub products : Cache K P
  pub breaker : Breaker

-- What a request for a product gets.
pub data Answer (P : Type 0) : Type 0 where
  product : P → Answer P
  refused : Error → Answer P

-- The two errors of the database, both of which wrap `ErrNotFound`.
abbrev pub transient_not_found : Error
transient_not_found = fn_error 1

abbrev pub product_not_found : Error
product_not_found = fn_error 2

-- `fetchProductFromDB`, which finds no product; `draw` is whether a random number is below 0.2.
unfoldable pub fetch_product :
    {K P W : Type 0} → P → (W → Bool × W) → K → W → (P × Option Error) × W
fetch_product zero draw id w =
    let (transient, w') = draw w in
    ((zero, some (if transient then transient_not_found else product_not_found)), w')

module _ {K P W : Type 0} (dec : Discrete K) (zero : P) (draw : W → Bool × W) where
  -- The database behind the breaker, whose readings of the clock are `start` and `finish`.
  unfoldable pub from_database : ℕ → ℕ → K → Service K P → W → Answer P × Service K P × W
  unfolding execute fetch_product
  from_database start finish id s w =
      let (b, result, w') = execute zero start finish (fetch_product zero draw id) s.breaker w in
      elim result.1 [
        | some e ↦ (refused e, record s { breaker = b }, w')
        | none ↦ (product result.0, record s { breaker = b }, w')
      ]

  -- The function that the HTTP handler retries.
  unfoldable pub look_up : ℕ → ℕ → ℕ → K → Service K P → W → Option (Answer P × Service K P × W)
  unfolding get from_database
  look_up now start finish id s w = do
    (c, hit) ← get dec now id s.products
    elim hit [
      | some p ↦ some (product p, record s { products = c }, w)
      | none ↦ some (from_database start finish id (record s { products = c }) w)
    ]

  module _ (id_of : P → K) where
    -- A product from the database goes into the cache.
    unfoldable pub keep : ℕ → Answer P × Service K P × W → Option (Answer P × Service K P × W)
    unfolding set
    keep stored (refused e, s, w) = some (refused e, s, w)
    keep stored (product p, s, w) = do
      c ← set dec stored (id_of p) p s.products
      some (product p, record s { products = c }, w)

    -- `GetProduct`; the readings of the clock are those of `Get`, `allow`, `record` and `Set`.
    unfoldable pub get_product :
        ℕ → ℕ → ℕ → ℕ → K → Service K P → W → Option (Answer P × Service K P × W)
    unfolding get from_database keep
    get_product now start finish stored id s w = do
      (c, hit) ← get dec now id s.products
      elim hit [
        | some p ↦ some (product p, record s { products = c }, w)
        | none ↦ keep stored (from_database start finish id (record s { products = c }) w)
      ]

-- `ListProducts`: `none` is a page size below 0.
unfoldable pub list_products : {P : Type 0} → List P → Option ℕ → List P
list_products all none = all
list_products all (some page_size) =
    if page_size == 0 || ltb (length all) page_size then all else take page_size all

-- Whether the error of the retries is `ErrNotFound`, of an error that says so itself.
unfoldable pub is_not_found : {E : Type 0} → (E → Bool) → Failure E → Bool
is_not_found not_found (context_error e) = not_found e
is_not_found not_found (stopped e) = not_found e
is_not_found not_found (sleep_error e) = not_found e
is_not_found not_found (max_attempts_error n none) = false
is_not_found not_found (max_attempts_error n (some e)) = not_found e

-- The status that `GET /products/{id}` answers with.
unfoldable pub product_status : {T E : Type 0} → (E → Bool) → Outcome T E → ℕ
unfolding is_not_found
product_status not_found (done p) = 200
product_status not_found (failed e) = if is_not_found not_found e then 404 else 500

-- The checks of the health group: `none` is a check that passes.
unfoldable pub queue_check : ℕ → Option ℕ
queue_check depth = if ltb 200 depth then some depth else none

unfoldable pub breaker_check : ℕ → Breaker → Breaker × Bool
unfolding current_state
breaker_check now b = let (b', state) = current_state now b in (b', same_state state state_open)
