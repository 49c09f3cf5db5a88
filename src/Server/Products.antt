-- ===== src/Server/Products.antt =====
-- What a request for a product gets, and what it leaves in the cache (examples/server/main.go).
use gkit_go.Prelude.{
  Bool, refl, ◌≡◌, ℕ, ◌≤◌, Option, none, some, inl, inr, arith, ap, subst, ◌∙◌, Option-cases,
  Bool-cases, map_get, ◌⊎◌,
}
use gkit_go.Cache.Elements.{element}
use gkit_go.Cache.{Cache, get, remove_element, is_expired}
use gkit_go.Cache.Invariant.{Inv}
use gkit_go.Cache.Methods.{get-Inv}
use gkit_go.Cache.Reads.{read, get-read}
use gkit_go.CircuitBreaker.{Breaker, Error, err_open, execute, allow}
use gkit_go.Server.{
  transient_not_found, product_not_found, fetch_product, Service, product, refused, from_database,
  keep, get_product,
}

module _ {K V : Type 0} (dec : Discrete K) where
  get-ttl :
      (now : ℕ) (k : K) (c c' : Cache K V) (o : Option V)
      → get dec now k c ≡ some (c', o)
      → c'.ttl ≡ c.ttl
  unfolding get remove_element
  get-ttl now k c c' o h = elim (Option-cases (map_get dec c.items k)) [
    | inl p ↦ ground (arith, p, h)
    | inr (i, p) ↦ elim (Option-cases (element i c.list)) [
      | inl q ↦ absurd (ground (arith, p, q, h))
      | inr (e, q) ↦ elim (Bool-cases (is_expired now e)) [
        | inl x ↦ ground (arith, p, q, x, h)
        | inr x ↦ ground (arith, p, q, x, h)
      ]
    ]
  ]

  -- A miss, what it leaves and its invariant together.
  get-missed :
      (now : ℕ) (k : K) (c : Cache K V)
      → Inv dec c
      → read dec now k c ≡ none
      → (c' : Cache K V) × (get dec now k c ≡ some (c', none))
        × Inv dec c'
        × (c'.ttl ≡ c.ttl)
        × ((t : ℕ) (j : K) → now ≤ t → read dec t j c' ≡ read dec t j c)
  get-missed now k c h q =
      let (c₁, o, e₁, i) = get-Inv dec now k c h in
      let (c₂, e₂, kept) = get-read dec now k c h in
      let both : get dec now k c ≡ some (c₂, none) = e₂ ∙ ap (λ v. some (c₂, v)) q in
      let same : c₁ ≡ c₂ = cc in
      (c₂, both, subst (λ x. Inv dec x) same i, get-ttl now k c c₂ none both, kept)

module _ {K P W : Type 0} (dec : Discrete K) (zero : P) (draw : W → Bool × W) (id_of : P → K) where
  -- A product that the cache holds is served without the breaker and the database, which stay as they are.
  get_product-cached :
      (now start finish stored : ℕ) (id : K) (s : Service K P) (w : W) (p : P)
      → Inv dec s.products
      → read dec now id s.products ≡ some p
      → (c : Cache K P) × (get_product dec zero draw id_of now start finish stored id s w
          ≡ some (product p, record s { products = c }, w))
  unfolding get_product
  get_product-cached now start finish stored id s w p h q =
      let (c, e, kept) = get-read dec now id s.products h in (c, ground (arith, e, q))

  -- A request that misses goes to the database.
  get_product-missed :
      (now start finish stored : ℕ) (id : K) (s : Service K P) (w : W) (c : Cache K P)
      → get dec now id s.products ≡ some (c, none)
      → get_product dec zero draw id_of now start finish stored id s w
        ≡ keep dec zero draw id_of stored
            (from_database dec zero draw start finish id (record s { products = c }) w)
  unfolding get_product
  get_product-missed now start finish stored id s w c q = ground (arith, q)

  from_database-error :
      (start finish : ℕ) (id : K) (s : Service K P) (w : W) (b : Breaker) (p : P) (e : Error)
      (w' : W)
      → execute zero start finish (fetch_product zero draw id) s.breaker w ≡ (b, (p, some e), w')
      → from_database dec zero draw start finish id s w ≡ (refused e, record s { breaker = b }, w')
  unfolding from_database
  from_database-error start finish id s w b p e w' q = ground (arith, q)

  -- The errors that the breaker in front of the database gives.
  abbrev pub IsRefusal : Error → Type 0
  IsRefusal e = (e ≡ err_open) ⊎ (e ≡ transient_not_found) ⊎ (e ≡ product_not_found)

  execute-IsRefusal :
      (start finish : ℕ) (id : K) (b : Breaker) (w : W) (e : Error)
      → (execute zero start finish (fetch_product zero draw id) b w).1.1 ≡ some e
      → IsRefusal e
  unfolding execute fetch_product allow
  execute-IsRefusal start finish id b w e h = ground (arith, h)

  execute-fails :
      (start finish : ℕ) (id : K) (b : Breaker) (w : W)
      → (execute zero start finish (fetch_product zero draw id) b w).1.1 ≡ none
      → ⊥
  unfolding execute fetch_product allow
  execute-fails start finish id b w h = absurd (ground (arith, h))

  -- With a cache that has its invariant: a product that the cache holds is served, without the breaker
  -- and the database. Any other request is answered with `ErrOpen` or one of the errors that wrap
  -- `ErrNotFound`, as the database finds no product; nothing is stored, the cache keeps its
  -- invariant, and what a later read of any key finds in it is as before.
  pub get_product-answers :
      (now start finish stored : ℕ) (id : K) (s : Service K P) (w : W)
      → Inv dec s.products
      → ((p : P) × (read dec now id s.products ≡ some p)
          × (c : Cache K P) × (get_product dec zero draw id_of now start finish stored id s w
              ≡ some (product p, record s { products = c }, w)))
        ⊎ ((read dec now id s.products ≡ none)
            × (e : Error) × IsRefusal e
            × (c : Cache K P) × (b : Breaker) × (w' : W) × (get_product dec zero draw id_of now
                  start finish stored id s w
                ≡ some (refused e, record { products = c; breaker = b }, w'))
            × Inv dec c
            × ((t : ℕ) (j : K) → now ≤ t → read dec t j c ≡ read dec t j s.products))
  unfolding keep
  get_product-answers now start finish stored id s w h =
      elim (Option-cases (read dec now id s.products)) [
        | inr (p, q) ↦
            let (c, e) = get_product-cached now start finish stored id s w p h q in inl (p, q, c, e)
        | inl q ↦
            let (e, r, c, b, w', got, i, kept) =
              failed q (execute zero start finish (fetch_product zero draw id) s.breaker w) refl in
            inr (q, e, r, c, b, w', got, i, kept)
      ]
    where
      failed :
          read dec now id s.products ≡ none
          → (r : Breaker × (P × Option Error) × W)
          → execute zero start finish (fetch_product zero draw id) s.breaker w ≡ r
          → (e : Error) × IsRefusal e
            × (c : Cache K P) × (b : Breaker) × (w' : W) × (get_product dec zero draw id_of now
                  start finish stored id s w
                ≡ some (refused e, record { products = c; breaker = b }, w'))
            × Inv dec c
            × ((t : ℕ) (j : K) → now ≤ t → read dec t j c ≡ read dec t j s.products)
      failed q (b, (p, none), w') x =
          absurd (execute-fails start finish id s.breaker w (ap (λ r. r.1.1) x))
      failed q (b, (p, some e), w') x =
          let (c, got, i, ttl, kept) = get-missed dec now id s.products h q in
          (
            e,
            execute-IsRefusal start finish id s.breaker w e (ap (λ r. r.1.1) x),
            c,
            b,
            w',
            get_product-missed now start finish stored id s w c got
                ∙ ap (keep dec zero draw id_of stored)
                    (from_database-error start finish id (record s { products = c }) w b p e w' x),
            i,
            kept,
          )
