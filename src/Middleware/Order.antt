-- ===== src/Middleware/Order.antt =====
-- The first middleware is the outermost (pkg/middleware/middleware.go).
use gkit_go.Prelude.{
  ◌≡◌, refl, ◌∙◌, some, List, [], ◌∷◌, ◌++◌, append_assoc, append-nil, map, each_back,
  index_down-each_back,
}
use gkit_go.Middleware.{Middleware, chain}

module _ {H : Type 0} where
  abbrev pub wrap : List (Middleware H) → H → H
  wrap [] h = h
  wrap (m ∷ ms) h = m (wrap ms h)

  each_back-wrap :
      (ms : List (Middleware H)) (h : H) → each_back (λ m h'. some (m h')) ms h ≡ some (wrap ms h)
  each_back-wrap [] h = refl
  each_back-wrap (m ∷ ms) h = rw (each_back-wrap ms h)

  pub chain-wrap : (ms : List (Middleware H)) (h : H) → chain ms h ≡ some (wrap ms h)
  unfolding chain
  chain-wrap ms h = index_down-each_back ms (λ m h'. some (m h')) h ∙ each_back-wrap ms h

-- A handler that appends to a log of what ran.
abbrev pub Logger : Type 0 → Type 0
Logger A = List A → List A

-- A middleware that acts before and after the next handler.
abbrev pub around : {A : Type 0} → A × A → Middleware (Logger A)
around (before, after) next log = next (log ++ before ∷ []) ++ after ∷ []

module _ {A : Type 0} where
  abbrev pub befores : List (A × A) → List A
  befores [] = []
  befores (x ∷ xs) = x.0 ∷ befores xs

  -- The second components, the last first.
  abbrev pub afters_back : List (A × A) → List A
  afters_back [] = []
  afters_back (x ∷ xs) = afters_back xs ++ x.1 ∷ []

  wrap-around :
      (xs : List (A × A)) (body log : List A)
      → wrap (map around xs) (λ l. l ++ body) log ≡ log ++ (befores xs ++ (body ++ afters_back xs))
  wrap-around [] body log = simp append-nil
  wrap-around (x ∷ xs) body log = simp (wrap-around xs body (log ++ x.0 ∷ []), append_assoc)

  -- In a chain each middleware acts before the handler in the order of the list, and after it in the
  -- reverse order, each exactly once.
  chain-around :
      (xs : List (A × A)) (body : List A)
      → (h : Logger A) × (chain (map around xs) (λ l. l ++ body) ≡ some h)
        × ((log : List A) → h log ≡ log ++ (befores xs ++ (body ++ afters_back xs)))
  chain-around xs body = (
    wrap (map around xs) (λ l. l ++ body),
    chain-wrap (map around xs) (λ l. l ++ body),
    λ log. wrap-around xs body log,
  )
