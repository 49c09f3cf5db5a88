-- ===== src/Middleware.antt =====
-- The middleware chain, pkg/middleware/middleware.go. `H` is the type of handlers.
pub mod Handlers
pub mod Order
mod Tests
use gkit_go.Prelude.{Option, none, some, List, length, index_down, ◌>>=◌}

abbrev pub Middleware : Type 0 → Type 0
Middleware H = H → H

-- `Chain`; `none` is an index out of range.
unfoldable pub chain : {H : Type 0} → List (Middleware H) → H → Option H
chain middlewares next = index_down middlewares (λ m h. some (m h)) (length middlewares) next

unfoldable pub apply : {H : Type 0} → H → List (Middleware H) → Option H
unfolding chain
apply handler middlewares = chain middlewares handler
