-- ===== src/Graceful/Tests.antt =====
-- Runs of the shutdown group and its theorem at a concrete input (pkg/graceful/shutdown.go).
use Prim.Native.String.{String}
use gkit_go.Prelude.{ℕ, ◌≡◌, refl, Option, none, some, List, [], ◌∷◌, ◌++◌, index_down}
use gkit_go.Graceful.{Registration, new, register, shutdown}
use gkit_go.Graceful.Order.{register_all}

-- A hook that writes its name to the world and returns an error, or none.
abbrev hook : String → Option ℕ → Registration (List String) ℕ
hook name err = record { name = name; fn = λ w. (err, w ++ name ∷ []) }

abbrev hooks : List (Registration (List String) ℕ)
hooks = hook "http" none ∷ hook "pool" (some 1) ∷ hook "db" (some 2) ∷ []

shutdown_runs :
    shutdown (register_all hooks new) []
    ≡ some (
      record { name = "db"; err = 2 } ∷ record { name = "pool"; err = 1 } ∷ [],
      "db" ∷ "pool" ∷ "http" ∷ [],
    )
unfolding shutdown register new index_down
shutdown_runs = refl
