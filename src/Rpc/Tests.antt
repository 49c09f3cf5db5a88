-- ===== src/Rpc/Tests.antt =====
-- The interceptors at a concrete input (pkg/rpc/interceptors).
use gkit_go.Prelude.{◌≡◌, refl, ℕ, ◌==◌, if◌then◌else◌, [], ◌∷◌}
use gkit_go.Rpc.{
  not_found, internal, in_flight_inc, in_flight_dec, counted, logged_debug, panic_logged, replied,
  failed, panicked, Handler, is_server_error,
}
use gkit_go.Rpc.Stack.{observed}

abbrev handler : Handler ℕ ℕ
handler req =
    ([], if req == 0 then panicked else (if req == 1 then failed not_found else replied req))

misses : observed (handler 1) ≡ (
  in_flight_inc ∷ in_flight_dec ∷ counted not_found ∷ logged_debug not_found ∷ [],
  failed not_found,
)
unfolding is_server_error
misses = refl

crashes : observed (handler 0) ≡ (in_flight_inc ∷ panic_logged ∷ [], failed internal)
crashes = refl
