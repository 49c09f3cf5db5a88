-- ===== src/Rpc/Stack.antt =====
-- The interceptors in the order of the example service (pkg/rpc/interceptors).
use gkit_go.Prelude.{◌≡◌, refl, List, [], ◌∷◌, ◌++◌, if◌then◌else◌, arith, append_assoc}
use gkit_go.Rpc.{
  Code, ok, internal, is_server_error, Event, in_flight_inc, in_flight_dec, counted, logged_debug,
  logged_error, panic_logged, Ending, replied, failed, panicked, Handler, recovery, logging,
  metrics,
}

-- The line of a call, by the code.
abbrev pub log_line : Code → Event
log_line code = if is_server_error code then logged_error code else logged_debug code

-- What a handler's trace and ending are behind the three interceptors.
abbrev pub observed : {A : Type 0} → List Event × Ending A → List Event × Ending A
observed (events, replied a) =
    (in_flight_inc ∷ events ++ in_flight_dec ∷ counted ok ∷ log_line ok ∷ [], replied a)
observed (events, failed code) =
    (in_flight_inc ∷ events ++ in_flight_dec ∷ counted code ∷ log_line code ∷ [], failed code)
observed (events, panicked) = (in_flight_inc ∷ events ++ panic_logged ∷ [], failed internal)

module _ {R A : Type 0} where
  -- Behind Recovery, Logging and the metrics, in this order: a call that returns is counted and logged
  -- once, with the code that the client gets, and leaves the gauge of the calls in flight as it was; a
  -- call that panics gets the code Internal and a line for the panic, is neither counted nor logged
  -- with a code, and leaves the gauge raised.
  recovery-observed :
      (handler : Handler R A) (req : R)
      → recovery (logging (metrics handler)) req ≡ observed (handler req)
  unfolding recovery logging metrics
  recovery-observed handler req = go (handler req) refl
    where
      go :
          (t : List Event × Ending A)
          → handler req ≡ t
          → recovery (logging (metrics handler)) req ≡ observed (handler req)
      go (events, replied a) p =
          ground
            (arith, p, append_assoc events (in_flight_dec ∷ counted ok ∷ []) (log_line ok ∷ []))
      go (events, failed code) p =
          ground
            (arith, p, append_assoc events (in_flight_dec ∷ counted code ∷ []) (log_line code ∷ []))
      go (events, panicked) p = ground (arith, p)
