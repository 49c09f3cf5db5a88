-- ===== src/Rpc.antt =====
-- The interceptors of the gRPC server, pkg/rpc/interceptors: recovery.go, logging.go and metrics.go.
-- What a call does is its trace: the lines logged and the changes of the metrics, in order, and how
-- it ends. Times and labels are left out.
pub mod Stack
pub mod Wiring
mod Tests
use gkit_go.Prelude.{Bool, true, false, Option, none, some, List, [], ◌∷◌, ◌++◌, if◌then◌else◌}

-- `codes.Code`
pub data Code : Type 0 where
  ok canceled unknown invalid_argument deadline_exceeded not_found already_exists : Code
  permission_denied resource_exhausted failed_precondition aborted out_of_range : Code
  unimplemented internal unavailable data_loss unauthenticated : Code

-- `isServerError`
unfoldable pub is_server_error : Code → Bool
is_server_error ok = false
is_server_error canceled = false
is_server_error invalid_argument = false
is_server_error not_found = false
is_server_error already_exists = false
is_server_error permission_denied = false
is_server_error unauthenticated = false
is_server_error resource_exhausted = false
is_server_error failed_precondition = false
is_server_error aborted = false
is_server_error out_of_range = false
is_server_error _ = true

pub data Event : Type 0 where
  in_flight_inc : Event
  in_flight_dec : Event
  counted : Code → Event
  logged_debug : Code → Event
  logged_error : Code → Event
  panic_logged : Event

-- How a handler ends: with a response, an error, by the code of its status, or a panic.
pub data Ending (A : Type 0) : Type 0 where
  replied : A → Ending A
  failed : Code → Ending A
  panicked : Ending A

-- A handler, on requests of type `R`.
abbrev pub Handler : Type 0 → Type 0 → Type 0
Handler R A = R → List Event × Ending A

abbrev and_after :
    {A : Type 0} → List Event × Ending A → (Code → List Event) → List Event × Ending A
and_after (events, replied a) after = (events ++ after ok, replied a)
and_after (events, failed code) after = (events ++ after code, failed code)
and_after (events, panicked) after = (events, panicked)

module _ {R A : Type 0} where
  -- `Recovery`
  unfoldable pub recovery : Handler R A → Handler R A
  recovery handler req =
      let (events, ending) = handler req in
      elim ending [
        | replied a ↦ (events, replied a)
        | failed code ↦ (events, failed code)
        | panicked ↦ (events ++ panic_logged ∷ [], failed internal)
      ]

  -- `Logging`
  unfoldable pub logging : Handler R A → Handler R A
  unfolding is_server_error
  logging handler req =
      and_after (handler req)
        (λ code. (if is_server_error code then logged_error code else logged_debug code) ∷ [])

  -- `UnaryInterceptor`
  unfoldable pub metrics : Handler R A → Handler R A
  metrics handler req =
      let (events, ending) = handler req in
      and_after (in_flight_inc ∷ events, ending) (λ code. in_flight_dec ∷ counted code ∷ [])

-- The interceptors of streams: a handler of a stream has no response.
module _ {R : Type 0} where
  -- `StreamRecovery`
  unfoldable pub stream_recovery : Handler R Unit → Handler R Unit
  unfolding recovery
  stream_recovery handler = recovery handler

  -- `StreamLogging`
  unfoldable pub stream_logging : Handler R Unit → Handler R Unit
  unfolding logging
  stream_logging handler = logging handler

  -- `StreamInterceptor`
  unfoldable pub stream_metrics : Handler R Unit → Handler R Unit
  unfolding metrics
  stream_metrics handler = metrics handler
