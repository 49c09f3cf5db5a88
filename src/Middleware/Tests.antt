-- ===== src/Middleware/Tests.antt =====
-- The chain and the middlewares at concrete inputs (pkg/middleware).
use Prim.Native.String.{String}
use gkit_go.Prelude.{◌≡◌, refl, ℕ, none, some, List, [], ◌∷◌, ◌++◌, false}
use gkit_go.Middleware.Handlers.{
  Request, warn, error, Event, write_header, write, set_id, logged, panic_logged, returned,
  panicked, Handler, logging, recovery, request_id, chosen_id, rate_limit, wrap_response_writer,
  call_writer, through_writer, level_of,
}
use gkit_go.Middleware.Handlers.Statuses.{logging-recovery, sent_status}

abbrev labels : List (String × String)
labels = ("A-in", "A-out") ∷ ("B-in", "B-out") ∷ []

abbrev request : Request
request = record { header_id = 0; context_id = 0; deadline = none }

abbrev missing : Handler
missing r = (write_header 404 ∷ write 10 ∷ write_header 500 ∷ [], returned)

abbrev crashing : Handler
crashing r = (set_id 4 ∷ [], panicked)

-- A handler that panics after its first bytes.
abbrev late_crash : Handler
late_crash r = (write 5 ∷ [], panicked)

stack_runs :
    request_id 7 (logging missing) request
    ≡ (set_id 7 ∷ write_header 404 ∷ write 10 ∷ logged warn 404 10 7 ∷ [], returned)
unfolding request_id chosen_id logging wrap_response_writer through_writer call_writer level_of
stack_runs = refl

-- The client has 200, and the line says 500.
late_crash_runs :
    logging (recovery late_crash) request
    ≡ (write 5 ∷ panic_logged ∷ write_header 500 ∷ write 22 ∷ logged error 500 27 0 ∷ [], returned)
unfolding recovery logging wrap_response_writer through_writer call_writer level_of
late_crash_runs = refl

limited : rate_limit (λ r. false) missing request ≡ (write_header 429 ∷ write 20 ∷ [], returned)
unfolding rate_limit
limited = refl

logging-recovery_example :
    (sent : List Event) × (bytes : ℕ) × (logging (recovery crashing) request
      ≡ (sent ++ logged error 500 bytes 0 ∷ [], returned))
    × (sent_status sent ≡ some 500)
logging-recovery_example = logging-recovery crashing request (set_id 4 ∷ []) refl refl
