-- ===== src/Middleware/Handlers.antt =====
-- The middlewares of pkg/middleware: logging.go, recovery.go, requestid.go, timeout.go and
-- metrics.go. What a handler does is its trace: the calls of the writer, the lines logged and the
-- changes of the metrics, in order, and whether it returns or panics.
pub mod Statuses
use gkit_go.Prelude.{
  ℕ, zero, suc, ◌+◌, ◌-◌, Bool, true, false, Option, none, some, List, [], ◌∷◌, ◌++◌, leb, ltb, min,
  if◌then◌else◌,
}

-- The parts of a request that the middlewares read; 0 is the empty text of an id.
pub record Request : Type 0 where
  pub header_id : ℕ
  pub context_id : ℕ
  pub deadline : Option ℕ

pub data Level : Type 0 where
  info warn error : Level

pub data Event : Type 0 where
  write_header : ℕ → Event  -- the calls of the ResponseWriter
  write : ℕ → Event  -- the number of bytes
  set_id : ℕ → Event
  logged : Level → ℕ → ℕ → ℕ → Event  -- the status, the bytes and the id
  panic_logged : Event
  in_flight_inc : Event
  in_flight_dec : Event
  counted : ℕ → ℕ → Event  -- the status and the bytes

pub data Ending : Type 0 where
  returned : Ending
  panicked : Ending

abbrev pub Handler : Type 0
Handler = Request → List Event × Ending

-- `responseWriter`
pub record ResponseWriter : Type 0 where
  pub status : ℕ
  pub wrote_header : Bool
  pub bytes : ℕ

-- `wrapResponseWriter`
unfoldable pub wrap_response_writer : ResponseWriter
wrap_response_writer = record { status = 200; wrote_header = false; bytes = 0 }

-- `WriteHeader` and `Write`: the writer after the call, and what goes to the writer that it wraps.
unfoldable pub call_writer : Event → ResponseWriter → ResponseWriter × List Event
call_writer (write_header code) rw =
    if rw.wrote_header
    then (rw, [])
    else (record rw { status = code; wrote_header = true }, write_header code ∷ [])
call_writer (write n) rw = (record rw { bytes = rw.bytes + n }, write n ∷ [])
call_writer e rw = (rw, e ∷ [])

-- A trace through the wrapped writer.
unfoldable pub through_writer : List Event → ResponseWriter → ResponseWriter × List Event
unfolding call_writer
through_writer [] rw = (rw, [])
through_writer (e ∷ events) rw =
    let (rw', sent) = call_writer e rw in
    let (rw'', rest) = through_writer events rw' in (rw'', sent ++ rest)

unfoldable pub level_of : ℕ → Level
level_of status = if leb 500 status then error else (if leb 400 status then warn else info)

-- A handler that goes on with `after` where the next one returns, not where it panics.
abbrev and_after : List Event → Ending → List Event → List Event × Ending
and_after events returned after = (events ++ after, returned)
and_after events panicked after = (events, panicked)

-- `Logging`
unfoldable pub logging : Handler → Handler
unfolding wrap_response_writer through_writer level_of
logging next r =
    let (events, ending) = next r in
    let (rw, sent) = through_writer events wrap_response_writer in
    and_after sent ending (logged (level_of rw.status) rw.status rw.bytes r.context_id ∷ [])

-- `http.Error` with a text of `length` bytes, and the new line.
abbrev pub http_error : ℕ → ℕ → List Event
http_error length code = write_header code ∷ write (length + 1) ∷ []

-- `Recovery`
unfoldable pub recovery : Handler → Handler
recovery next r =
    let (events, ending) = next r in
    elim ending [
      | returned ↦ (events, returned)
      | panicked ↦ (events ++ panic_logged ∷ http_error 21 500, returned)
    ]

-- The id of the header, or a fresh one.
unfoldable pub chosen_id : ℕ → ℕ → ℕ
chosen_id fresh zero = fresh
chosen_id fresh (suc n) = suc n

-- `RequestID`; `fresh` is the random id.
unfoldable pub request_id : ℕ → Handler → Handler
unfolding chosen_id
request_id fresh next r =
    let id = chosen_id fresh r.header_id in
    let (events, ending) = next (record r { context_id = id }) in (set_id id ∷ events, ending)

abbrev earlier : Option ℕ → ℕ → Option ℕ
earlier none t = some t
earlier (some d) t = some (min d t)

-- `Timeout`; the deadline of a context does not move later.
unfoldable pub timeout : ℕ → ℕ → Handler → Handler
timeout now d next r = next (record r { deadline = earlier r.deadline (now + d) })

-- `RateLimit`
unfoldable pub rate_limit : (Request → Bool) → Handler → Handler
rate_limit allow next r = if allow r then next r else (http_error 19 429, returned)

-- `HTTPMetrics.Middleware`; the times and the labels are left out.
unfoldable pub metrics : Handler → Handler
unfolding wrap_response_writer through_writer
metrics next r =
    let (events, ending) = next r in
    let (rw, sent) = through_writer events wrap_response_writer in
    and_after (in_flight_inc ∷ sent) ending (in_flight_dec ∷ counted rw.status rw.bytes ∷ [])
