-- ===== src/Middleware/Handlers/Statuses.antt =====
-- The status that is logged, and the status that is sent (pkg/middleware/logging.go, recovery.go and
-- metrics.go).
use gkit_go.Prelude.{
  ◌≡◌, refl, ◌∙◌, ℕ, ◌+◌, true, false, Option, none, some, List, [], ◌∷◌, ◌++◌, arith,
}
use gkit_go.Middleware.Handlers.{
  Request, error, Event, write_header, write, logged, panic_logged, in_flight_inc, in_flight_dec,
  counted, Ending, returned, panicked, Handler, ResponseWriter, wrap_response_writer, call_writer,
  through_writer, level_of, logging, http_error, recovery, metrics,
}

-- The status that net/http sends: that of the first header, or 200 with the first bytes.
abbrev pub sent_status : List Event → Option ℕ
sent_status [] = none
sent_status (write_header code ∷ events) = some code
sent_status (write n ∷ events) = some 200
sent_status (e ∷ events) = sent_status events

-- A return without either sends 200.
abbrev pub or_200 : Option ℕ → ℕ
or_200 none = 200
or_200 (some code) = code

abbrev pub NoHeader : List Event → Type 0
NoHeader [] = Unit
NoHeader (write_header code ∷ events) = ⊥
NoHeader (e ∷ events) = NoHeader events

-- No header after bytes that no header came before.
abbrev pub IsOrdered : List Event → Type 0
IsOrdered [] = Unit
IsOrdered (write_header code ∷ events) = Unit
IsOrdered (write n ∷ events) = NoHeader events
IsOrdered (e ∷ events) = IsOrdered events

written-status :
    (events : List Event) (rw : ResponseWriter)
    → rw.wrote_header ≡ true
    → (through_writer events rw).0.status ≡ rw.status
unfolding through_writer call_writer
written-status [] rw h = refl
written-status (write_header code ∷ events) rw h = ground (arith, h, written-status events rw h)
written-status (write n ∷ events) rw h =
    written-status events (record rw { bytes = rw.bytes + n }) h
written-status (e ∷ events) rw h = ground (arith, written-status events rw h)

headless-status :
    (events : List Event) (rw : ResponseWriter)
    → NoHeader events
    → (through_writer events rw).0.status ≡ rw.status
unfolding through_writer call_writer
headless-status [] rw h = refl
headless-status (write_header code ∷ events) rw h = elim h [ ]
headless-status (write n ∷ events) rw h =
    headless-status events (record rw { bytes = rw.bytes + n }) h
headless-status (e ∷ events) rw h = ground (arith, h, headless-status events rw)

ordered-status :
    (events : List Event) (rw : ResponseWriter)
    → rw.wrote_header ≡ false
    → rw.status ≡ 200
    → IsOrdered events
    → (through_writer events rw).0.status ≡ or_200 (sent_status events)
unfolding through_writer call_writer
ordered-status [] rw w s h = s
ordered-status (write_header code ∷ events) rw w s h =
    ground (arith, w, written-status events (record rw { status = code; wrote_header = true }) refl)
ordered-status (write n ∷ events) rw w s h =
    headless-status events (record rw { bytes = rw.bytes + n }) h ∙ s
ordered-status (e ∷ events) rw w s h = ground (arith, h, ordered-status events rw w s)

through-sent_status :
    (events : List Event) (rw : ResponseWriter)
    → rw.wrote_header ≡ false
    → sent_status (through_writer events rw).1 ≡ sent_status events
unfolding through_writer call_writer
through-sent_status [] rw w = refl
through-sent_status (write_header code ∷ events) rw w = ground (arith, w)
through-sent_status (write n ∷ events) rw w = refl
through-sent_status (e ∷ events) rw w = ground (arith, through-sent_status events rw w)

-- What the client gets and what is logged: a trace that ends with the line for the status sent.
abbrev pub LogsSent : Request → List Event → List Event × Ending → Type 0
LogsSent r events result =
    (sent : List Event) × (bytes : ℕ) × (result ≡ (
      sent
          ++ logged (level_of (or_200 (sent_status events))) (or_200 (sent_status events)) bytes
              r.context_id
            ∷ [],
      returned,
    ))
    × (sent_status sent ≡ sent_status events)

-- For a handler that returns, and writes no header after bytes that no header came before, Logging
-- lets what is sent first through and then logs the status that net/http sends, at its level.
logging-sent_status :
    (next : Handler) (r : Request) (events : List Event)
    → next r ≡ (events, returned)
    → IsOrdered events
    → LogsSent r events (logging next r)
unfolding logging wrap_response_writer
logging-sent_status next r events p h = (
  (through_writer events wrap_response_writer).1,
  (through_writer events wrap_response_writer).0.bytes,
  ground (arith, p, ordered-status events wrap_response_writer refl refl h),
  through-sent_status events wrap_response_writer refl,
)

unsent-IsOrdered :
    (events rest : List Event) (code : ℕ)
    → sent_status events ≡ none
    → IsOrdered (events ++ panic_logged ∷ write_header code ∷ rest)
unsent-IsOrdered [] rest code h = tt
unsent-IsOrdered (write_header c ∷ events) rest code h = tt
unsent-IsOrdered (write n ∷ events) rest code h = cc
unsent-IsOrdered (e ∷ events) rest code h = ground (arith, h, unsent-IsOrdered events rest code)

unsent-status :
    (events rest : List Event) (code : ℕ)
    → sent_status events ≡ none
    → sent_status (events ++ panic_logged ∷ write_header code ∷ rest) ≡ some code
unsent-status [] rest code h = refl
unsent-status (write_header c ∷ events) rest code h = cc
unsent-status (write n ∷ events) rest code h = cc
unsent-status (e ∷ events) rest code h = ground (arith, h, unsent-status events rest code)

-- A handler that panics before it has sent anything, behind Recovery and Logging: the panic does not
-- go on, the client gets 500, and the request is logged as an error with that status.
pub logging-recovery :
    (next : Handler) (r : Request) (events : List Event)
    → next r ≡ (events, panicked)
    → sent_status events ≡ none
    → (sent : List Event) × (bytes : ℕ) × (logging (recovery next) r
        ≡ (sent ++ logged error 500 bytes r.context_id ∷ [], returned))
      × (sent_status sent ≡ some 500)
unfolding recovery level_of
logging-recovery next r events p h =
    let all : List Event = events ++ panic_logged ∷ http_error 21 500 in
    let status = unsent-status events (write 22 ∷ []) 500 h in
    let (sent, bytes, e, q) =
      logging-sent_status (recovery next) r all (ground (arith, p))
        (unsent-IsOrdered events (write 22 ∷ []) 500 h) in
    (sent, bytes, ground (arith, e, status), q ∙ status)

-- The changes of the gauge of the requests in flight, up and down.
abbrev pub ups : List Event → ℕ
ups [] = 0
ups (in_flight_inc ∷ events) = 1 + ups events
ups (e ∷ events) = ups events

abbrev pub downs : List Event → ℕ
downs [] = 0
downs (in_flight_dec ∷ events) = 1 + downs events
downs (e ∷ events) = downs events

through-gauge :
    (events : List Event) (rw : ResponseWriter)
    → (ups (through_writer events rw).1 ≡ ups events)
      × (downs (through_writer events rw).1 ≡ downs events)
unfolding through_writer call_writer
through-gauge [] rw = (refl, refl)
through-gauge (write_header code ∷ events) rw = ground (
  arith,
  through-gauge events rw,
  through-gauge events (record rw { status = code; wrote_header = true }),
)
through-gauge (write n ∷ events) rw = through-gauge events (record rw { bytes = rw.bytes + n })
through-gauge (e ∷ events) rw = ground (arith, through-gauge events rw)

ups-append : (xs ys : List Event) → ups (xs ++ ys) ≡ ups xs + ups ys
ups-append [] ys = omega arith
ups-append (e ∷ xs) ys = ground (arith, ups-append xs ys)

downs-append : (xs ys : List Event) → downs (xs ++ ys) ≡ downs xs + downs ys
downs-append [] ys = omega arith
downs-append (e ∷ xs) ys = ground (arith, downs-append xs ys)

abbrev pub if_returned : Ending → ℕ
if_returned returned = 1
if_returned panicked = 0

-- The metrics raise the gauge of the requests in flight once, and lower it once if the handler
-- returns, but not if it panics.
metrics-gauge :
    (next : Handler) (r : Request)
    → (ups (metrics next r).0 ≡ 1 + ups (next r).0)
      × (downs (metrics next r).0 ≡ downs (next r).0 + if_returned (next r).1)
unfolding metrics
metrics-gauge next r = go (next r) refl
  where
    go :
        (t : List Event × Ending)
        → next r ≡ t
        → (ups (metrics next r).0 ≡ 1 + ups (next r).0)
          × (downs (metrics next r).0 ≡ downs (next r).0 + if_returned (next r).1)
    go (events, panicked) p = ground (arith, p, through-gauge events wrap_response_writer)
    go (events, returned) p =
        let (rw, sent) = through_writer events wrap_response_writer in
        let after : List Event = in_flight_dec ∷ counted rw.status rw.bytes ∷ [] in
        ground (
          arith,
          p,
          through-gauge events wrap_response_writer,
          ups-append (in_flight_inc ∷ sent) after,
          downs-append (in_flight_inc ∷ sent) after,
        )
