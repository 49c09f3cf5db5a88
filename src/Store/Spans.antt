-- ===== src/Store/Spans.antt =====
-- The query helpers of pkg/store/store.go with their spans: what a call does is the list of what it
-- tells the tracer, its error, if any, and what it does to the world `W`. Attributes are left out.
use gkit_go.Prelude.{
  ℕ, zero, suc, ◌+◌, ◌≡◌, refl, Bool, true, false, Option, none, some, List, [], ◌∷◌, ◌++◌,
}

-- The operation that a span is named for.
pub data Operation : Type 0 where
  exec_op : Operation
  query_op : Operation
  query_row_op : Operation
  statement_op : Operation  -- of the tracer of the driver

pub data Event : Type 0 where
  started : Operation → Event
  errored : Event
  ended : Event

-- `recordSpanError`
unfoldable pub record_span_error : {E : Type 0} → Option E → List Event
record_span_error none = []
record_span_error (some e) = errored ∷ []

-- `TraceQueryStart`: the span is in the context that it returns.
unfoldable pub trace_query_start : List Event × Bool
trace_query_start = (started statement_op ∷ [], true)

-- `TraceQueryEnd`, of a context with a span or without.
unfoldable pub trace_query_end : {E : Type 0} → Bool → Option E → List Event
trace_query_end false err = []
trace_query_end true none = ended ∷ []
trace_query_end true (some e) = errored ∷ ended ∷ []

module _ {W E : Type 0} where
  -- `Exec` and `Query`, by the operation.
  unfoldable pub call_with_span : Operation → (W → Option E × W) → W → List Event × (Option E × W)
  unfolding record_span_error
  call_with_span op run w =
      let (err, w') = run w in (started op ∷ record_span_error err ++ ended ∷ [], (err, w'))

  unfoldable pub exec : (W → Option E × W) → W → List Event × (Option E × W)
  unfolding call_with_span
  exec run w = call_with_span exec_op run w

  unfoldable pub query : (W → Option E × W) → W → List Event × (Option E × W)
  unfolding call_with_span
  query run w = call_with_span query_op run w

  -- `QueryRow`, whose error comes with the scan of the row, after the end of its span.
  unfoldable pub query_row : (W → Option E × W) → W → List Event × (Option E × W)
  query_row run w = (started query_row_op ∷ ended ∷ [], run w)

-- How many spans are open after the events, and how many errors they record; `none` is an end of no
-- span.
abbrev pub open_after : List Event → ℕ → Option ℕ
open_after [] n = some n
open_after (started op ∷ events) n = open_after events (suc n)
open_after (errored ∷ events) zero = none
open_after (errored ∷ events) (suc n) = open_after events (suc n)
open_after (ended ∷ events) zero = none
open_after (ended ∷ events) (suc n) = open_after events n

abbrev pub errors_in : List Event → ℕ
errors_in [] = 0
errors_in (started op ∷ events) = errors_in events
errors_in (errored ∷ events) = errors_in events + 1
errors_in (ended ∷ events) = errors_in events

-- Whatever a statement does: Exec, Query and QueryRow each end the span that they start, and return
-- the error and the world of the statement; and so does the pair of methods that the driver calls
-- around a statement.
pub helpers-Balanced :
    {W E : Type 0} (run : W → Option E × W) (w : W) (n : ℕ)
    → ((open_after (exec run w).0 n ≡ some n) × ((exec run w).1 ≡ run w))
      × (((open_after (query run w).0 n ≡ some n) × ((query run w).1 ≡ run w))
          × (((open_after (query_row run w).0 n ≡ some n) × ((query_row run w).1 ≡ run w))
              × (open_after (trace_query_start.0 ++ trace_query_end trace_query_start.1 (run w).0) n
                  ≡ some n)))
unfolding exec query query_row call_with_span record_span_error trace_query_start trace_query_end
helpers-Balanced {W = W} {E = E} run w n = ended_with (run w).0 refl
  where
    Goal : Type 0
    Goal =
        ((open_after (exec run w).0 n ≡ some n) × ((exec run w).1 ≡ run w))
        × (((open_after (query run w).0 n ≡ some n) × ((query run w).1 ≡ run w))
            × (((open_after (query_row run w).0 n ≡ some n) × ((query_row run w).1 ≡ run w))
                × (open_after (trace_query_start.0 ++ trace_query_end trace_query_start.1 (run w).0)
                      n
                    ≡ some n)))

    ended_with : (err : Option E) → (run w).0 ≡ err → Goal
    ended_with none q = rw (q) ((refl, refl), ((refl, refl), ((refl, refl), refl)))
    ended_with (some e) q = rw (q) ((refl, refl), ((refl, refl), ((refl, refl), refl)))
