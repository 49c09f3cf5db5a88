-- ===== src/Pubsub/Sending.antt =====
-- The invariant of a subscription, and that a publisher keeps it (pkg/pubsub/bus.go).
use gkit_go.Prelude.{
  ℕ, ◌+◌, ◌≤◌, ◌<◌, ◌≢◌, ◌≡◌, refl, sym, ap, ◌∙◌, List, [], ◌∷◌, ◌++◌, arith, length, length-append,
  append-nil, append_assoc,
}
use gkit_go.Pubsub.Subscriber.{
  Dispatch, idle, waiting, busy, ended, Subscriber, Action, offered, moved, cancelling, closing,
  send, publish_to,
}

-- The event in the handler.
abbrev pub current : {P : Type 0} → Dispatch P → List P
current idle = []
current waiting = []
current (busy x) = x ∷ []
current ended = []

-- How many events a schedule publishes.
abbrev pub offers : {P : Type 0} → List (Action P) → ℕ
offers [] = 0
offers (offered x ∷ actions) = offers actions + 1
offers (moved m ∷ actions) = offers actions
offers (cancelling ∷ actions) = offers actions
offers (closing ∷ actions) = offers actions

-- An event more at the end of the queue.
queued_end :
    {P : Type 0} (hs cs queue accepted : List P) (x : P)
    → hs ++ (cs ++ queue) ≡ accepted
    → hs ++ (cs ++ (queue ++ x ∷ [])) ≡ accepted ++ x ∷ []
queued_end hs cs queue accepted x e =
    ap (λ ys. hs ++ ys) (sym (append_assoc cs queue (x ∷ [])))
    ∙ sym (append_assoc hs (cs ++ queue) (x ∷ []))
    ∙ ap (λ ys. ys ++ x ∷ []) e

module _ {K P : Type 0} where
  -- The events accepted are those handled, the one in the handler and those queued, in this order;
  -- the queue is within its capacity, and empty where the goroutine waits for it.
  pub record IsFifo (s : Subscriber K P) : Type 0 where
    pub order : s.handled ++ (current s.dispatch ++ s.queue) ≡ s.accepted
    pub bound : length s.queue ≤ s.capacity
    pub empty : s.dispatch ≡ waiting → s.queue ≡ []

  -- How many events a subscription has met.
  abbrev pub met : Subscriber K P → ℕ
  met s = length s.accepted + s.dropped + s.panics

  queued-IsFifo :
      (x : P) (s : Subscriber K P)
      → IsFifo s
      → s.dispatch ≢ waiting
      → length s.queue < s.capacity
      → IsFifo (record s { queue = s.queue ++ x ∷ []; accepted = s.accepted ++ x ∷ [] })
  queued-IsFifo x s h n l = record {
    order = queued_end s.handled (current s.dispatch) s.queue s.accepted x h.order;
    bound = omega (arith, length-append s.queue (x ∷ []), l);
    empty = λ e. absurd (n e);
  }

  dropped-IsFifo : (s : Subscriber K P) → IsFifo s → IsFifo (record s { dropped = s.dropped + 1 })
  dropped-IsFifo s h = record { order = h.order; bound = h.bound; empty = h.empty }

  panicked-IsFifo : (s : Subscriber K P) → IsFifo s → IsFifo (record s { panics = s.panics + 1 })
  panicked-IsFifo s h = record { order = h.order; bound = h.bound; empty = h.empty }

  handed-IsFifo :
      (x : P) (s : Subscriber K P)
      → IsFifo s
      → s.dispatch ≡ waiting
      → IsFifo (record s { dispatch = busy x; accepted = s.accepted ++ x ∷ [] })
  handed-IsFifo x s h w =
      let q = h.empty w in
      let o : s.handled ≡ s.accepted =
        (sym (append-nil s.handled) ∙ (let e = h.order in ground (arith, e, w, q))) in
      record {
        order = ground (arith, o, q);
        bound = h.bound;
        empty = λ e. absurd (ground (arith, e));
      }

  send-IsFifo :
      (x : P) (s : Subscriber K P) (d : Dispatch P)
      → IsFifo s
      → s.dispatch ≡ d
      → IsFifo (send x d s)
  unfolding send
  send-IsFifo x s waiting h e = handed-IsFifo x s h e
  send-IsFifo x s idle h e =
      ground (arith, queued-IsFifo x s h (λ w. ground (arith, e, w)), dropped-IsFifo s h)
  send-IsFifo x s (busy y) h e =
      ground (arith, queued-IsFifo x s h (λ w. ground (arith, e, w)), dropped-IsFifo s h)
  send-IsFifo x s ended h e =
      ground (arith, queued-IsFifo x s h (λ w. ground (arith, e, w)), dropped-IsFifo s h)

  pub publish_to-IsFifo : (x : P) (s : Subscriber K P) → IsFifo s → IsFifo (publish_to x s)
  unfolding publish_to
  publish_to-IsFifo x s h = ground (arith, send-IsFifo x s s.dispatch h refl, panicked-IsFifo s h)

  send-met : (x : P) (s : Subscriber K P) (d : Dispatch P) → met (send x d s) ≡ met s + 1
  unfolding send
  send-met x s idle = ground (arith, length-append s.accepted (x ∷ []))
  send-met x s waiting = ground (arith, length-append s.accepted (x ∷ []))
  send-met x s (busy y) = ground (arith, length-append s.accepted (x ∷ []))
  send-met x s ended = ground (arith, length-append s.accepted (x ∷ []))

  pub publish_to-met : (x : P) (s : Subscriber K P) → met (publish_to x s) ≡ met s + 1
  unfolding publish_to
  publish_to-met x s = ground (arith, send-met x s s.dispatch)
