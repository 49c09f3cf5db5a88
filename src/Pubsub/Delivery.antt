-- ===== src/Pubsub/Delivery.antt =====
-- What one subscription does with the events published to it (pkg/pubsub/bus.go).
use gkit_go.Prelude.{
  ℕ, ◌+◌, ◌≤◌, ◌≡◌, refl, subst, ◌∙◌, Bool, true, Option, none, some, List, [], ◌∷◌, ◌++◌, arith,
  length, append_assoc,
}
use gkit_go.Pubsub.Subscriber.{
  Dispatch, idle, waiting, busy, ended, Subscriber, Action, offered, moved, Move, received, blocked,
  finished, left, cancelling, closing, new_subscriber, receive, block, finish, leave, cancel, close,
  move, step, run,
}
use gkit_go.Pubsub.Sending.{current, offers, IsFifo, met, publish_to-IsFifo, publish_to-met}

module _ {K P : Type 0} where
  -- A step of the goroutine keeps what the invariant says, and meets no event.
  abbrev pub Kept : Subscriber K P → Subscriber K P → Type 0
  Kept s s' = IsFifo s' × (met s' ≡ met s)

  receive-Kept :
      (s s' : Subscriber K P) (xs : List P) (d : Dispatch P)
      → IsFifo s
      → s.queue ≡ xs
      → s.dispatch ≡ d
      → receive xs d s ≡ some s'
      → Kept s s'
  unfolding receive
  receive-Kept s s' (x ∷ xs) idle h q e r =
      let k : Kept s (record s { queue = xs; dispatch = busy x }) = (
        record {
          order = (let o = h.order in ground (arith, o, q, e));
          bound = (let l = h.bound in ground (arith, l, q));
          empty = λ w. absurd (ground (arith, w));
        },
        refl,
      ) in
      subst (Kept s) (ground (arith, r)) k
  receive-Kept s s' [] d h q e r = absurd (ground (arith, r))
  receive-Kept s s' (x ∷ xs) d h q e r = absurd (ground (arith, r))

  block-Kept :
      (s s' : Subscriber K P) (xs : List P) (d : Dispatch P)
      → IsFifo s
      → s.queue ≡ xs
      → s.dispatch ≡ d
      → block xs d s ≡ some s'
      → Kept s s'
  unfolding block
  block-Kept s s' [] idle h q e r =
      let k : Kept s (record s { dispatch = waiting }) = (
        record {
          order = (let o = h.order in ground (arith, o, q, e));
          bound = h.bound;
          empty = λ w. q;
        },
        refl,
      ) in
      subst (Kept s) (ground (arith, r)) k
  block-Kept s s' [] d h q e r = absurd (ground (arith, r))
  block-Kept s s' (x ∷ xs) d h q e r = absurd (ground (arith, r))

  finish-Kept :
      (s s' : Subscriber K P) (d : Dispatch P)
      → IsFifo s
      → s.dispatch ≡ d
      → finish d s ≡ some s'
      → Kept s s'
  unfolding finish
  finish-Kept s s' (busy x) h e r =
      let k : Kept s (record s { dispatch = idle; handled = s.handled ++ x ∷ [] }) = (
        record {
          order =
              append_assoc s.handled (x ∷ []) s.queue ∙ (let o = h.order in ground (arith, o, e));
          bound = h.bound;
          empty = λ w. absurd (ground (arith, w));
        },
        refl,
      ) in
      subst (Kept s) (ground (arith, r)) k
  finish-Kept s s' d h e r = absurd (ground (arith, r))

  left-Kept :
      (s : Subscriber K P)
      → IsFifo s
      → current s.dispatch ≡ []
      → Kept s (record s { dispatch = ended })
  left-Kept s h e = (
    record {
      order = (let o = h.order in ground (arith, o, e));
      bound = h.bound;
      empty = λ w. absurd (ground (arith, w));
    },
    refl,
  )

  leave-Kept :
      (s s' : Subscriber K P) (xs : List P) (d : Dispatch P)
      → IsFifo s
      → s.dispatch ≡ d
      → leave xs d s ≡ some s'
      → Kept s s'
  unfolding leave
  leave-Kept s s' xs (busy x) h e r = absurd (ground (arith, r))
  leave-Kept s s' xs ended h e r = absurd (ground (arith, r))
  leave-Kept s s' [] idle h e r =
      subst (Kept s) (ground (arith, r)) (left-Kept s h (ground (arith, e)))
  leave-Kept s s' (x ∷ xs) idle h e r =
      subst (Kept s) (ground (arith, r)) (left-Kept s h (ground (arith, e)))
  leave-Kept s s' [] waiting h e r =
      subst (Kept s) (ground (arith, r)) (left-Kept s h (ground (arith, e)))
  leave-Kept s s' (x ∷ xs) waiting h e r =
      subst (Kept s) (ground (arith, r)) (left-Kept s h (ground (arith, e)))

  pub move-Kept : (m : Move) (s s' : Subscriber K P) → IsFifo s → move m s ≡ some s' → Kept s s'
  unfolding move
  move-Kept received s s' h r = receive-Kept s s' s.queue s.dispatch h refl refl r
  move-Kept blocked s s' h r = block-Kept s s' s.queue s.dispatch h refl refl r
  move-Kept finished s s' h r = finish-Kept s s' s.dispatch h refl r
  move-Kept left s s' h r = leave-Kept s s' s.queue s.dispatch h refl r

  cancel-Kept : (s : Subscriber K P) → IsFifo s → Kept s (cancel s)
  unfolding cancel
  cancel-Kept s h = (record { order = h.order; bound = h.bound; empty = h.empty }, refl)

  closed-Kept : (s : Subscriber K P) → IsFifo s → Kept s (record s { closed = true })
  closed-Kept s h = (record { order = h.order; bound = h.bound; empty = h.empty }, refl)

  step-IsFifo :
      (a : Action P) (s s' : Subscriber K P)
      → IsFifo s
      → step a s ≡ some s'
      → IsFifo s' × (met s' ≡ met s + offers (a ∷ []))
  unfolding step close
  step-IsFifo (offered x) s s' h e =
      subst (λ (t : Subscriber K P). IsFifo t × (met t ≡ met s + 1)) (ground (arith, e))
        (publish_to-IsFifo x s h, publish_to-met x s)
  step-IsFifo (moved m) s s' h e =
      ((move-Kept m s s' h e).0, ground (arith, (move-Kept m s s' h e).1))
  step-IsFifo cancelling s s' h e =
      subst (λ (t : Subscriber K P). IsFifo t × (met t ≡ met s + 0)) (ground (arith, e))
        ((cancel-Kept s h).0, ground (arith, (cancel-Kept s h).1))
  step-IsFifo closing s s' h e =
      subst (λ (t : Subscriber K P). IsFifo t × (met t ≡ met s + 0)) (ground (arith, e))
        ((closed-Kept s h).0, ground (arith, (closed-Kept s h).1))

  run-IsFifo :
      (actions : List (Action P)) (s s' : Subscriber K P)
      → IsFifo s
      → run actions s ≡ some s'
      → IsFifo s' × (met s' ≡ met s + offers actions)
  unfolding run
  run-IsFifo [] s s' h e = ground (arith, h, e)
  run-IsFifo (a ∷ actions) s s' h e = stepped (step a s) refl (λ t. run-IsFifo actions t s')
    where
      stepped :
          (r : Option (Subscriber K P))
          → step a s ≡ r
          → ((t : Subscriber K P)
              → IsFifo t
              → run actions t ≡ some s'
              → IsFifo s' × (met s' ≡ met t + offers actions))
          → IsFifo s' × (met s' ≡ met s + offers (a ∷ actions))
      stepped none q next = absurd (ground (arith, q, e))
      stepped (some t) q next =
          let (k, m) = step-IsFifo a s t h q in
          let (k', m') = next t k (ground (arith, q, e)) in (k', m' ∙ sum a m)
        where
          sum :
              (b : Action P)
              → met t ≡ met s + offers (b ∷ [])
              → met t + offers actions ≡ met s + offers (b ∷ actions)
          sum (offered x) p = omega (arith, p)
          sum (moved m) p = omega (arith, p)
          sum cancelling p = omega (arith, p)
          sum closing p = omega (arith, p)

  new-IsFifo : (topic : K) (accepts : P → Bool) (n : ℕ) → IsFifo (new_subscriber topic accepts n)
  unfolding new_subscriber
  new-IsFifo topic accepts n = record { order = refl; bound = omega arith; empty = λ e. refl }

  -- Whatever the publishers, the dispatch goroutine and unsubscribe do with a new subscription, in
  -- whatever order: the events accepted are those handled, then the one in the handler, then those
  -- queued, in the order in which they were published; the queue stays within its capacity; and
  -- every event published was accepted, was dropped or made its publisher panic.
  pub run-Delivers :
      (topic : K) (accepts : P → Bool) (n : ℕ) (actions : List (Action P)) (s : Subscriber K P)
      → run actions (new_subscriber topic accepts n) ≡ some s
      → (s.handled ++ (current s.dispatch ++ s.queue) ≡ s.accepted)
        × ((length s.queue ≤ s.capacity)
            × (length s.accepted + s.dropped + s.panics ≡ offers actions))
  unfolding new_subscriber
  run-Delivers topic accepts n actions s e =
      let (h, m) =
        run-IsFifo actions (new_subscriber topic accepts n) s (new-IsFifo topic accepts n) e in
      (h.order, (h.bound, omega (arith, m)))
