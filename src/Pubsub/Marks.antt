-- ===== src/Pubsub/Marks.antt =====
-- What the steps of a subscription leave as it was (pkg/pubsub/bus.go).
use gkit_go.Prelude.{◌≡◌, some, List, [], ◌∷◌, arith}
use gkit_go.Pubsub.Subscriber.{
  Dispatch, Subscriber, send, publish_to, Move, received, blocked, finished, left, receive, block,
  finish, leave, move,
}

module _ {K P : Type 0} where
  -- What a subscription is known by: its topic, and whether its channel is closed.
  abbrev pub Alike : Subscriber K P → Subscriber K P → Type 0
  Alike s s' = (s'.topic ≡ s.topic) × (s'.closed ≡ s.closed)

  send-Alike : (x : P) (d : Dispatch P) (s : Subscriber K P) → Alike s (send x d s)
  unfolding send
  send-Alike x Dispatch.idle s = ground arith
  send-Alike x Dispatch.waiting s = ground arith
  send-Alike x (Dispatch.busy y) s = ground arith
  send-Alike x Dispatch.ended s = ground arith

  pub publish_to-Alike : (x : P) (s : Subscriber K P) → Alike s (publish_to x s)
  unfolding publish_to
  publish_to-Alike x s = ground (arith, send-Alike x s.dispatch s)

  receive-Alike :
      (xs : List P) (d : Dispatch P) (s s' : Subscriber K P) → receive xs d s ≡ some s' → Alike s s'
  unfolding receive
  receive-Alike [] d s s' e = absurd (ground (arith, e))
  receive-Alike (x ∷ xs) Dispatch.idle s s' e = ground (arith, e)
  receive-Alike (x ∷ xs) d s s' e = absurd (ground (arith, e))

  block-Alike :
      (xs : List P) (d : Dispatch P) (s s' : Subscriber K P) → block xs d s ≡ some s' → Alike s s'
  unfolding block
  block-Alike [] Dispatch.idle s s' e = ground (arith, e)
  block-Alike [] d s s' e = absurd (ground (arith, e))
  block-Alike (x ∷ xs) d s s' e = absurd (ground (arith, e))

  finish-Alike : (d : Dispatch P) (s s' : Subscriber K P) → finish d s ≡ some s' → Alike s s'
  unfolding finish
  finish-Alike (Dispatch.busy x) s s' e = ground (arith, e)
  finish-Alike d s s' e = absurd (ground (arith, e))

  leave-Alike :
      (xs : List P) (d : Dispatch P) (s s' : Subscriber K P) → leave xs d s ≡ some s' → Alike s s'
  unfolding leave
  leave-Alike xs (Dispatch.busy x) s s' e = absurd (ground (arith, e))
  leave-Alike xs Dispatch.ended s s' e = absurd (ground (arith, e))
  leave-Alike [] Dispatch.idle s s' e = ground (arith, e)
  leave-Alike (y ∷ xs) Dispatch.idle s s' e = ground (arith, e)
  leave-Alike [] Dispatch.waiting s s' e = ground (arith, e)
  leave-Alike (y ∷ xs) Dispatch.waiting s s' e = ground (arith, e)

  pub move-Alike : (m : Move) (s s' : Subscriber K P) → move m s ≡ some s' → Alike s s'
  unfolding move
  move-Alike received s s' e = receive-Alike s.queue s.dispatch s s' e
  move-Alike blocked s s' e = block-Alike s.queue s.dispatch s s' e
  move-Alike finished s s' e = finish-Alike s.dispatch s s' e
  move-Alike left s s' e = leave-Alike s.queue s.dispatch s s' e
