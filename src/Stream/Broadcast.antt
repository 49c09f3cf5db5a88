-- ===== src/Stream/Broadcast.antt =====
-- What the channels of `FanOut`, `Tee` and `OrDone` bring (pkg/async/stream.go).
use gkit_go.Prelude.{
  ℕ, zero, suc, ◌+◌, ◌-◌, ◌≡◌, refl, ◌∙◌, subst, Option, none, some, List, [], ◌∷◌, ◌++◌, arith,
  All, replicate, length, length-append, length-replicate, Option-cases, inl, inr,
}
use gkit_go.Stream.Channels.{
  Out, Dispatcher, dispatcher, Action, receive, send, read, done, receive_item, send_item, read_at,
  step, run,
}
use gkit_go.Stream.Dispatch.{Brings, Inv, Kept, step-Kept}

replicate-Brings :
    (T : Type 0) (capacity n : ℕ)
    → All (Brings {T = T} capacity []) (replicate n (record { received = []; buffered = [] }))
replicate-Brings T capacity zero = tt
replicate-Brings T capacity (suc n) = ((refl, omega arith), replicate-Brings T capacity n)

module _ {T : Type 0} where
  -- How many channels the dispatcher has.
  abbrev pub channels : Dispatcher T → ℕ
  channels d = length d.sent + length d.waiting

  read_at-length : (i : ℕ) (os : List (Out T)) → length (read_at i os) ≡ length os
  unfolding read_at
  read_at-length i [] = refl
  read_at-length zero (o ∷ os) = refl
  read_at-length (suc i) (o ∷ os) = ground (arith, read_at-length i os)

  send-channels :
      (v : T) (os : List (Out T)) (d d' : Dispatcher T)
      → d.waiting ≡ os
      → send_item v os d ≡ some d'
      → channels d' ≡ channels d
  unfolding send_item
  send-channels v [] d d' w e = absurd (ground (arith, e))
  send-channels v (o ∷ os) d d' w e =
      ground (arith, e, w, length-append d.sent (record o { buffered = o.buffered ++ v ∷ [] } ∷ []))

  step-channels :
      (a : Action) (d d' : Dispatcher T)
      → (d.current ≡ none → d.waiting ≡ [])
      → step a d ≡ some d'
      → channels d' ≡ channels d
  unfolding step receive_item
  step-channels receive d d' h e = ground (arith, e, h)
  step-channels send d d' h e = elim (Option-cases d.current) [
    | inl p ↦ absurd (ground (arith, p, e))
    | inr (v, p) ↦ send-channels v d.waiting d d' refl (ground (arith, p, e))
  ]
  step-channels (read i) d d' h e =
      ground (arith, e, read_at-length i d.sent, read_at-length (i - length d.sent) d.waiting)
  step-channels done d d' h e = ground (arith, e)

  run-Kept :
      (xs gone before : List T) (actions : List Action) (d d' : Dispatcher T)
      → Inv xs gone before d
      → run actions d ≡ some d'
      → Kept xs d' × (channels d' ≡ channels d)
  unfolding run
  run-Kept xs gone before [] d d' h e =
      ((gone, before, subst (Inv xs gone before) (ground (arith, e)) h), ground (arith, e))
  run-Kept xs gone before (a ∷ actions) d d' h e =
      stepped (step a d) refl (λ g b d₁. run-Kept xs g b actions d₁ d')
    where
      stepped :
          (r : Option (Dispatcher T))
          → step a d ≡ r
          → ((g b : List T) (d₁ : Dispatcher T)
              → Inv xs g b d₁
              → run actions d₁ ≡ some d'
              → Kept xs d' × (channels d' ≡ channels d₁))
          → Kept xs d' × (channels d' ≡ channels d)
      stepped none q next = absurd (ground (arith, q, e))
      stepped (some d₁) q next =
          let (g, b, i) = step-Kept xs gone before a d d₁ h q in
          let (k, c) = next g b d₁ i (ground (arith, q, e)) in
          (k, c ∙ step-channels a d d₁ h.idle q)

  -- The items of `xs` that come first, all the channels of the dispatcher, and what they have.
  abbrev pub IsBroadcast : ℕ → List T → Dispatcher T → Type 0
  IsBroadcast n xs d =
      (channels d ≡ n)
      × (gone : List T) × (before : List T) × (gone ++ d.input ≡ xs)
      × All (Brings d.capacity gone) d.sent
      × All (Brings d.capacity before) d.waiting
      × ((v : T) → d.current ≡ some v → gone ≡ before ++ v ∷ [])
      × (d.current ≡ none → d.waiting ≡ [])

  -- Whatever steps the dispatcher of n channels, their readers and the context take: it has n channels still,
  -- those that have the item being sent and those that wait for it; each channel has
  -- brought, in order and once, the items that have left the input, except that the channels that the
  -- item being sent has not reached yet lack just that item; no channel holds more items than its
  -- capacity. When no item is being sent, no channel lacks one.
  pub run-IsBroadcast :
      (capacity n : ℕ) (xs : List T) (actions : List Action) (d : Dispatcher T)
      → run actions (dispatcher capacity n xs) ≡ some d
      → IsBroadcast n xs d
  unfolding dispatcher
  run-IsBroadcast capacity n xs actions d e =
      let start : Inv xs [] [] (dispatcher capacity n xs) = record {
        split = refl;
        brought = replicate-Brings T capacity n;
        lacking = tt;
        idle = λ p. refl;
        sending = λ v p. cc;
      } in
      let new_out : Out T = record { received = []; buffered = [] } in
      let full : length (replicate n new_out) + 0 ≡ n = omega (arith, length-replicate n new_out) in
      let ((gone, before, h), c) = run-Kept xs [] [] actions (dispatcher capacity n xs) d start e in
      (c ∙ full, gone, before, h.split, h.brought, h.lacking, h.sending, h.idle)
