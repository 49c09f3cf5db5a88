-- ===== src/Stream/Dispatch.antt =====
-- What a step of `FanOut`, `Tee` and `OrDone` keeps (pkg/async/stream.go).
use gkit_go.Prelude.{
  ℕ, zero, suc, ◌-◌, ◌≤◌, ◌<◌, ◌≡◌, refl, sym, ap, subst, ◌∙◌, true, none, some, List, [], ◌∷◌,
  ◌++◌, arith, length, length-append, ltb, All, All-append, append_assoc, append-nil, Option-cases,
  Bool-cases, inl, inr,
}
use gkit_go.Stream.Channels.{
  Out, Dispatcher, Action, receive, send, read, done, receive_item, send_item, read_out, read_at,
  still, step,
}

module _ {T : Type 0} where
  -- What a channel has brought and holds.
  abbrev pub history : Out T → List T
  history o = o.received ++ o.buffered

  -- A channel within its capacity that has brought and holds just these items.
  abbrev pub Brings : ℕ → List T → Out T → Type 0
  Brings capacity items o = (history o ≡ items) × (length o.buffered ≤ capacity)

  -- After `gone` has left `input`, the channels that wait lack its last item.
  pub record Inv (xs gone before : List T) (d : Dispatcher T) : Type 0 where
    pub split : gone ++ d.input ≡ xs
    pub brought : All (Brings d.capacity gone) d.sent
    pub lacking : All (Brings d.capacity before) d.waiting
    pub idle : d.current ≡ none → d.waiting ≡ []
    pub sending : (v : T) → d.current ≡ some v → gone ≡ before ++ v ∷ []

  read_out-Brings :
      (capacity : ℕ) (items : List T) (o : Out T)
      → Brings capacity items o
      → Brings capacity items (read_out o)
  read_out-Brings capacity items o h = go o.received o.buffered h.0 h.1
    where
      go :
          (received buffered : List T)
          → received ++ buffered ≡ items
          → length buffered ≤ capacity
          → Brings capacity items (read_out (record { received = received; buffered = buffered }))
      go received [] e l = (append-nil (received ++ []) ∙ e, l)
      go received (v ∷ vs) e l = (append_assoc received (v ∷ []) vs ∙ e, omega arith)

  read_at-Brings :
      (capacity : ℕ) (items : List T) (i : ℕ) (os : List (Out T))
      → All (Brings capacity items) os
      → All (Brings capacity items) (read_at i os)
  unfolding read_at
  read_at-Brings capacity items i [] h = tt
  read_at-Brings capacity items zero (o ∷ os) h = (read_out-Brings capacity items o h.0, h.1)
  read_at-Brings capacity items (suc i) (o ∷ os) h = (h.0, read_at-Brings capacity items i os h.1)

  read_at-empty : (i : ℕ) (os : List (Out T)) → os ≡ [] → read_at i os ≡ []
  unfolding read_at
  read_at-empty i [] e = refl
  read_at-empty i (o ∷ os) e = cc

  sent-Brings :
      (capacity : ℕ) (before gone : List T) (v : T) (o : Out T)
      → Brings capacity before o
      → gone ≡ before ++ v ∷ []
      → length o.buffered < capacity
      → Brings capacity gone (record o { buffered = o.buffered ++ v ∷ [] })
  sent-Brings capacity before gone v o h e l = (
    sym (append_assoc o.received o.buffered (v ∷ [])) ∙ ap (λ items. items ++ v ∷ []) h.0 ∙ sym e,
    omega (arith, length-append o.buffered (v ∷ []), l),
  )

  -- A step keeps the invariant.
  abbrev pub Kept : List T → Dispatcher T → Type 0
  Kept xs d = (gone before : List T) × Inv xs gone before d

  still-none : (os : List (Out T)) (v : T) → still os v ≡ none → os ≡ []
  still-none [] v p = refl
  still-none (o ∷ os) v p = cc

  still-some : (os : List (Out T)) (v v' : T) → still os v ≡ some v' → v ≡ v'
  still-some [] v v' p = cc
  still-some (o ∷ os) v v' p = cc

  received-Inv :
      (xs gone before vs : List T) (v : T) (d : Dispatcher T)
      → Inv xs gone before d
      → d.input ≡ v ∷ vs
      → Inv xs
          (gone ++ v ∷ [])
          gone
          (record d { input = vs; current = still d.sent v; sent = []; waiting = d.sent })
  received-Inv xs gone before vs v d h q = record {
    split = append_assoc gone (v ∷ []) vs ∙ ap (λ i. gone ++ i) (sym q) ∙ h.split;
    brought = tt;
    lacking = h.brought;
    idle = λ p. still-none d.sent v p;
    sending = λ v' p. ap (λ x. gone ++ x ∷ []) (still-some d.sent v v' p);
  }

  closed-Inv :
      (xs gone before : List T) (d : Dispatcher T)
      → Inv xs gone before d
      → Inv xs gone before (record d { closed = true })
  closed-Inv xs gone before d h = record {
    split = h.split;
    brought = h.brought;
    lacking = h.lacking;
    idle = h.idle;
    sending = h.sending;
  }

  receive-Kept :
      (xs gone before : List T) (d d' : Dispatcher T)
      → Inv xs gone before d
      → receive_item d ≡ some d'
      → Kept xs d'
  unfolding receive_item
  receive-Kept xs gone before d d' h e = elim (Option-cases d.current) [
    | inr (v, p) ↦ absurd (ground (arith, p, e))
    | inl p ↦ came p d.input refl
  ]
    where
      came : d.current ≡ none → (input : List T) → d.input ≡ input → Kept xs d'
      came p [] q = (
        gone,
        before,
        subst (Inv xs gone before) (ground (arith, e, p, q)) (closed-Inv xs gone before d h),
      )
      came p (v ∷ vs) q = (
        gone ++ v ∷ [],
        gone,
        subst (Inv xs (gone ++ v ∷ []) gone) (ground (arith, e, p, q))
            (received-Inv xs gone before vs v d h q),
      )

  sent-Inv :
      (xs gone before : List T) (v : T) (o : Out T) (os : List (Out T)) (d : Dispatcher T)
      → Inv xs gone before d
      → d.current ≡ some v
      → d.waiting ≡ o ∷ os
      → length o.buffered < d.capacity
      → Inv xs gone before (record d {
        current = still os v;
        sent = d.sent ++ record o { buffered = o.buffered ++ v ∷ [] } ∷ [];
        waiting = os;
      })
  sent-Inv xs gone before v o os d h c w l =
      let lack : All (Brings d.capacity before) (o ∷ os) =
        subst (All (Brings d.capacity before)) w h.lacking in
      record {
        split = h.split;
        brought =
            All-append (Brings d.capacity gone) d.sent
              (record o { buffered = o.buffered ++ v ∷ [] } ∷ []) h.brought
              (sent-Brings d.capacity before gone v o lack.0 (h.sending v c) l, tt);
        lacking = lack.1;
        idle = λ p. still-none os v p;
        sending = λ v' p. h.sending v c ∙ ap (λ x. before ++ x ∷ []) (still-some os v v' p);
      }

  send-Kept :
      (xs gone before : List T) (v : T) (os : List (Out T)) (d d' : Dispatcher T)
      → Inv xs gone before d
      → d.current ≡ some v
      → d.waiting ≡ os
      → send_item v os d ≡ some d'
      → Kept xs d'
  unfolding send_item
  send-Kept xs gone before v [] d d' h c w e = absurd (ground (arith, e))
  send-Kept xs gone before v (o ∷ os) d d' h c w e =
      elim (Bool-cases (ltb (length o.buffered) d.capacity)) [
        | inr l ↦ absurd (ground (arith, l, e))
        | inl l ↦ (
          gone,
          before,
          subst (Inv xs gone before) (ground (arith, e, l))
              (sent-Inv xs gone before v o os d h c w (ground (arith, l))),
        )
      ]

  sent_read-Inv :
      (xs gone before : List T) (i : ℕ) (d : Dispatcher T)
      → Inv xs gone before d
      → Inv xs gone before (record d { sent = read_at i d.sent })
  sent_read-Inv xs gone before i d h = record {
    split = h.split;
    brought = read_at-Brings d.capacity gone i d.sent h.brought;
    lacking = h.lacking;
    idle = h.idle;
    sending = h.sending;
  }

  waiting_read-Inv :
      (xs gone before : List T) (i : ℕ) (d : Dispatcher T)
      → Inv xs gone before d
      → Inv xs gone before (record d { waiting = read_at i d.waiting })
  waiting_read-Inv xs gone before i d h = record {
    split = h.split;
    brought = h.brought;
    lacking = read_at-Brings d.capacity before i d.waiting h.lacking;
    idle = λ p. read_at-empty i d.waiting (h.idle p);
    sending = h.sending;
  }

  pub step-Kept :
      (xs gone before : List T) (a : Action) (d d' : Dispatcher T)
      → Inv xs gone before d
      → step a d ≡ some d'
      → Kept xs d'
  unfolding step
  step-Kept xs gone before receive d d' h e = elim (Bool-cases d.closed) [
    | inl c ↦ absurd (ground (arith, c, e))
    | inr c ↦ receive-Kept xs gone before d d' h (ground (arith, c, e))
  ]
  step-Kept xs gone before send d d' h e = elim (Bool-cases d.closed) [
    | inl c ↦ absurd (ground (arith, c, e))
    | inr c ↦ elim (Option-cases d.current) [
      | inl p ↦ absurd (ground (arith, c, p, e))
      | inr (v, p) ↦ send-Kept xs gone before v d.waiting d d' h p refl (ground (arith, c, p, e))
    ]
  ]
  step-Kept xs gone before (read i) d d' h e = elim (Bool-cases (ltb i (length d.sent))) [
    | inl c ↦ (
      gone,
      before,
      subst (Inv xs gone before) (ground (arith, c, e)) (sent_read-Inv xs gone before i d h),
    )
    | inr c ↦ (
      gone,
      before,
      subst (Inv xs gone before) (ground (arith, c, e))
          (waiting_read-Inv xs gone before (i - length d.sent) d h),
    )
  ]
  step-Kept xs gone before done d d' h e =
      (gone, before, subst (Inv xs gone before) (ground (arith, e)) (closed-Inv xs gone before d h))
