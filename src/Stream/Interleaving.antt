-- ===== src/Stream/Interleaving.antt =====
-- What `FanIn` brings (pkg/async/stream.go).
use gkit_go.Prelude.{
  ℕ, ◌+◌, ◌≤◌, ◌<◌, ◌≡◌, refl, subst, Bool, true, false, Option, none, some, List, [], ◌∷◌, ◌++◌,
  length, length-append, arith,
}
use gkit_go.Stream.Merging.{
  Forwarder, Merger, fan_in, Action, receive, send, finish, quit, read, close_out, end_context,
  receive_next, finish_one, update, give, drop_out, read_one, step, run,
}
use gkit_go.Stream.Tally.{
  count, count_all, to_come, left_in, everywhere, Keeps, count-append, receive_next-Keeps,
  finish_one-Keeps, update-to_come, give-to_come, drop_out-to_come, exited-to_come,
}

module _ {T : Type 0} (p : T → Bool) where
  -- The items are as many as they were; the output is within its capacity; while the context has not
  -- ended, none is lost or left in a goroutine that has returned, and with the output closed none is
  -- to come.
  record IsMerged (total capacity : ℕ) (m : Merger T) : Type 0 where
    kept : everywhere p m ≡ total
    same : m.capacity ≡ capacity
    bound : length m.buffered ≤ m.capacity
    none_lost : m.ended ≡ false → count p m.lost + left_in p m.forwarders ≡ 0
    all_sent : m.ended ≡ false → m.closed ≡ true → to_come p m.forwarders ≡ 0

  module _ (total capacity : ℕ) where
    update-IsMerged :
        (f : Option T → List T → Bool → Option (Forwarder T)) (i : ℕ) (m : Merger T)
        (ws : List (Forwarder T))
        → Keeps p f
        → IsMerged total capacity m
        → update f i m.forwarders ≡ some ws
        → IsMerged total capacity (record m { forwarders = ws })
    update-IsMerged f i m ws k h q =
        let (t, l) = update-to_come p f i m.forwarders ws k q in ground (arith, t, l)

    give-IsMerged :
        (i : ℕ) (m : Merger T) (v : T) (ws : List (Forwarder T))
        → IsMerged total capacity m
        → length m.buffered < m.capacity
        → give i m.forwarders ≡ some (v, ws)
        → IsMerged total capacity (record m { forwarders = ws; buffered = m.buffered ++ v ∷ [] })
    give-IsMerged i m v ws h b q =
        let (t, l) = give-to_come p i m.forwarders v ws q in
        ground (arith, t, l, count-append p m.buffered (v ∷ []), length-append m.buffered (v ∷ []))

    drop_out-IsMerged :
        (i : ℕ) (m : Merger T) (vs : List T) (ws : List (Forwarder T))
        → IsMerged total capacity m
        → m.ended ≡ true
        → drop_out i m.forwarders ≡ some (vs, ws)
        → IsMerged total capacity (record m { forwarders = ws; lost = m.lost ++ vs })
    drop_out-IsMerged i m vs ws h e q =
        ground (arith, drop_out-to_come p i m.forwarders vs ws q, count-append p m.lost vs)

    read_one-IsMerged :
        (m m' : Merger T) (vs : List T)
        → IsMerged total capacity m
        → m.buffered ≡ vs
        → read_one vs m ≡ some m'
        → IsMerged total capacity m'
    unfolding read_one
    read_one-IsMerged m m' [] h b e = absurd (ground (arith, e))
    read_one-IsMerged m m' (v ∷ vs) h b e = ground (arith, b, e, count-append p m.received (v ∷ []))

    step-IsMerged :
        (a : Action) (m m' : Merger T)
        → IsMerged total capacity m
        → step a m ≡ some m'
        → IsMerged total capacity m'
    unfolding step
    step-IsMerged (receive i) m m' h e = moved (update receive_next i m.forwarders) refl
      where
        moved :
            (r : Option (List (Forwarder T)))
            → update receive_next i m.forwarders ≡ r
            → IsMerged total capacity m'
        moved none q = absurd (ground (arith, e, q))
        moved (some ws) q =
            subst (IsMerged total capacity) (ground (arith, e, q))
              (update-IsMerged receive_next i m ws (receive_next-Keeps p) h q)
    step-IsMerged (finish i) m m' h e = moved (update finish_one i m.forwarders) refl
      where
        moved :
            (r : Option (List (Forwarder T)))
            → update finish_one i m.forwarders ≡ r
            → IsMerged total capacity m'
        moved none q = absurd (ground (arith, e, q))
        moved (some ws) q =
            subst (IsMerged total capacity) (ground (arith, e, q))
              (update-IsMerged finish_one i m ws (finish_one-Keeps p) h q)
    step-IsMerged (send i) m m' h e = moved (give i m.forwarders) refl
      where
        moved :
            (r : Option (T × List (Forwarder T)))
            → give i m.forwarders ≡ r
            → IsMerged total capacity m'
        moved none q = absurd (ground (arith, e, q))
        moved (some (v, ws)) q =
            subst (IsMerged total capacity) (ground (arith, e, q))
              (give-IsMerged i m v ws h (ground (arith, e)) q)
    step-IsMerged (quit i) m m' h e = moved (drop_out i m.forwarders) refl
      where
        moved :
            (r : Option (List T × List (Forwarder T)))
            → drop_out i m.forwarders ≡ r
            → IsMerged total capacity m'
        moved none q = absurd (ground (arith, e, q))
        moved (some (vs, ws)) q =
            subst (IsMerged total capacity) (ground (arith, e, q))
              (drop_out-IsMerged i m vs ws h (ground (arith, e)) q)
    step-IsMerged read m m' h e = read_one-IsMerged m m' m.buffered h refl e
    step-IsMerged close_out m m' h e = ground (arith, exited-to_come p m.forwarders)
    step-IsMerged end_context m m' h e = ground arith

    run-IsMerged :
        (actions : List Action) (m m' : Merger T)
        → IsMerged total capacity m
        → run actions m ≡ some m'
        → IsMerged total capacity m'
    unfolding run
    run-IsMerged [] m m' h e = ground (arith, h, e)
    run-IsMerged (a ∷ actions) m m' h e = stepped (step a m) refl (λ n. run-IsMerged actions n m')
      where
        stepped :
            (r : Option (Merger T))
            → step a m ≡ r
            → ((n : Merger T)
                → IsMerged total capacity n
                → run actions n ≡ some m'
                → IsMerged total capacity m')
            → IsMerged total capacity m'
        stepped none q next = absurd (ground (arith, q, e))
        stepped (some n) q next = next n (step-IsMerged a m n h q) (ground (arith, q, e))

  started-to_come :
      (inputs : List (List T))
      → (to_come p (fan_in inputs).forwarders ≡ count_all p inputs)
        × (left_in p (fan_in inputs).forwarders ≡ 0)
  unfolding fan_in
  started-to_come [] = (refl, refl)
  started-to_come (xs ∷ inputs) = ground (arith, started-to_come inputs)

  -- Whatever steps the goroutines of FanIn, the reader of its output and the context take, the items
  -- with a property that have been read, that the output holds, that were lost and that are to come
  -- are as many as those of the inputs, and the output holds at most 16 items.
  fan_in-IsMerged :
      (inputs : List (List T)) (actions : List Action) (m : Merger T)
      → run actions (fan_in inputs) ≡ some m
      → IsMerged (count_all p inputs) 16 m
  unfolding fan_in
  fan_in-IsMerged inputs actions m e =
      let (t, l) = started-to_come inputs in
      let start : IsMerged (count_all p inputs) 16 (fan_in inputs) = ground (arith, t, l) in
      run-IsMerged (count_all p inputs) 16 actions (fan_in inputs) m start e

  -- Whatever steps the goroutines of FanIn and the reader of its output take, in whatever order,
  -- while the context has not ended: once the output is closed, the items that the reader has
  -- received and those, at most 16, that the output still holds are those of all the inputs, counted
  -- by any property, so that none is lost or doubled.
  pub fan_in-Delivers :
      (inputs : List (List T)) (actions : List Action) (m : Merger T)
      → run actions (fan_in inputs) ≡ some m
      → m.ended ≡ false
      → m.closed ≡ true
      → (count p m.received + count p m.buffered ≡ count_all p inputs) × (length m.buffered ≤ 16)
  fan_in-Delivers inputs actions m e n c =
      let h = fan_in-IsMerged inputs actions m e in
      let l = h.none_lost n in
      let t = h.all_sent n c in ground (arith, h.kept, h.same, h.bound, l, t)
