-- ===== src/Pubsub/Routing.antt =====
-- Whom the bus publishes to (pkg/pubsub/bus.go).
use gkit_go.Prelude.{
  ℕ, ◌≡◌, refl, sym, subst, ◌∙◌, Bool, true, false, not, Option, none, some, List, [], ◌∷◌, ◌++◌,
  arith, length, ite, map, get_elem?, get_elem?-ext, get_elem?-past, map_get, map_put, get-put,
  if◌then◌else◌,
}
use gkit_go.Pubsub.Subscriber.{
  Subscriber, publish_to, publish_panics, new_subscriber, cancel, close, Move, move,
}
use gkit_go.Pubsub.Registry.{
  Bus, new_bus, modify, remove_first, panics_at, publish_all, listed, subscribe, unlist,
  unsubscribe, publish, move_of, Op, subscribing, unsubscribing, publishing, dispatching, apply,
  apply_all,
}
use gkit_go.Pubsub.Handles.{
  is_listed, Distinct, get-modify, get-map, get-append, is_listed-append, append-Distinct,
  is_listed-remove_first, remove_first-Distinct, get-publish_all, lift,
}
use gkit_go.Pubsub.Marks.{publish_to-Alike, move-Alike}

module _ {K P : Type 0} (dec : Discrete K) where
  -- Whether there is a subscription to a topic with an open channel.
  abbrev pub open_at : K → Option (Subscriber K P) → Bool
  open_at t none = false
  open_at t (some s) = ite (dec s.topic t) (not s.closed) false

  -- The handles listed under a topic are those of its open subscriptions, each once.
  pub record IsRouted (b : Bus K P) : Type 0 where
    pub routed : (t : K) (j : ℕ) → is_listed (listed dec b t) j ≡ open_at t (get_elem? b.store j)
    pub distinct : (t : K) → Distinct (listed dec b t)

  new-IsRouted : IsRouted new_bus
  unfolding new_bus listed map_get
  new-IsRouted = record { routed = λ t j. refl; distinct = λ t. tt }

  publish_all-open_at :
      (x : P) (hs : List ℕ) (store : List (Subscriber K P)) (u : K) (j : ℕ)
      → open_at u (get_elem? (publish_all x hs store).1 j) ≡ open_at u (get_elem? store j)
  unfolding publish_all
  publish_all-open_at x [] store u j = refl
  publish_all-open_at x (h ∷ hs) store u j =
      offered (get_elem? store j) refl
        (publish_all-open_at x hs (modify h (publish_to x) store) u j)
    where
      offered :
          (r : Option (Subscriber K P))
          → get_elem? store j ≡ r
          → open_at u (get_elem? (publish_all x hs (modify h (publish_to x) store)).1 j)
            ≡ open_at u (get_elem? (modify h (publish_to x) store) j)
          → open_at u (get_elem? (publish_all x (h ∷ hs) store).1 j) ≡ open_at u (get_elem? store j)
      offered none q rest = ground (arith, q, rest, get-modify h (publish_to x) store j)
      offered (some s) q rest =
          ground (arith, q, rest, get-modify h (publish_to x) store j, publish_to-Alike x s)

  publish-IsRouted : (t : K) (x : P) (b : Bus K P) → IsRouted b → IsRouted (publish dec t x b).1
  unfolding publish listed
  publish-IsRouted t x b h = record {
    routed = λ u j. h.routed u j ∙ sym (publish_all-open_at x (listed dec b t) b.store u j);
    distinct = h.distinct;
  }

  put-listed :
      (t u : K) (hs : List ℕ) (b : Bus K P) (store : List (Subscriber K P))
      → listed dec (record { subs = map_put dec b.subs t hs; store = store }) u
        ≡ ite (dec t u) hs (listed dec b u)
  unfolding listed
  put-listed t u hs b store = ground (arith, get-put dec b.subs t hs u)

  fresh-listed :
      (t : K) (b : Bus K P) → IsRouted b → is_listed (listed dec b t) (length b.store) ≡ false
  fresh-listed t b h =
      ground
        (arith, h.routed t (length b.store), get_elem?-past b.store (length b.store) (omega arith))

  subscribe-IsRouted :
      (t : K) (accepts : P → Bool) (n : ℕ) (b : Bus K P)
      → IsRouted b
      → IsRouted (subscribe dec t accepts n b).1
  unfolding subscribe new_subscriber
  subscribe-IsRouted t accepts n b h = record {
    routed = λ u j. ground (
      arith,
      put-listed t u (listed dec b t ++ length b.store ∷ []) b
          (b.store ++ new_subscriber t accepts n ∷ []),
      is_listed-append (listed dec b t) (length b.store) j,
      get-append b.store (new_subscriber t accepts n) j,
      h.routed u j,
      fresh-listed u b h,
    );
    distinct = λ u. ground (
      arith,
      put-listed t u (listed dec b t ++ length b.store ∷ []) b
          (b.store ++ new_subscriber t accepts n ∷ []),
      h.distinct u,
      append-Distinct (listed dec b t) (length b.store) (h.distinct t) (fresh-listed t b h),
    );
  }

  move_of-IsRouted :
      (h : ℕ) (m : Move) (b b' : Bus K P) → IsRouted b → move_of h m b ≡ some b' → IsRouted b'
  unfolding move_of listed
  move_of-IsRouted h m b b' i e = found (get_elem? b.store h) refl
    where
      found : (r : Option (Subscriber K P)) → get_elem? b.store h ≡ r → IsRouted b'
      found none q = absurd (ground (arith, e, q))
      found (some s) q = moved (move m s) refl
        where
          moved : (r : Option (Subscriber K P)) → move m s ≡ r → IsRouted b'
          moved none p = absurd (ground (arith, e, q, p))
          moved (some s') p =
              let k : IsRouted (record b { store = modify h (λ r. s') b.store }) = record {
                routed = λ u j.
                    ground (
                      arith,
                      i.routed u j,
                      get-modify h (λ r. s') b.store j,
                      move-Alike m s s' p,
                      q,
                    );
                distinct = i.distinct;
              } in
              subst IsRouted (ground (arith, e, q, p)) k

  unsubscribe-IsRouted :
      (h : ℕ) (b b' : Bus K P) → IsRouted b → unsubscribe dec h b ≡ some b' → IsRouted b'
  unfolding unsubscribe unlist cancel close
  unsubscribe-IsRouted h b b' i e = found (get_elem? b.store h) refl
    where
      found : (r : Option (Subscriber K P)) → get_elem? b.store h ≡ r → IsRouted b'
      found none q = absurd (ground (arith, e, q))
      found (some s) q =
          let s' : Subscriber K P = record s { cancelled = true; closed = true } in
          let hs = remove_first h (listed dec b s.topic) in
          let store = modify h (λ r. s') b.store in
          let k : IsRouted (record { subs = map_put dec b.subs s.topic hs; store = store }) =
            record {
              routed = λ u j. ground (
                arith,
                i.routed u j,
                get-modify h (λ r. s') b.store j,
                q,
                put-listed s.topic u hs b store,
                is_listed-remove_first h (listed dec b s.topic) j (i.distinct s.topic),
              );
              distinct = λ u. ground (
                arith,
                i.distinct u,
                put-listed s.topic u hs b store,
                remove_first-Distinct h (listed dec b s.topic) (i.distinct s.topic),
              );
            } in
          subst IsRouted (ground (arith, e, q)) k

  apply-IsRouted :
      (o : Op K P) (b b' : Bus K P) → IsRouted b → apply dec o b ≡ some b' → IsRouted b'
  unfolding apply
  apply-IsRouted (subscribing t accepts n) b b' i e =
      subst IsRouted (ground (arith, e)) (subscribe-IsRouted t accepts n b i)
  apply-IsRouted (unsubscribing h) b b' i e = unsubscribe-IsRouted h b b' i e
  apply-IsRouted (publishing t x) b b' i e =
      subst IsRouted (ground (arith, e)) (publish-IsRouted t x b i)
  apply-IsRouted (dispatching h m) b b' i e = move_of-IsRouted h m b b' i e

  apply_all-IsRouted :
      (ops : List (Op K P)) (b b' : Bus K P)
      → IsRouted b
      → apply_all dec ops b ≡ some b'
      → IsRouted b'
  unfolding apply_all
  apply_all-IsRouted [] b b' i e = subst IsRouted (ground (arith, e)) i
  apply_all-IsRouted (o ∷ ops) b b' i e =
      applied (apply dec o b) refl (λ b₁. apply_all-IsRouted ops b₁ b')
    where
      applied :
          (r : Option (Bus K P))
          → apply dec o b ≡ r
          → ((b₁ : Bus K P) → IsRouted b₁ → apply_all dec ops b₁ ≡ some b' → IsRouted b')
          → IsRouted b'
      applied none q next = absurd (ground (arith, q, e))
      applied (some b₁) q next = next b₁ (apply-IsRouted o b b₁ i q) (ground (arith, q, e))

  -- What a publish does with one of the subscriptions that were ever made.
  abbrev pub delivered : K → P → Subscriber K P → Subscriber K P
  delivered t x s = ite (dec s.topic t) (if s.closed then s else publish_to x s) s

  -- The type assertion of a subscription, if it is open and to the topic, lets the event pass.
  abbrev pub Takes : K → P → Subscriber K P → Type 0
  Takes t x s = s.topic ≡ t → s.closed ≡ false → s.accepts x ≡ true

  taken-calm :
      (t : K) (x : P) (s : Subscriber K P)
      → Takes t x s
      → open_at t (some s) ≡ true
      → publish_panics x s ≡ false
  taken-calm t x s h o = elim (dec s.topic t) [
    | no n ↦ absurd (ground (arith, n, o))
    | yes p ↦ ground (arith, p, o, h p)
  ]

  -- In whatever bus whole calls and steps of the dispatch goroutines lead to, if each open
  -- subscription of the topic is for the type of the payload: a publish does not panic, offers the
  -- event to each subscription of the topic that is not unsubscribed, once, touches no other
  -- subscription, and changes no list of subscribers.
  pub publish-Broadcasts :
      (ops : List (Op K P)) (b : Bus K P) (t : K) (x : P)
      → apply_all dec ops new_bus ≡ some b
      → ((j : ℕ) (s : Subscriber K P) → get_elem? b.store j ≡ some s → Takes t x s)
      → ((publish dec t x b).0 ≡ false)
        × ((publish dec t x b).1.store ≡ map (delivered t x) b.store)
        × ((publish dec t x b).1.subs ≡ b.subs)
  unfolding publish
  publish-Broadcasts ops b t x e takes = (
    sent.0,
    get_elem?-ext (publish_all x (listed dec b t) b.store).1 (map (delivered t x) b.store)
        (λ j. at j (get_elem? b.store j) refl),
    refl,
  )
    where
      i : IsRouted b
      i = apply_all-IsRouted ops new_bus b new-IsRouted e

      calm :
          (j : ℕ) (r : Option (Subscriber K P))
          → get_elem? b.store j ≡ r
          → is_listed (listed dec b t) j ≡ true
          → panics_at x (get_elem? b.store j) ≡ false
      calm j none q l = ground (arith, q)
      calm j (some s) q l =
          ground (arith, q, taken-calm t x s (takes j s q) (ground (arith, q, l, i.routed t j)))

      sent :
          ((publish_all x (listed dec b t) b.store).0 ≡ false)
          × ((j : ℕ)
              → get_elem? (publish_all x (listed dec b t) b.store).1 j ≡ (
                  if is_listed (listed dec b t) j
                  then lift (publish_to x) (get_elem? b.store j)
                  else get_elem? b.store j))
      sent =
          get-publish_all x (listed dec b t) b.store (i.distinct t)
            (λ j l. calm j (get_elem? b.store j) refl l)

      at :
          (j : ℕ) (r : Option (Subscriber K P))
          → get_elem? b.store j ≡ r
          → get_elem? (publish_all x (listed dec b t) b.store).1 j
            ≡ get_elem? (map (delivered t x) b.store) j
      at j none q = ground (arith, q, sent.1 j, get-map (delivered t x) b.store j)
      at j (some s) q = ground (arith, q, sent.1 j, get-map (delivered t x) b.store j, i.routed t j)
