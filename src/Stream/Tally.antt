-- ===== src/Stream/Tally.antt =====
-- How many items the goroutines of `FanIn` have (pkg/async/stream.go).
use gkit_go.Prelude.{
  ℕ, zero, suc, ◌+◌, ◌≤◌, ◌≡◌, refl, Bool, true, false, Option, none, some, List, [], ◌∷◌, ◌++◌,
  arith, if◌then◌else◌,
}
use gkit_go.Stream.Merging.{
  Forwarder, Merger, held, receive_next, finish_one, update, give, drop_out, all_exited,
}

module _ {T : Type 0} (p : T → Bool) where
  -- How many items of a list, and of lists, have the property.
  abbrev pub count : List T → ℕ
  count [] = 0
  count (v ∷ vs) = (if p v then 1 else 0) + count vs

  abbrev pub count_all : List (List T) → ℕ
  count_all [] = 0
  count_all (xs ∷ xss) = count xs + count_all xss

  abbrev pub to_come : List (Forwarder T) → ℕ
  to_come [] = 0
  to_come (w ∷ ws) = count (held w.holding) + count w.input + to_come ws

  -- Those of goroutines that have returned.
  abbrev pub left_in : List (Forwarder T) → ℕ
  left_in [] = 0
  left_in (w ∷ ws) = (if w.exited then count (held w.holding) + count w.input else 0) + left_in ws

  -- The items with the property, wherever they are.
  abbrev pub everywhere : Merger T → ℕ
  everywhere m = count m.received + count m.buffered + count m.lost + to_come m.forwarders

  pub count-append : (xs ys : List T) → count (xs ++ ys) ≡ count xs + count ys
  count-append [] ys = omega arith
  count-append (x ∷ xs) ys = omega (arith, count-append xs ys)

  -- A step that keeps what a goroutine holds and is to receive.
  abbrev pub Keeps : (Option T → List T → Bool → Option (Forwarder T)) → Type 0
  Keeps f =
      (o : Option T) (input : List T) (e : Bool) (w : Forwarder T)
      → f o input e ≡ some w
      → (count (held w.holding) + count w.input ≡ count (held o) + count input)
        × ((if w.exited then count (held w.holding) + count w.input else 0) ≡ 0)

  pub receive_next-Keeps : Keeps receive_next
  unfolding receive_next
  receive_next-Keeps none (v ∷ input) false w q = ground (arith, q)
  receive_next-Keeps none [] e w q = absurd (ground (arith, q))
  receive_next-Keeps none (v ∷ input) true w q = absurd (ground (arith, q))
  receive_next-Keeps (some u) input e w q = absurd (ground (arith, q))

  pub finish_one-Keeps : Keeps finish_one
  unfolding finish_one
  finish_one-Keeps none [] false w q = ground (arith, q)
  finish_one-Keeps none [] true w q = absurd (ground (arith, q))
  finish_one-Keeps none (v ∷ input) e w q = absurd (ground (arith, q))
  finish_one-Keeps (some u) input e w q = absurd (ground (arith, q))

  pub update-to_come :
      (f : Option T → List T → Bool → Option (Forwarder T)) (i : ℕ) (ws ws' : List (Forwarder T))
      → Keeps f
      → update f i ws ≡ some ws'
      → (to_come ws' ≡ to_come ws) × (left_in ws' ≤ left_in ws)
  unfolding update
  update-to_come f i [] ws' k q = absurd (ground (arith, q))
  update-to_come f zero (w ∷ ws) ws' k q = moved (f w.holding w.input w.exited) refl
    where
      moved :
          (r : Option (Forwarder T))
          → f w.holding w.input w.exited ≡ r
          → (to_come ws' ≡ to_come (w ∷ ws)) × (left_in ws' ≤ left_in (w ∷ ws))
      moved none e = absurd (ground (arith, q, e))
      moved (some w') e =
          let l = k w.holding w.input w.exited w' e in
          let s : ws' ≡ w' ∷ ws = ground (arith, q, e) in ground (arith, s, l)
  update-to_come f (suc i) (w ∷ ws) ws' k q =
      moved (update f i ws) refl (λ vs e. update-to_come f i ws vs k e)
    where
      moved :
          (r : Option (List (Forwarder T)))
          → update f i ws ≡ r
          → ((vs : List (Forwarder T))
              → update f i ws ≡ some vs
              → (to_come vs ≡ to_come ws) × (left_in vs ≤ left_in ws))
          → (to_come ws' ≡ to_come (w ∷ ws)) × (left_in ws' ≤ left_in (w ∷ ws))
      moved none e next = absurd (ground (arith, q, e))
      moved (some vs) e next =
          let s : ws' ≡ w ∷ vs = ground (arith, q, e) in ground (arith, s, next vs e)

  pub give-to_come :
      (i : ℕ) (ws : List (Forwarder T)) (v : T) (ws' : List (Forwarder T))
      → give i ws ≡ some (v, ws')
      → (to_come ws ≡ count (v ∷ []) + to_come ws') × (left_in ws' ≤ left_in ws)
  unfolding give
  give-to_come i [] v ws' q = absurd (ground (arith, q))
  give-to_come zero (w ∷ ws) v ws' q = given w.holding refl
    where
      given :
          (o : Option T)
          → w.holding ≡ o
          → (to_come (w ∷ ws) ≡ count (v ∷ []) + to_come ws') × (left_in ws' ≤ left_in (w ∷ ws))
      given none e = absurd (ground (arith, q, e))
      given (some u) e = ground (arith, q, e)
  give-to_come (suc i) (w ∷ ws) v ws' q =
      given (give i ws) refl (λ u vs e. give-to_come i ws u vs e)
    where
      given :
          (r : Option (T × List (Forwarder T)))
          → give i ws ≡ r
          → ((u : T) (vs : List (Forwarder T))
              → give i ws ≡ some (u, vs)
              → (to_come ws ≡ count (u ∷ []) + to_come vs) × (left_in vs ≤ left_in ws))
          → (to_come (w ∷ ws) ≡ count (v ∷ []) + to_come ws') × (left_in ws' ≤ left_in (w ∷ ws))
      given none e next = absurd (ground (arith, q, e))
      given (some (u, vs)) e next = ground (arith, q, e, next u vs e)

  pub drop_out-to_come :
      (i : ℕ) (ws : List (Forwarder T)) (vs : List T) (ws' : List (Forwarder T))
      → drop_out i ws ≡ some (vs, ws')
      → to_come ws ≡ count vs + to_come ws'
  unfolding drop_out
  drop_out-to_come i [] vs ws' q = absurd (ground (arith, q))
  drop_out-to_come zero (w ∷ ws) vs ws' q = ground (arith, q)
  drop_out-to_come (suc i) (w ∷ ws) vs ws' q =
      dropped (drop_out i ws) refl (λ us xs e. drop_out-to_come i ws us xs e)
    where
      dropped :
          (r : Option (List T × List (Forwarder T)))
          → drop_out i ws ≡ r
          → ((us : List T) (xs : List (Forwarder T))
              → drop_out i ws ≡ some (us, xs)
              → to_come ws ≡ count us + to_come xs)
          → to_come (w ∷ ws) ≡ count vs + to_come ws'
      dropped none e next = absurd (ground (arith, q, e))
      dropped (some (us, xs)) e next = ground (arith, q, e, next us xs e)

  pub exited-to_come : (ws : List (Forwarder T)) → all_exited ws ≡ true → to_come ws ≡ left_in ws
  unfolding all_exited
  exited-to_come [] h = refl
  exited-to_come (w ∷ ws) h = ground (arith, h, exited-to_come ws)
