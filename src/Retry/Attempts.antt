-- ===== src/Retry/Attempts.antt =====
-- How many attempts a retry makes, and what it returns (pkg/retry/retry.go).
use gkit_go.Prelude.{
  ℕ, zero, suc, ◌+◌, ◌-◌, ◌≤◌, ◌≡◌, refl, true, false, Option, none, some, arith, inl, inr,
  Option-cases, Bool-cases, ltb, sym, subst,
}
use gkit_go.Retry.{
  Result, value, error, stop, context_error, stopped, sleep_error, max_attempts_error, Outcome,
  done, failed, Options, pause, attempts_from, retry,
}

module _ {W E : Type 0} (cfg : Options W E) where
  pause-sleeps :
      (attempt : ℕ) (e : E) (w w' : W) (e' : E)
      → pause cfg attempt e w ≡ (some e', w')
      → (d : ℕ) × (w₀ : W) × (cfg.sleep d w₀ ≡ (some e', w'))
  unfolding pause
  pause-sleeps attempt e w w' e' p =
      let (delay, w₀) = cfg.backoff attempt (cfg.on_retry (attempt + 1) e w) in
      (delay, w₀, ground arith)

module _ {T W E : Type 0} (fn : W → Result T E × W) (cfg : Options W E) where
  module _ (left attempt : ℕ) (last : Option E) (w w' : W) (live : cfg.ctx_err w ≡ none) where
    round_value :
        (v : T)
        → fn w ≡ (value v, w')
        → attempts_from fn cfg (suc left) attempt last w ≡ (done v, w')
    unfolding attempts_from
    round_value v p = ground arith

    round_stop :
        (e : E)
        → fn w ≡ (stop e, w')
        → attempts_from fn cfg (suc left) attempt last w ≡ (failed (stopped e), w')
    unfolding attempts_from
    round_stop e p = ground arith

    -- The last round ends without a pause.
    round_last :
        (e : E)
        → fn w ≡ (error e, w')
        → ltb attempt (cfg.max_attempts - 1) ≡ false
        → attempts_from fn cfg (suc left) attempt last w
          ≡ attempts_from fn cfg left (attempt + 1) (some e) w'
    unfolding attempts_from
    round_last e p q = ground arith

    round_asleep :
        (e e' : E) (w'' : W)
        → fn w ≡ (error e, w')
        → ltb attempt (cfg.max_attempts - 1) ≡ true
        → pause cfg attempt e w' ≡ (some e', w'')
        → attempts_from fn cfg (suc left) attempt last w ≡ (failed (sleep_error e'), w'')
    unfolding attempts_from
    round_asleep e e' w'' p q r = ground arith

    round_woken :
        (e : E) (w'' : W)
        → fn w ≡ (error e, w')
        → ltb attempt (cfg.max_attempts - 1) ≡ true
        → pause cfg attempt e w' ≡ (none, w'')
        → attempts_from fn cfg (suc left) attempt last w
          ≡ attempts_from fn cfg left (attempt + 1) (some e) w''
    unfolding attempts_from
    round_woken e w'' p q r = ground arith

  -- What an outcome says of the call that it comes from, and that nothing ran after that call.
  abbrev pub IsJustified : Outcome T E → W → Type 0
  IsJustified (done v) w = (w₀ : W) × (fn w₀ ≡ (value v, w))
  IsJustified (failed (context_error e)) w = cfg.ctx_err w ≡ some e
  IsJustified (failed (stopped e)) w = (w₀ : W) × (fn w₀ ≡ (stop e, w))
  IsJustified (failed (sleep_error e)) w = (d : ℕ) × (w₀ : W) × (cfg.sleep d w₀ ≡ (some e, w))
  IsJustified (failed (max_attempts_error m last)) w =
      (m ≡ cfg.max_attempts) × ((e : E) × (w₀ : W) × (last ≡ some e) × (fn w₀ ≡ (error e, w)))

  -- Where the rounds stand: one of them is left, or the last one has just failed.
  abbrev IsPending : ℕ → Option E → W → Type 0
  IsPending zero last w = (e : E) × (w₀ : W) × (last ≡ some e) × (fn w₀ ≡ (error e, w))
  IsPending (suc left) last w = Unit

  IsPending-after :
      (left attempt : ℕ) (e : E) (w w' : W) → fn w ≡ (error e, w') → IsPending left (some e) w'
  IsPending-after zero attempt e w w' p = (e, w, refl, p)
  IsPending-after (suc left) attempt e w w' p = tt

  abbrev Ends : Outcome T E × W → Type 0
  Ends o = IsJustified o.0 o.1

  -- Before the last round something is pending, whatever the world.
  IsPending-more :
      (left attempt : ℕ) (e : E) (w : W)
      → attempt + suc left ≡ cfg.max_attempts
      → ltb attempt (cfg.max_attempts - 1) ≡ true
      → IsPending left (some e) w
  IsPending-more zero attempt e w p h = ground arith
  IsPending-more (suc left) attempt e w p h = tt

  attempts_from-IsJustified :
      (left attempt : ℕ) (last : Option E) (w : W)
      → attempt + left ≡ cfg.max_attempts
      → IsPending left last w
      → Ends (attempts_from fn cfg left attempt last w)
  unfolding attempts_from
  attempts_from-IsJustified zero attempt last w p h = (refl, h)
  attempts_from-IsJustified (suc left) attempt last w p h = elim (Option-cases (cfg.ctx_err w)) [
    | inr (e, q) ↦ rw (q, attempts_from) q
    | inl live ↦
        called
          (λ e w''. attempts_from-IsJustified left (attempt + 1) (some e) w'' (omega (arith, p)))
          live (fn w) refl
  ]
    where
      paused :
          (next : ((e : E) (w'' : W)
            → IsPending left (some e) w''
            → Ends (attempts_from fn cfg left (attempt + 1) (some e) w'')))
          (live : cfg.ctx_err w ≡ none) (e : E) (w' : W)
          → fn w ≡ (error e, w')
          → ltb attempt (cfg.max_attempts - 1) ≡ true
          → (slept : Option E × W) → pause cfg attempt e w' ≡ slept
          → Ends (attempts_from fn cfg (suc left) attempt last w)
      paused next live e w' q more (some e', w'') r =
          subst Ends (sym (round_asleep left attempt last w w' live e e' w'' q more r))
            (pause-sleeps cfg attempt e w' w'' e' r)
      paused next live e w' q more (none, w'') r =
          subst Ends (sym (round_woken left attempt last w w' live e w'' q more r))
            (next e w'' (IsPending-more left attempt e w'' p more))

      called :
          (next : ((e : E) (w'' : W)
            → IsPending left (some e) w''
            → Ends (attempts_from fn cfg left (attempt + 1) (some e) w'')))
          (live : cfg.ctx_err w ≡ none) (r : Result T E × W)
          → fn w ≡ r
          → Ends (attempts_from fn cfg (suc left) attempt last w)
      called next live (value v, w') q =
          subst Ends (sym (round_value left attempt last w w' live v q)) (w, q)
      called next live (stop e, w') q =
          subst Ends (sym (round_stop left attempt last w w' live e q)) (w, q)
      called next live (error e, w') q = elim (Bool-cases (ltb attempt (cfg.max_attempts - 1))) [
        | inl more ↦ paused next live e w' q more (pause cfg attempt e w') refl
        | inr end ↦
            subst Ends (sym (round_last left attempt last w w' live e q end))
              (next e w' (IsPending-after left attempt e w w' q))
      ]

  -- With at least one attempt, the outcome of `Do` is justified by the last thing that ran: a value
  -- and a wrapped stop are what the last call of the function returned, the error of a sleep is
  -- that of the last sleep, an error of the context holds at the end, and `ErrMaxAttempts` carries
  -- the configured number of attempts and the error that the last call returned.
  pub retry-IsJustified :
      (w : W) → 1 ≤ cfg.max_attempts → IsJustified (retry fn cfg w).0 (retry fn cfg w).1
  unfolding retry
  retry-IsJustified w h = started cfg.max_attempts refl
    where
      started : (n : ℕ) → n ≡ cfg.max_attempts → Ends (attempts_from fn cfg n 0 none w)
      started zero p = ground arith
      started (suc n) p = attempts_from-IsJustified (suc n) 0 none w (omega (arith, p)) tt
