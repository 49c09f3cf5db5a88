-- ===== src/RateLimit/Limiter.antt =====
-- The token bucket, pkg/ratelimit/limiter.go. `time.Now` is an argument, in nanoseconds.
use gkit_go.Prelude.{
  ℕ, ◌-◌, ◌≡◌, Bool, true, false, List, [], ◌∷◌, Option, none, some, arith, if◌then◌else◌,
  Bool-cases, inl, inr, ◌++◌, All,
}
use gkit_go.RateLimit.Float.{ℤ, pos, negsuc, IsNonneg, Float64}

module _ (f : Float64) where
  open f use {F, zero_float, of_int, seconds, add, sub, mul, min_float, lt}

  pub record Limiter : Type 0 where
    pub rate : F
    pub burst : F
    pub tokens : F
    pub last_fill : ℕ

  unfoldable pub new : ℕ → F → ℤ → Limiter
  new now rate burst = record {
    rate = rate;
    burst = of_int burst;
    tokens = of_int burst;
    last_fill = now;
  }

  unfoldable pub refill : ℕ → Limiter → Limiter
  refill now l = record l {
    tokens = min_float l.burst (add l.tokens (mul (seconds (now - l.last_fill)) l.rate));
    last_fill = now;
  }

  unfoldable pub allow_n : ℕ → ℤ → Limiter → Limiter × Bool
  allow_n now n l =
      let l' = refill now l in
      if lt l'.tokens (of_int n)
      then (l', false)
      else (record l' { tokens = sub l'.tokens (of_int n) }, true)

  unfoldable pub allow : ℕ → Limiter → Limiter × Bool
  unfolding allow_n
  allow now l = allow_n now (pos 1) l

  -- `Tokens()`
  unfoldable pub available : ℕ → Limiter → Limiter × F
  available now l = let l' = refill now l in (l', l'.tokens)

  -- `WaitN`: the clock reads one time after another, one for each round of the loop; it returns at
  -- the first round that has enough tokens. `none` is a wait that has not ended, and goes on after
  -- the last of the times or is cancelled.
  unfoldable pub wait_n : List ℕ → ℤ → Limiter → Limiter × Option ℕ
  wait_n [] n l = (l, none)
  wait_n (now ∷ times) n l =
      let l' = refill now l in
      elim (lt l'.tokens (of_int n)) [
        | false ↦ (record l' { tokens = sub l'.tokens (of_int n) }, some now)
        | true ↦ wait_n times n l'
      ]

  -- The bucket holds no less than nothing and no more than the burst.
  pub record IsFilled (l : Limiter) : Type 0 where
    pub rate_nonneg : lt l.rate zero_float ≡ false
    pub burst_nonneg : lt l.burst zero_float ≡ false
    pub nonneg : lt l.tokens zero_float ≡ false
    pub capped : lt l.burst l.tokens ≡ false

  refill-IsFilled : (now : ℕ) (l : Limiter) → IsFilled l → IsFilled (refill now l)
  unfolding refill
  refill-IsFilled now l h =
      let gain = mul (seconds (now - l.last_fill)) l.rate in
      let more = add l.tokens gain in
      record {
        rate_nonneg = h.rate_nonneg;
        burst_nonneg = h.burst_nonneg;
        nonneg = f.le-min l.burst more zero_float h.burst_nonneg (
            f.add_nonneg l.tokens gain h.nonneg (
              f.mul_nonneg (seconds (now - l.last_fill)) l.rate
                (f.seconds_nonneg (now - l.last_fill)) h.rate_nonneg));
        capped = f.min-le_left l.burst more;
      }

  -- Tokens that are there may be taken.
  taken-IsFilled :
      (n : ℤ) (l : Limiter)
      → IsNonneg n
      → IsFilled l
      → lt l.tokens (of_int n) ≡ false
      → IsFilled (record l { tokens = sub l.tokens (of_int n) })
  taken-IsFilled (negsuc n) l k h p = elim k [ ]
  taken-IsFilled (pos n) l k h p = record {
    rate_nonneg = h.rate_nonneg;
    burst_nonneg = h.burst_nonneg;
    nonneg = f.sub_nonneg l.tokens (of_int (pos n)) p;
    capped =
        f.le_trans (sub l.tokens (of_int (pos n))) l.tokens l.burst
          (f.sub-le l.tokens (of_int (pos n)) (f.of_int_nonneg n)) h.capped;
  }

  allow_n-IsFilled :
      (now : ℕ) (n : ℤ) (l : Limiter) → IsNonneg n → IsFilled l → IsFilled (allow_n now n l).0
  unfolding allow_n
  allow_n-IsFilled now n l k h = elim (Bool-cases (lt (refill now l).tokens (of_int n))) [
    | inl short ↦ rw short (refill-IsFilled now l h)
    | inr enough ↦ rw enough (taken-IsFilled n (refill now l) k (refill-IsFilled now l h) enough)
  ]

  wait_n-IsFilled :
      (times : List ℕ) (n : ℤ) (l : Limiter)
      → IsNonneg n
      → IsFilled l
      → IsFilled (wait_n times n l).0
  unfolding wait_n
  wait_n-IsFilled [] n l k h = h
  wait_n-IsFilled (now ∷ times) n l k h = elim (Bool-cases (lt (refill now l).tokens (of_int n))) [
    | inl short ↦
        rw (short, wait_n) (wait_n-IsFilled times n (refill now l) k (refill-IsFilled now l h))
    | inr enough ↦
        rw (enough, wait_n) (taken-IsFilled n (refill now l) k (refill-IsFilled now l h) enough)
  ]

  -- One call on a bucket that goroutines share; a wait is its rounds.
  pub data Op : Type 0 where
    op_allow : ℕ → ℤ → Op
    op_wait : List ℕ → ℤ → Op
    op_tokens : ℕ → Op

  -- It asks for no negative number of tokens.
  abbrev pub IsAsked : Op → Type 0
  IsAsked (op_allow now n) = IsNonneg n
  IsAsked (op_wait times n) = IsNonneg n
  IsAsked (op_tokens now) = Unit {0}

  unfoldable pub step : Op → Limiter → Limiter
  step (op_allow now n) l = (allow_n now n l).0
  step (op_wait times n) l = (wait_n times n l).0
  step (op_tokens now) l = (available now l).0

  unfoldable pub run : List Op → Limiter → Limiter
  run [] l = l
  run (op ∷ ops) l = run ops (step op l)

  step-IsFilled : (op : Op) (l : Limiter) → IsAsked op → IsFilled l → IsFilled (step op l)
  unfolding step available
  step-IsFilled (op_allow now n) l k h = allow_n-IsFilled now n l k h
  step-IsFilled (op_wait times n) l k h = wait_n-IsFilled times n l k h
  step-IsFilled (op_tokens now) l k h = refill-IsFilled now l h

  run-IsFilled : (ops : List Op) (l : Limiter) → All IsAsked ops → IsFilled l → IsFilled (run ops l)
  unfolding run
  run-IsFilled [] l k h = h
  run-IsFilled (op ∷ ops) l k h = run-IsFilled ops (step op l) k.1 (step-IsFilled op l k.0 h)

  pub new-IsFilled :
      (now : ℕ) (rate : F) (burst : ℕ)
      → lt rate zero_float ≡ false
      → IsFilled (new now rate (pos burst))
  unfolding new
  new-IsFilled now rate burst h = record {
    rate_nonneg = h;
    burst_nonneg = f.of_int_nonneg burst;
    nonneg = f.of_int_nonneg burst;
    capped = f.lt_irrefl (of_int (pos burst));
  }

  -- A bucket with a rate and a burst of at least 0 never holds less than nothing nor more than its
  -- burst, whatever calls of AllowN, WaitN and Tokens come, at whatever times and in whatever order,
  -- as long as none asks for a negative number of tokens.
  pub limiter-IsFilled :
      (now : ℕ) (rate : F) (burst : ℕ) (ops : List Op)
      → lt rate zero_float ≡ false
      → All IsAsked ops
      → IsFilled (run ops (new now rate (pos burst)))
  limiter-IsFilled now rate burst ops h k =
      run-IsFilled ops (new now rate (pos burst)) k (new-IsFilled now rate burst h)

  -- If a wait has not ended in the rounds before the reading `now` of the clock, and `AllowN` on the
  -- bucket that they leave is granted at `now`, the wait ends there, with what `AllowN` leaves.
  wait_n-first :
      (early : List ℕ) (now : ℕ) (late : List ℕ) (n : ℤ) (l : Limiter)
      → (wait_n early n l).1 ≡ none
      → (allow_n now n (wait_n early n l).0).1 ≡ true
      → wait_n (early ++ now ∷ late) n l ≡ ((allow_n now n (wait_n early n l).0).0, some now)
  unfolding wait_n allow_n
  wait_n-first [] now late n l p q = ground arith
  wait_n-first (t ∷ early) now late n l p q =
      ground (arith, wait_n-first early now late n (refill t l))
