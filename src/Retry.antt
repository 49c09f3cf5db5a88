-- ===== src/Retry.antt =====
-- The retry loop and its backoffs, pkg/retry/retry.go and pkg/retry/backoff.go. The function, the
-- callback, the sleep and the context act on the world `W`; durations are in nanoseconds.
pub mod Attempts
pub mod Delays
mod Tests
use gkit_go.Prelude.{
  ℕ, zero, suc, ◌+◌, ◌-◌, ◌*◌, ◌^◌, Bool, true, false, Option, none, some, ltb, leb, ◌==◌, ◌&&◌,
  if◌then◌else◌,
}

-- What the function returns: a value, an error, or an error wrapped by `Stop`.
pub data Result (T E : Type 0) : Type 0 where
  value : T → Result T E
  error : E → Result T E
  stop : E → Result T E

-- What `Do` returns beside a value: the error of the context or of a wrapped stop, the error of a
-- sleep, or `ErrMaxAttempts`.
pub data Failure (E : Type 0) : Type 0 where
  context_error : E → Failure E
  stopped : E → Failure E
  sleep_error : E → Failure E
  max_attempts_error : ℕ → Option E → Failure E

pub data Outcome (T E : Type 0) : Type 0 where
  done : T → Outcome T E
  failed : Failure E → Outcome T E

pub record Options (W E : Type 0) : Type 0 where
  pub max_attempts : ℕ
  pub backoff : ℕ → W → ℕ × W  -- `Next`, which may draw a random number
  pub on_retry : ℕ → E → W → W
  pub sleep : ℕ → W → Option E × W
  pub ctx_err : W → Option E

-- `none` is the panic of `WithMaxAttempts` below 1.
unfoldable pub with_max_attempts : {W E : Type 0} → ℕ → Options W E → Option (Options W E)
with_max_attempts n o = if ltb n 1 then none else some (record o { max_attempts = n })

module _ {W E : Type 0} (cfg : Options W E) where
  -- The end of a round that failed: the callback, and the sleep unless the delay is 0.
  unfoldable pub pause : ℕ → E → W → Option E × W
  pause attempt err w =
      let (delay, w') = cfg.backoff attempt (cfg.on_retry (attempt + 1) err w) in
      if ltb 0 delay then cfg.sleep delay w' else (none, w')

module _ {T W E : Type 0} (fn : W → Result T E × W) (cfg : Options W E) where
  -- The rounds from `attempt` on, with `left` of them to go.
  unfoldable pub attempts_from : ℕ → ℕ → Option E → W → Outcome T E × W
  attempts_from zero attempt last w = (failed (max_attempts_error cfg.max_attempts last), w)
  attempts_from (suc left) attempt last w = elim (cfg.ctx_err w) [
    | some e ↦ (failed (context_error e), w)
    | none ↦
        let (result, w') = fn w in
        elim result [
          | value v ↦ (done v, w')
          | stop e ↦ (failed (stopped e), w')
          | error e ↦ elim (ltb attempt (cfg.max_attempts - 1)) [
            | true ↦
                let (woken, w'') = pause cfg attempt e w' in
                elim woken [
                  | some e' ↦ (failed (sleep_error e'), w'')
                  | none ↦ attempts_from left (attempt + 1) (some e) w''
                ]
            | false ↦ attempts_from left (attempt + 1) (some e) w'
          ]
        ]
  ]

  -- `Do`
  unfoldable pub retry : W → Outcome T E × W
  unfolding attempts_from
  retry w = attempts_from cfg.max_attempts 0 none w

-- backoff.go

unfoldable pub constant_next : {W : Type 0} → ℕ → ℕ → W → ℕ × W
constant_next delay attempt w = (delay, w)

-- `ExponentialBackoff.Next`; `scaled attempt` is the conversion of `Initial * Multiplier ^ attempt`
-- from a float, where it is in the range of a duration.
unfoldable pub exponential_next : {W : Type 0} → (ℕ → ℕ) → ℕ → ℕ → W → ℕ × W
exponential_next scaled maximum attempt w =
    (if ltb 0 maximum && ltb maximum (scaled attempt) then maximum else scaled attempt, w)

-- `Jitter.Next`; `rand_n` is `rand.N`.
unfoldable pub jitter_next : {W : Type 0} → (ℕ → W → ℕ × W) → (ℕ → W → ℕ × W) → ℕ → W → ℕ × W
jitter_next rand_n base attempt w =
    let (d, w') = base attempt w in if leb d 0 then (0, w') else rand_n d w'
