-- ===== src/Retry/Tests.antt =====
-- Runs of the retry loop and its theorems at concrete inputs (pkg/retry/retry.go).
use gkit_go.Prelude.{ℕ, ◌+◌, ◌-◌, ◌*◌, ◌^◌, ◌<◌, ◌≡◌, refl, none, some, if◌then◌else◌, ltb, arith}
use gkit_go.Retry.{
  Result, value, error, done, failed, max_attempts_error, Options, retry, pause, attempts_from,
}
use gkit_go.Retry.Attempts.{IsJustified, retry-IsJustified}

-- A function that counts its calls and succeeds at the third.
abbrev third_time : ℕ → Result ℕ ℕ × ℕ
third_time w = if ltb w 2 then (error w, w + 1) else (value 7, w + 1)

abbrev attempts : ℕ → Options ℕ ℕ
attempts n = record {
  max_attempts = n;
  backoff = λ attempt w. (100 * 2 ^ attempt, w);
  on_retry = λ attempt e w. w;
  sleep = λ d w. (none, w);
  ctx_err = λ w. none;
}

third_works : retry third_time (attempts 3) 0 ≡ (done 7, 3)
unfolding retry attempts_from pause
third_works = refl

two_exhaust : retry third_time (attempts 2) 0 ≡ (failed (max_attempts_error 2 (some 1)), 2)
unfolding retry attempts_from pause
two_exhaust = refl

retry-IsJustified_example :
    IsJustified third_time
      (attempts 2)
      (retry third_time (attempts 2) 0).0
      (retry third_time (attempts 2) 0).1
retry-IsJustified_example = retry-IsJustified third_time (attempts 2) 0 (omega arith)

abbrev one_less : ℕ → ℕ → ℕ × ℕ
one_less n w = (n - 1, w)

one_less_below : (n w : ℕ) → 0 < n → (one_less n w).0 < n
one_less_below n w h = omega arith
