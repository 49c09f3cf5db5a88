-- ===== src/Retry/Delays.antt =====
-- How long a retry pauses (pkg/retry/backoff.go).
use gkit_go.Prelude.{ℕ, ◌<◌, ◌≤◌, arith}
use gkit_go.Retry.{exponential_next, jitter_next}

exponential_bound :
    {W : Type 0} (scaled : ℕ → ℕ) (maximum attempt : ℕ) (w : W)
    → 0 < maximum
    → (exponential_next scaled maximum attempt w).0 ≤ maximum
unfolding exponential_next
exponential_bound scaled maximum attempt w h = ground arith

module _ {W : Type 0} (rand_n : ℕ → W → ℕ × W)
    (in_range : (n : ℕ) (w : W) → 0 < n → (rand_n n w).0 < n) where
  jitter_bound :
      (base : ℕ → W → ℕ × W) (maximum attempt : ℕ) (w : W)
      → 0 < maximum
      → (base attempt w).0 ≤ maximum
      → (jitter_next rand_n base attempt w).0 < maximum
  unfolding jitter_next
  jitter_bound base maximum attempt w h p =
      ground (arith, in_range (base attempt w).0 (base attempt w).1)

  -- Where `rand.N` of a positive duration is below it, the delay of `Jitter` around an
  -- `ExponentialBackoff` with a positive `Max` is below `Max`, at every attempt.
  jitter-exponential_bound :
      (scaled : ℕ → ℕ) (maximum attempt : ℕ) (w : W)
      → 0 < maximum
      → (jitter_next rand_n (exponential_next scaled maximum) attempt w).0 < maximum
  jitter-exponential_bound scaled maximum attempt w h =
      jitter_bound (exponential_next scaled maximum) maximum attempt w h
        (exponential_bound scaled maximum attempt w h)
