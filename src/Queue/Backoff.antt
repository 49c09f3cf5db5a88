-- ===== src/Queue/Backoff.antt =====
-- The delay before a retry of a job (pkg/queue/queue.go).
use gkit_go.Prelude.{ℕ, zero, suc, ◌+◌, ◌-◌, ◌%◌, ap, ◌*◌, ◌^◌, ◌≤◌, ◌≡◌, min, arith}
use gkit_go.Queue.{backoff, doubled, hour}

two_pow-suc : (n : ℕ) → 2 ^ suc n ≡ 2 * 2 ^ n
two_pow-suc n = omega arith

two_pow_pos : (n : ℕ) → 1 ≤ 2 ^ n
two_pow_pos zero = omega arith
two_pow_pos (suc n) = omega (arith, two_pow-suc n, two_pow_pos n)

same_power : (m n : ℕ) → m ≡ n → 2 ^ m ≡ 2 ^ n
same_power m n p = ap (λ k. 2 ^ k) p

two_pow_le : (k n : ℕ) → 2 ^ n ≤ 2 ^ (k + n)
two_pow_le zero n = omega (arith, same_power (0 + n) n (omega arith))
two_pow_le (suc k) n =
    omega (
      arith,
      same_power (suc k + n) (suc (k + n)) (omega arith),
      two_pow-suc (k + n),
      two_pow_le k n,
    )

small : (attempts : ℕ) → attempts ≤ 29 → 2 ^ attempts ≤ 536870912
small attempts h = omega (
  arith,
  same_power (29 - attempts + attempts) 29 (omega arith),
  two_pow_le (29 - attempts) attempts,
)

exact_when : (x : ℕ) → x ≤ 536870912 → (x % 2 ^ 64 * 10 * 10 ^ 9) % 2 ^ 64 ≡ x * 10 * 10 ^ 9
exact_when x h = omega arith

doubled_exact : (attempts : ℕ) → attempts ≤ 29 → doubled attempts ≡ 2 ^ attempts * 10 * 10 ^ 9
unfolding doubled
doubled_exact attempts h = exact_when (2 ^ attempts) (small attempts h)

-- Up to 29 attempts the delay is 10 seconds doubled for each attempt, capped at an hour.
backoff-min :
    (attempts : ℕ) → attempts ≤ 29 → backoff attempts ≡ min (2 ^ attempts * 10 * 10 ^ 9) hour
unfolding backoff
backoff-min attempts h = ground (arith, doubled_exact attempts h, small attempts h)
