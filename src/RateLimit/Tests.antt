-- ===== src/RateLimit/Tests.antt =====
-- The rate limiters at concrete inputs, over whole numbers (pkg/ratelimit).
use gkit_go.Prelude.{ℕ, ◌*◌, refl, [], ◌∷◌, map_get, IsMap, ℕ_discrete}
use gkit_go.RateLimit.Float.{pos, whole}
use gkit_go.RateLimit.Limiter.{Limiter, new, op_allow, op_wait, run, IsFilled, limiter-IsFilled}
use gkit_go.RateLimit.Keyed.{KeyedLimiter}

abbrev second : ℕ → ℕ
second n = n * 1_000_000_000

-- Two tokens a second, at most five.
abbrev bucket : Limiter whole
bucket = record { rate = 2; burst = 5; tokens = 0; last_fill = 0 }

limiter-IsFilled_example : IsFilled whole (
    run whole
      (op_allow 7 (pos 4) ∷ op_wait (8 ∷ second 2 ∷ []) (pos 3) ∷ [])
      (new whole 0 2 (pos 5)))
limiter-IsFilled_example =
    limiter-IsFilled whole 0 2 5 (op_allow 7 (pos 4) ∷ op_wait (8 ∷ second 2 ∷ []) (pos 3) ∷ [])
      refl (tt, (tt, tt))

abbrev by_user : KeyedLimiter whole ℕ
by_user = record {
  rate = 2;
  burst = pos 5;
  ttl = 100;
  entries =
      (1, record { limiter = bucket; last_seen = 50 })
      ∷ (2, record { limiter = bucket; last_seen = 250 })
      ∷ [];
}

by_user-IsMap : IsMap ℕ_discrete by_user.entries
unfolding map_get ℕ_discrete
by_user-IsMap = (refl, (refl, tt))
