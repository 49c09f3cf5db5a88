-- ===== src/Health/Tests.antt =====
-- Reports and the theorem at concrete inputs (pkg/health/health.go).
use gkit_go.Prelude.{ℕ, ◌≡◌, refl, true, false, none, some, [], ◌∷◌}
use gkit_go.Health.{Registration, check, check_one, all_healthy, register, status_code}

abbrev database : Registration ℕ
database = record { name = "database"; outcome = none }

abbrev cache : Registration ℕ
cache = record { name = "cache"; outcome = some 7 }

reports : check (register (register [] database) cache) ≡ record {
  healthy = false;
  checks =
      record { name = "database"; healthy = true; error = none }
      ∷ record { name = "cache"; healthy = false; error = some 7 }
      ∷ [];
}
unfolding check check_one all_healthy register
reports = refl

alive : status_code (check {E = ℕ} []) ≡ 200
unfolding status_code check all_healthy
alive = refl
