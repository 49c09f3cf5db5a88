-- ===== src/Health.antt =====
-- Health checks, pkg/health/health.go. A registration carries what its checker returns within the
-- timeout; the goroutine of a check writes the result of its own index only.
pub mod Reports
mod Tests
use Prim.Native.String.{String}
use gkit_go.Prelude.{
  ℕ, Bool, true, false, not, Option, none, some, List, [], ◌∷◌, map, if◌then◌else◌,
}

-- `registration`
pub record Registration (E : Type 0) : Type 0 where
  pub name : String
  pub outcome : Option E

-- `Status`
pub record Status (E : Type 0) : Type 0 where
  pub name : String
  pub healthy : Bool
  pub error : Option E

-- `Report`, without its duration.
pub record Report (E : Type 0) : Type 0 where
  pub healthy : Bool
  pub checks : List (Status E)

module _ {E : Type 0} where
  -- The goroutine of a check.
  unfoldable pub check_one : Registration E → Status E
  check_one r = elim r.outcome [
    | none ↦ record { name = r.name; healthy = true; error = none }
    | some e ↦ record { name = r.name; healthy = false; error = some e }
  ]

  -- The loop over the results, from the report so far.
  unfoldable pub all_healthy : List (Status E) → Bool → Bool
  all_healthy [] healthy = healthy
  all_healthy (s ∷ results) healthy = all_healthy results (if not s.healthy then false else healthy)

  -- `Check`
  unfoldable pub check : List (Registration E) → Report E
  check regs =
      let results = map check_one regs in
      record { healthy = all_healthy results true; checks = results }

  -- `Register`
  unfoldable pub register : List (Registration E) → Registration E → List (Registration E)
  register [] r = r ∷ []
  register (x ∷ regs) r = x ∷ register regs r

  -- The status that `handler` answers with.
  unfoldable pub status_code : Report E → ℕ
  status_code report = if not report.healthy then 503 else 200
