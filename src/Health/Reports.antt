-- ===== src/Health/Reports.antt =====
-- When a report is healthy (pkg/health/health.go).
use gkit_go.Prelude.{
  ◌≡◌, ◌↔◌, refl, true, false, none, some, List, [], ◌∷◌, map, arith, All, inl, inr, Option-cases,
  Bool-cases,
}
use gkit_go.Health.{Registration, Status, check_one, all_healthy, check, status_code}

module _ {E : Type 0} where
  abbrev pub Passes : Registration E → Type 0
  Passes r = r.outcome ≡ none

  all_healthy-false : (results : List (Status E)) → all_healthy results false ≡ false
  unfolding all_healthy
  all_healthy-false [] = refl
  all_healthy-false (s ∷ results) = ground (arith, all_healthy-false results)

  check_one_passing : (r : Registration E) → Passes r → (check_one r).healthy ≡ true
  unfolding check_one
  check_one_passing r p = ground (arith, p)

  check_one_failing :
      (r : Registration E) (e : E) → r.outcome ≡ some e → (check_one r).healthy ≡ false
  unfolding check_one
  check_one_failing r e p = ground (arith, p)

  healthy-All :
      (regs : List (Registration E))
      → all_healthy (map check_one regs) true ≡ true
      → All Passes regs
  unfolding all_healthy
  healthy-All [] h = tt
  healthy-All (r ∷ regs) h = elim (Option-cases r.outcome) [
    | inl p ↦ (p, healthy-All regs (ground (arith, h, check_one_passing r p)))
    | inr (e, p) ↦
        absurd (ground (arith, h, check_one_failing r e p, all_healthy-false (map check_one regs)))
  ]

  All-healthy :
      (regs : List (Registration E))
      → All Passes regs
      → all_healthy (map check_one regs) true ≡ true
  unfolding all_healthy
  All-healthy [] h = refl
  All-healthy (r ∷ regs) h = ground (arith, check_one_passing r h.0, All-healthy regs h.1)

  -- The handler answers 200 exactly when every registered check passes, and 503 exactly when
  -- not every one does.
  check-Passes :
      (regs : List (Registration E))
      → ((status_code (check regs) ≡ 200) ↔ All Passes regs)
        × ((status_code (check regs) ≡ 503) ↔ (All Passes regs → ⊥))
  unfolding status_code check
  check-Passes regs = (
    ((λ h. healthy-All regs (ground (arith, h))), (λ h. ground (arith, All-healthy regs h))),
    (
      (λ h a. absurd (ground (arith, h, All-healthy regs a))),
      (λ h. elim (Bool-cases (all_healthy (map check_one regs) true)) [
        | inl p ↦ absurd (h (healthy-All regs p))
        | inr p ↦ ground (arith, p)
      ]),
    ),
  )
