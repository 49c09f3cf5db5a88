-- ===== src/Pipeline/Tests.antt =====
-- Chains and the theorems at concrete inputs (pkg/pipeline/pipeline.go).
use gkit_go.Prelude.{
  ℕ, zero, suc, ◌%◌, ◌/◌, ◌==◌, List, Covers, inl, inr, arith, true, ◌+◌, ◌≡◌, refl, Option, none,
  some, [], ◌∷◌, ltb, if◌then◌else◌,
}
use gkit_go.Pipeline.Process.{process, process-Yields, undisturbed, run_jobs, work, gather}
use gkit_go.Pipeline.{Result, value, error, Stage, chain, compose, compose3}

-- Stages that count their calls in the world; the context ends after three.
abbrev add : ℕ → Stage ℕ ℕ ℕ ℕ
add n a w = (value (a + n), w + 1)

abbrev check_small : Stage ℕ ℕ ℕ ℕ
check_small a w = if ltb a 10 then (value a, w + 1) else (error a, w + 1)

abbrev three_calls : ℕ → Option ℕ
three_calls w = if ltb w 3 then none else some 99

stops : chain three_calls (add 4 ∷ add 7 ∷ check_small ∷ add 1 ∷ []) 1 0 ≡ (error 12, 3)
unfolding chain
stops = refl

ends : chain three_calls (add 1 ∷ add 1 ∷ add 1 ∷ add 1 ∷ []) 1 0 ≡ (error 99, 3)
unfolding chain
ends = refl

composes : compose3 (add 1) check_small (add 2) 5 0 ≡ (value 8, 3)
unfolding compose3 compose
composes = refl

abbrev halves : ℕ → Result ℕ ℕ
halves n = if n % 2 == 0 then value (n / 2) else error n

-- The jobs end in the order 1, 2, 0.
abbrev ends_in : List (ℕ × ℕ)
ends_in = (1, 4) ∷ (2, 1) ∷ (0, 3) ∷ []

ends_in-Covers : Covers ends_in 3
ends_in-Covers zero h = inr (inr (inl refl))
ends_in-Covers (suc zero) h = inl refl
ends_in-Covers (suc (suc zero)) h = inr (inl refl)
ends_in-Covers (suc (suc (suc j))) h = absurd (omega arith)

process-Yields_example :
    process 0 halves true (6 ∷ 8 ∷ 2 ∷ []) (undisturbed ends_in) ≡ some (value (3 ∷ 4 ∷ 1 ∷ []))
process-Yields_example =
    process-Yields 0 halves (6 ∷ 8 ∷ 2 ∷ []) (3 ∷ 4 ∷ 1 ∷ []) ends_in (refl, (refl, (refl, tt)))
      (refl, (refl, (refl, tt))) ends_in-Covers

-- The first error in the order of the results.
first_error :
    process 0 halves true (6 ∷ 5 ∷ 3 ∷ []) ((2, none) ∷ (0, none) ∷ (1, some 9) ∷ [])
    ≡ some (error 3)
unfolding process run_jobs work gather
first_error = refl
