-- ===== src/Pipeline/Process.antt =====
-- `Process`, pkg/pipeline/pipeline.go. The order in which the jobs end, and whether the context has
-- ended when a job is taken, are arguments.
use gkit_go.Prelude.{
  ℕ, zero, suc, Bool, true, false, Option, none, some, List, [], ◌∷◌, ◌++◌, replicate, length,
  set_at, length-replicate, set_all, IsAt, Covers, set_all-Covers, get_elem?, ◌>>=◌, ◌≡◌, refl,
  arith, ap, ◌∙◌,
}
use gkit_go.Pipeline.{Result, value, error}

module _ {I O E : Type 0} where
  -- A worker with a job, by the error of the context, if it has ended.
  unfoldable pub work : (I → Result O E) → Option E → I → Result O E
  work fn none item = fn item
  work fn (some e) item = error e

  -- The results in the order in which the jobs end; `none` is a job that does not exist.
  unfoldable pub run_jobs :
      (I → Result O E) → List I → List (ℕ × Option E) → Option (List (ℕ × Result O E))
  unfolding work
  run_jobs fn items [] = some []
  run_jobs fn items ((i, ended) ∷ schedule) = do
    item ← get_elem? items i
    results ← run_jobs fn items schedule
    some ((i, work fn ended item) ∷ results)

abbrev or_first : {E : Type 0} → Option E → E → Option E
or_first none e = some e
or_first (some first) e = some first

module _ {O E : Type 0} where
  -- The loop that collects the results.
  unfoldable pub gather :
      Bool → List (ℕ × Result O E) → List O → List O → Option E → Result (List O) E
  gather true [] out unordered none = value out
  gather false [] out unordered none = value unordered
  gather ordered [] out unordered (some e) = error e
  gather ordered ((i, error e) ∷ results) out unordered first =
      gather ordered results out unordered (or_first first e)
  gather true ((i, value v) ∷ results) out unordered first =
      gather true results (set_at i v out) unordered first
  gather false ((i, value v) ∷ results) out unordered first =
      gather false results out (unordered ++ v ∷ []) first

-- A schedule in which no job finds the context ended, by the values of its jobs.
abbrev pub undisturbed : {O E : Type 0} → List (ℕ × O) → List (ℕ × Option E)
undisturbed [] = []
undisturbed ((i, v) ∷ results) = (i, none) ∷ undisturbed results

abbrev valued : {O E : Type 0} → List (ℕ × O) → List (ℕ × Result O E)
valued [] = []
valued ((i, v) ∷ results) = (i, value v) ∷ valued results

gather-valued :
    {O E : Type 0} (results : List (ℕ × O)) (out unordered : List O)
    → gather {E = E} true (valued results) out unordered none ≡ value (set_all results out)
unfolding gather
gather-valued [] out unordered = refl
gather-valued ((i, v) ∷ results) out unordered = gather-valued results (set_at i v out) unordered

module _ {I O E : Type 0} where
  -- `Process`; `blank` is the zero value.
  unfoldable pub process :
      O → (I → Result O E) → Bool → List I → List (ℕ × Option E) → Option (Result (List O) E)
  unfolding run_jobs gather
  process blank fn ordered [] schedule = some (value [])
  process blank fn ordered (item ∷ items) schedule = do
    results ← run_jobs fn (item ∷ items) schedule
    some (gather ordered results (replicate (length (item ∷ items)) blank) [] none)

  -- The function gives these values for the items.
  abbrev pub Yields : (I → Result O E) → List I → List O → Type 0
  Yields fn [] [] = Unit
  Yields fn [] (v ∷ vs) = ⊥
  Yields fn (x ∷ items) [] = ⊥
  Yields fn (x ∷ items) (v ∷ vs) = (fn x ≡ value v) × Yields fn items vs

  yielded :
      (fn : I → Result O E) (items : List I) (vs : List O) (i : ℕ) (v : O)
      → Yields fn items vs
      → get_elem? vs i ≡ some v
      → (x : I) × (get_elem? items i ≡ some x) × (fn x ≡ value v)
  yielded fn [] [] i v h p = absurd (ground (arith, p))
  yielded fn [] (w ∷ vs) i v h p = elim h [ ]
  yielded fn (x ∷ items) [] i v h p = elim h [ ]
  yielded fn (x ∷ items) (w ∷ vs) zero v h p =
      (x, refl, h.0 ∙ ap value (let e : w ≡ v = ground (arith, p) in e))
  yielded fn (x ∷ items) (w ∷ vs) (suc i) v h p = yielded fn items vs i v h.1 p

  Yields-length :
      (fn : I → Result O E) (items : List I) (vs : List O)
      → Yields fn items vs
      → length items ≡ length vs
  Yields-length fn [] [] h = refl
  Yields-length fn [] (w ∷ vs) h = elim h [ ]
  Yields-length fn (x ∷ items) [] h = elim h [ ]
  Yields-length fn (x ∷ items) (w ∷ vs) h = ground (arith, Yields-length fn items vs h.1)

  run_jobs-valued :
      (fn : I → Result O E) (items : List I) (vs : List O) (results : List (ℕ × O))
      → Yields fn items vs
      → IsAt vs results
      → run_jobs fn items (undisturbed results) ≡ some (valued results)
  unfolding run_jobs work
  run_jobs-valued fn items vs [] h g = refl
  run_jobs-valued fn items vs ((i, v) ∷ results) h g =
      let (x, p, q) = yielded fn items vs i v h g.0 in
      ground (arith, p, q, run_jobs-valued fn items vs results h g.1)

  -- With ordered results, when the function gives a value for every item and every job ends, in
  -- whatever order they do: Process returns the values in the order of the items.
  pub process-Yields :
      (blank : O) (fn : I → Result O E) (items : List I) (vs : List O) (results : List (ℕ × O))
      → Yields fn items vs
      → IsAt vs results
      → Covers results (length vs)
      → process blank fn true items (undisturbed results) ≡ some (value vs)
  unfolding process
  process-Yields blank fn [] [] results h g c = refl
  process-Yields blank fn [] (v ∷ vs) results h g c = elim h [ ]
  process-Yields blank fn (x ∷ items) vs results h g c =
      let size : length (replicate (length (x ∷ items)) blank) ≡ length vs =
        length-replicate (length (x ∷ items)) blank ∙ Yields-length fn (x ∷ items) vs h in
      rw (run_jobs-valued fn (x ∷ items) vs results h g) (
        ap some (
          gather-valued results (replicate (length (x ∷ items)) blank) []
          ∙ ap value (set_all-Covers vs results (replicate (length (x ∷ items)) blank) g size c)))
