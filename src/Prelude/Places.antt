-- ===== src/Prelude/Places.antt =====
-- Results stored by index in the order in which they come.
use Prim.Native.Nat.{ℕ, zero, suc, ◌≤◌, ◌<◌}
use mathlib.Core.Path.{◌≡◌, refl, ◌∙◌, ap, sym}
use mathlib.Core.Logic.{◌⊎◌, inl, inr, ite}
use mathlib.Core.List.{List, [], ◌∷◌}
use mathlib.Core.Option.{none, some}
use native.Mathlib.Omega.{arith}
use native.Mathlib.Decide.{ℕ_discrete, dec_lt}
use gkit_go.Prelude.Lists.{length, get_elem?, All, Any}

module _ {ℓ} {A : Type ℓ} where
  -- `out[i] = v`; an index out of range changes nothing here.
  abbrev pub set_at : ℕ → A → List A → List A
  set_at i v [] = []
  set_at zero v (x ∷ xs) = v ∷ xs
  set_at (suc i) v (x ∷ xs) = x ∷ set_at i v xs

  pub length-set_at : (i : ℕ) (v : A) (xs : List A) → length (set_at i v xs) ≡ length xs
  length-set_at i v [] = refl
  length-set_at zero v (x ∷ xs) = refl
  length-set_at (suc i) v (x ∷ xs) = ground (arith, length-set_at i v xs)

  get_elem?-set_at :
      (i j : ℕ) (v : A) (xs : List A)
      → i < length xs
      → get_elem? (set_at i v xs) j ≡ ite (ℕ_discrete i j) (some v) (get_elem? xs j)
  get_elem?-set_at i j v [] h = absurd (omega arith)
  get_elem?-set_at zero zero v (x ∷ xs) h = ground arith
  get_elem?-set_at zero (suc j) v (x ∷ xs) h = ground arith
  get_elem?-set_at (suc i) zero v (x ∷ xs) h = ground arith
  get_elem?-set_at (suc i) (suc j) v (x ∷ xs) h =
      ground (arith, get_elem?-set_at i j v xs (omega arith))

  get_elem?-bound : (xs : List A) (i : ℕ) (v : A) → get_elem? xs i ≡ some v → i < length xs
  get_elem?-bound [] i v h = absurd (ground (arith, h))
  get_elem?-bound (x ∷ xs) zero v h = omega arith
  get_elem?-bound (x ∷ xs) (suc i) v h = omega (arith, get_elem?-bound xs i v h)

  abbrev pub set_all : List (ℕ × A) → List A → List A
  set_all [] out = out
  set_all ((i, v) ∷ results) out = set_all results (set_at i v out)

  -- Two lists with the same elements at all indices are the same.
  pub get_elem?-ext : (xs ys : List A) → ((i : ℕ) → get_elem? xs i ≡ get_elem? ys i) → xs ≡ ys
  get_elem?-ext [] [] h = refl
  get_elem?-ext [] (y ∷ ys) h = absurd (let e = h 0 in ground (arith, e))
  get_elem?-ext (x ∷ xs) [] h = absurd (let e = h 0 in ground (arith, e))
  get_elem?-ext (x ∷ xs) (y ∷ ys) h =
      let e : x ≡ y = (let q = h 0 in ground (arith, q)) in
      let r = get_elem?-ext xs ys (λ i. h (suc i)) in cc

  -- The results are those of the list at their indices.
  abbrev pub IsAt : List A → List (ℕ × A) → Type ℓ
  IsAt vs results = All (λ r. get_elem? vs r.0 ≡ some r.1) results

  set_all-get_elem? :
      (vs : List A) (results : List (ℕ × A)) (out : List A) (j : ℕ)
      → IsAt vs results
      → length out ≡ length vs
      → (Any (λ r. r.0 ≡ j) results ⊎ (get_elem? out j ≡ get_elem? vs j))
      → get_elem? (set_all results out) j ≡ get_elem? vs j
  set_all-get_elem? vs [] out j h l (inl a) = elim a [ ]
  set_all-get_elem? vs [] out j h l (inr e) = e
  set_all-get_elem? vs ((i, v) ∷ results) out j h l a =
      set_all-get_elem? vs results (set_at i v out) j h.1 (length-set_at i v out ∙ l) (placed a)
    where
      bound : i < length out
      bound = ground (arith, get_elem?-bound vs i v h.0, l)

      placed :
          Any (λ r. r.0 ≡ j) ((i, v) ∷ results) ⊎ (get_elem? out j ≡ get_elem? vs j)
          → Any (λ r. r.0 ≡ j) results ⊎ (get_elem? (set_at i v out) j ≡ get_elem? vs j)
      placed (inl (inl e)) = inr (ground (arith, get_elem?-set_at i j v out bound, h.0, e))
      placed (inl (inr a')) = inl a'
      placed (inr e) = inr (chosen (ℕ_discrete i j) (get_elem?-set_at i j v out bound))
        where
          chosen :
              (d : Dec (i ≡ j))
              → get_elem? (set_at i v out) j ≡ ite d (some v) (get_elem? out j)
              → get_elem? (set_at i v out) j ≡ get_elem? vs j
          chosen (yes q) p = p ∙ sym h.0 ∙ ap (get_elem? vs) q
          chosen (no n) p = p ∙ e

  pub get_elem?-past : (xs : List A) (j : ℕ) → length xs ≤ j → get_elem? xs j ≡ none
  get_elem?-past [] j h = refl
  get_elem?-past (x ∷ xs) zero h = absurd (omega arith)
  get_elem?-past (x ∷ xs) (suc j) h = get_elem?-past xs j (omega arith)

  set_all-length :
      (results : List (ℕ × A)) (out : List A) → length (set_all results out) ≡ length out
  set_all-length [] out = refl
  set_all-length ((i, v) ∷ results) out =
      set_all-length results (set_at i v out) ∙ length-set_at i v out

  -- Every index is among those of the results.
  abbrev pub Covers : List (ℕ × A) → ℕ → Type 0
  Covers results n = (j : ℕ) → j < n → Any (λ r. r.0 ≡ j) results

  -- In whatever order the results of a list come, all of them give the list.
  pub set_all-Covers :
      (vs : List A) (results : List (ℕ × A)) (out : List A)
      → IsAt vs results
      → length out ≡ length vs
      → Covers results (length vs)
      → set_all results out ≡ vs
  set_all-Covers vs results out h l c = get_elem?-ext (set_all results out) vs each
    where
      each : (j : ℕ) → get_elem? (set_all results out) j ≡ get_elem? vs j
      each j = elim (dec_lt j (length vs)) [
        | yes q ↦ set_all-get_elem? vs results out j h l (inl (c j q))
        | no n ↦
            get_elem?-past (set_all results out) j
              (ground (arith, n, set_all-length results out, l))
            ∙ sym (get_elem?-past vs j (ground (arith, n)))
      ]
