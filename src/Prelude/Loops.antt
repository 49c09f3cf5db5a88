-- ===== src/Prelude/Loops.antt =====
-- Loops over a slice by index, from the last element to the first; `none` is an index out of range.
use Prim.Native.Nat.{ℕ, zero, suc, ◌≤◌, ◌<◌}
use mathlib.Core.Path.{◌≡◌, refl, ◌∙◌, ap, fun_ext}
use mathlib.Core.List.{List, [], ◌∷◌, ◌++◌}
use mathlib.Core.Option.{Option, none, some}
use native.Mathlib.Omega.{arith}
use gkit_go.Prelude.Lists.{length, get_elem?, take}

infixl 10 ◌>>=◌
abbrev pub ◌>>=◌ {ℓ κ} : {A : Type ℓ} {B : Type κ} → Option A → (A → Option B) → Option B
none >>= f = none
some a >>= f = f a

module _ {ℓ} {A : Type ℓ} where
  take-suc :
      (xs : List A) (i : ℕ) (x : A)
      → get_elem? xs i ≡ some x
      → take (suc i) xs ≡ take i xs ++ x ∷ []
  take-suc [] i x p = cc
  take-suc (y ∷ xs) zero x p = ground arith
  take-suc (y ∷ xs) (suc i) x p = ap (◌∷◌ y) (take-suc xs i x p)

  take-length : (xs : List A) → take (length xs) xs ≡ xs
  take-length [] = refl
  take-length (x ∷ xs) = ap (◌∷◌ x) (take-length xs)

  get_elem?-lt : (xs : List A) (i : ℕ) → i < length xs → (x : A) × (get_elem? xs i ≡ some x)
  get_elem?-lt [] i h = elim h [ ]
  get_elem?-lt (x ∷ xs) zero h = (x, refl)
  get_elem?-lt (x ∷ xs) (suc i) h = get_elem?-lt xs i (omega arith)

module _ {ℓ κ} {A : Type ℓ} {S : Type κ} where
  -- `for i := n - 1; i >= 0; i-- { s = body(xs[i], s) }`
  unfoldable pub index_down : List A → (A → S → Option S) → ℕ → S → Option S
  index_down xs body zero s = some s
  index_down xs body (suc i) s = do x ← get_elem? xs i; s' ← body x s; index_down xs body i s'

  -- The last element first.
  abbrev pub each_back : (A → S → Option S) → List A → S → Option S
  each_back body [] s = some s
  each_back body (x ∷ xs) s = do s' ← each_back body xs s; body x s'

  pub each_back-append :
      (body : A → S → Option S) (xs : List A) (x : A) (s : S)
      → each_back body (xs ++ x ∷ []) s ≡ (body x s >>= each_back body xs)
  each_back-append body [] x s = ground arith
  each_back-append body (y ∷ xs) x s = ground (arith, each_back-append body xs x s)

  index_down-take :
      (xs : List A) (body : A → S → Option S) (n : ℕ) (s : S)
      → n ≤ length xs
      → index_down xs body n s ≡ each_back body (take n xs) s
  unfolding index_down
  index_down-take xs body zero s h = refl
  index_down-take xs body (suc i) s h =
      let (x, p) = get_elem?-lt xs i h in
      rw (p, take-suc xs i x p, each_back-append body (take i xs) x s)
        (ap (λ (k : S → Option S). body x s >>= k)
          (fun_ext (λ s'. index_down-take xs body i s' (omega arith))))

  -- The whole loop visits every element, the last first, and never leaves the slice.
  pub index_down-each_back :
      (xs : List A) (body : A → S → Option S) (s : S)
      → index_down xs body (length xs) s ≡ each_back body xs s
  index_down-each_back xs body s =
      index_down-take xs body (length xs) s (omega arith)
      ∙ ap (λ (ys : List A). each_back body ys s) (take-length xs)
