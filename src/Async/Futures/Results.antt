-- ===== src/Async/Futures/Results.antt =====
-- What Await and All return (pkg/async/future.go).
use gkit_go.Prelude.{
  ℕ, suc, ◌+◌, ◌-◌, ◌<◌, ◌≡◌, refl, sym, ap, ◌∙◌, Bool, Option, none, some, List, [], ◌∷◌, ◌++◌,
  length, length-replicate, replicate, append-nil, set_at, set_all, IsAt, Covers, set_all-Covers,
  arith, Option-cases, inl, inr,
}
use gkit_go.Async.Futures.{
  Result, value, error, Future, resolve, await, take_result, all_from, all_results,
}

-- Results without an error, as they come.
abbrev pub valued : {T E : Type 0} → List (ℕ × T) → List (ℕ × Result T E)
valued [] = []
valued ((i, v) ∷ results) = (i, value v) ∷ valued results

module _ {T E : Type 0} where
  -- Once an Await of a future has returned, every later one returns the same, whatever comes through
  -- the channel and whichever contexts have ended: the error of the first context too.
  pub await-await :
      (ctx later : Option E) (late later_late : Bool) (r : Result T E) (f f' : Future T E)
      (more : Result T E)
      → await ctx late f ≡ some (f', r)
      → await later later_late (resolve more f') ≡ some (resolve more f', r)
  unfolding await resolve
  await-await ctx later late later_late r f f' more e = elim (Option-cases f.cached) [
    | inr (c, p) ↦ ground (arith, e, p)
    | inl p ↦ taken (take_result f.channel ctx late) refl p
  ]
    where
      taken :
          (t : Option (Result T E))
          → take_result f.channel ctx late ≡ t
          → f.cached ≡ none
          → await later later_late (resolve more f') ≡ some (resolve more f', r)
      taken none q p = absurd (ground (arith, e, p, q))
      taken (some s) q p = ground (arith, e, p, q)

  all_from-values :
      (left : ℕ) (results : List (ℕ × T)) (out : List T) (rest : List (ℕ × Result T E))
      → all_from (length results + left) (valued results ++ rest) none out
        ≡ all_from left rest none (set_all results out)
  unfolding all_from
  all_from-values left [] out rest = ground arith
  all_from-values left ((i, v) ∷ results) out rest =
      ap (λ n. all_from n ((i, value v) ∷ valued results ++ rest) none out)
        (let e : suc (length results) + left ≡ suc (length results + left) = omega arith in e)
      ∙ all_from-values left results (set_at i v out) rest

  -- In whatever order the values of all the futures come, All returns them in the order of the
  -- futures; and if an error comes after the values of some of them, All returns that error.
  all_results-values :
      (blank : T) (vs : List T) (results : List (ℕ × T))
      → IsAt vs results
      → (Covers results (length vs)
          → length results ≡ length vs
          → all_results {E = E} blank (length vs) (valued results) none ≡ some (value vs))
        × ((i : ℕ) (e : E) (rest : List (ℕ × Result T E))
            → length results < length vs
            → all_results blank (length vs) (valued results ++ (i, error e) ∷ rest) none
              ≡ some (error e))
  unfolding all_results all_from
  all_results-values blank vs results h = (whole, failing)
    where
      start : List T
      start = replicate (length vs) blank

      whole :
          Covers results (length vs)
          → length results ≡ length vs
          → all_results {E = E} blank (length vs) (valued results) none ≡ some (value vs)
      whole c l =
          let e : length vs ≡ length results + 0 = omega (arith, l) in
          ap (λ n. all_from n (valued results) none start) e
          ∙ ap (λ l. all_from (length results + 0) l none start) (sym (append-nil (valued results)))
          ∙ all_from-values 0 results start []
          ∙ ap (λ l. some (value l))
              (set_all-Covers vs results start h (length-replicate (length vs) blank) c)

      failing :
          (i : ℕ) (e : E) (rest : List (ℕ × Result T E))
          → length results < length vs
          → all_results blank (length vs) (valued results ++ (i, error e) ∷ rest) none
            ≡ some (error e)
      failing i e' rest l =
          let e : length vs ≡ length results + suc (length vs - length results - 1) =
            omega (arith, l) in
          ap (λ n. all_from n (valued results ++ (i, error e') ∷ rest) none start) e
          ∙ all_from-values (suc (length vs - length results - 1)) results start
              ((i, error e') ∷ rest)
