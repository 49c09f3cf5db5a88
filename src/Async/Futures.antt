-- ===== src/Async/Futures.antt =====
-- Futures, pkg/async/future.go. Which case of a select is taken where both are ready, and the order in
-- which results come, are arguments.
pub mod Results
use gkit_go.Prelude.{
  ℕ, zero, suc, Bool, true, false, Option, none, some, List, [], ◌∷◌, replicate, set_at,
}

-- `result`
pub data Result (T E : Type 0) : Type 0 where
  value : T → Result T E
  error : E → Result T E

-- `Future`: the result in its channel, and the one that the first `Await` has cached.
pub record Future (T E : Type 0) : Type 0 where
  pub channel : Option (Result T E)
  pub cached : Option (Result T E)

module _ {T E : Type 0} where
  -- `Async`, before its goroutine has ended, and the send of its result.
  unfoldable pub new_future : Future T E
  new_future = record { channel = none; cached = none }

  unfoldable pub resolve : Result T E → Future T E → Future T E
  resolve r f = record f { channel = some r }

  abbrev pub take_result : Option (Result T E) → Option E → Bool → Option (Result T E)
  take_result none none late = none
  take_result none (some e) late = some (error e)
  take_result (some r) none late = some r
  take_result (some r) (some e) true = some (error e)
  take_result (some r) (some e) false = some r

  -- `Await`, by the error of the context if it has ended, and whether the select takes that case; `none`
  -- blocks.
  unfoldable pub await : Option E → Bool → Future T E → Option (Future T E × Result T E)
  await ctx late f = elim f.cached [
    | some r ↦ some (f, r)
    | none ↦ elim (take_result f.channel ctx late) [
      | none ↦ none
      | some r ↦ some (record f { cached = some r }, r)
    ]
  ]

  -- The loop of `All`, with the receives that are left, over what comes through its channel; the
  -- context may end before a receive, and `none` blocks.
  unfoldable pub all_from :
      ℕ → List (ℕ × Result T E) → Option (ℕ × E) → List T → Option (Result (List T) E)
  all_from zero results stop out = some (value out)
  all_from (suc left) results (some (zero, e)) out = some (error e)
  all_from (suc left) [] none out = none
  all_from (suc left) [] (some (suc n, e)) out = none
  all_from (suc left) ((i, error e) ∷ results) none out = some (error e)
  all_from (suc left) ((i, error e) ∷ results) (some (suc n, e')) out = some (error e)
  all_from (suc left) ((i, value v) ∷ results) none out =
      all_from left results none (set_at i v out)
  all_from (suc left) ((i, value v) ∷ results) (some (suc n, e)) out =
      all_from left results (some (n, e)) (set_at i v out)

  -- `All` of `n` futures, from the results of their `Await`s; `blank` is the zero value.
  unfoldable pub all_results :
      T → ℕ → List (ℕ × Result T E) → Option (ℕ × E) → Option (Result (List T) E)
  unfolding all_from
  all_results blank n results stop = all_from n results stop (replicate n blank)

  -- `Race`, from the results in the order in which they come; `none` blocks.
  unfoldable pub race : List (Result T E) → Option E → Bool → Option (Result T E)
  race [] ctx late = take_result none ctx late
  race (r ∷ results) ctx late = take_result (some r) ctx late
