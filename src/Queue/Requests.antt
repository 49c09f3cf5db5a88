-- ===== src/Queue/Requests.antt =====
-- The options of `Enqueue`, and the handlers map, pkg/queue/queue.go. The JSON of a payload is the
-- parameter `marshal`; the database does not fail.
use Prim.Native.String.{String}
use gkit_go.Prelude.{ℕ, Option, none, some, List, [], ◌∷◌, Assoc, map_put}
use gkit_go.Queue.{Row, enqueue}

-- `enqueueOpts`; a delay below 0 counts as 0.
pub record EnqueueOpts : Type 0 where
  pub max_attempts : ℕ
  pub delay : ℕ

-- `WithMaxAttempts` and `WithDelay`.
pub data EnqueueOption : Type 0 where
  with_max_attempts : ℕ → EnqueueOption
  with_delay : ℕ → EnqueueOption

unfoldable pub apply_option : EnqueueOption → EnqueueOpts → EnqueueOpts
apply_option (with_max_attempts n) o = record o { max_attempts = n }
apply_option (with_delay d) o = record o { delay = d }

unfoldable pub apply_options : List EnqueueOption → EnqueueOpts → EnqueueOpts
unfolding apply_option
apply_options [] o = o
apply_options (opt ∷ opts) o = apply_options opts (apply_option opt o)

unfoldable pub default_opts : EnqueueOpts
default_opts = record { max_attempts = 3; delay = 0 }

-- `Enqueue`; `none` is the error of the JSON.
unfoldable pub enqueue_request :
    {R P E : Type 0}
    → (R → Option P)
    → ℕ
    → ℕ
    → String
    → R
    → List EnqueueOption
    → List (Row P E)
    → Option (List (Row P E))
unfolding enqueue apply_options default_opts
enqueue_request marshal id now job_type payload opts rows =
    let o = apply_options opts default_opts in
    elim (marshal payload) [
      | none ↦ none
      | some raw ↦ some (enqueue id now job_type raw o.max_attempts o.delay rows)
    ]

-- `Register`
unfoldable pub register :
    {H : Type 0} → Discrete String → String → H → Assoc String H → Assoc String H
unfolding map_put
register dec job_type h handlers = map_put dec handlers job_type h
