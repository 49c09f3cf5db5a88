-- ===== src/Graceful.antt =====
-- The shutdown group, pkg/graceful/shutdown.go. A hook acts on the world `W`, in which the deadline
-- of its context counts, and returns an error or none.
pub mod Order
mod Tests
use Prim.Native.String.{String}
use gkit_go.Prelude.{ℕ, Option, none, some, List, [], ◌∷◌, ◌++◌, length, index_down, ◌>>=◌}

pub record Registration (W E : Type 0) : Type 0 where
  pub name : String
  pub fn : W → Option E × W

-- `fmt.Errorf("graceful: %s: %w", r.name, err)`
pub record HookError (E : Type 0) : Type 0 where
  pub name : String
  pub err : E

pub record Group (W E : Type 0) : Type 0 where
  pub timeout : ℕ
  pub hooks : List (Registration W E)

abbrev pub collect : {E : Type 0} → String → Option E → List (HookError E) → List (HookError E)
collect name none errs = errs
collect name (some err) errs = errs ++ record { name = name; err = err } ∷ []

module _ {W E : Type 0} where
  unfoldable pub new : Group W E
  new = record { timeout = 30_000_000_000; hooks = [] }

  unfoldable pub register : Registration W E → Group W E → Group W E
  register r g = record g { hooks = g.hooks ++ r ∷ [] }

  abbrev pub shutdown_hook :
      Registration W E → List (HookError E) × W → Option (List (HookError E) × W)
  shutdown_hook r (errs, w) = let (err, w') = r.fn w in some (collect r.name err errs, w')

  -- The list is what `errors.Join` gets: no error is nil. `none` is an index out of range.
  unfoldable pub shutdown : Group W E → W → Option (List (HookError E) × W)
  shutdown g w = index_down g.hooks shutdown_hook (length g.hooks) ([], w)
