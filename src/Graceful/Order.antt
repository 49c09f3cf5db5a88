-- ===== src/Graceful/Order.antt =====
-- All hooks run, the last registered first (pkg/graceful/shutdown.go).
use Prim.Native.String.{String}
use gkit_go.Prelude.{
  ◌≡◌, refl, ◌∙◌, ap, Option, none, some, List, [], ◌∷◌, ◌++◌, reverse, reverse-append, append-nil,
  append_assoc, each_back, index_down-each_back,
}
use gkit_go.Graceful.{
  Registration, HookError, Group, new, register, shutdown_hook, collect, shutdown,
}

collect-append :
    {E : Type 0} (name : String) (o : Option E) (errs : List (HookError E))
    → collect name o errs ≡ errs ++ collect name o []
collect-append name none errs = simp append-nil
collect-append name (some err) errs = refl

module _ {W E : Type 0} where
  -- Every hook once, in the order of the list, whatever errors come; the errors in that order.
  abbrev pub run_all : List (Registration W E) → W → List (HookError E) × W
  run_all [] w = ([], w)
  run_all (r ∷ rs) w =
      let (err, w') = r.fn w in
      let (errs, w'') = run_all rs w' in (collect r.name err [] ++ errs, w'')

  abbrev pub register_all : List (Registration W E) → Group W E → Group W E
  register_all [] g = g
  register_all (r ∷ rs) g = register_all rs (register r g)

  -- One more hook at the end of the list.
  abbrev then_run : Registration W E → List (HookError E) × W → List (HookError E) × W
  then_run r (errs, w) = let (err, w') = r.fn w in (errs ++ collect r.name err [], w')

  run_all-append :
      (rs : List (Registration W E)) (r : Registration W E) (w : W)
      → run_all (rs ++ r ∷ []) w ≡ then_run r (run_all rs w)
  run_all-append [] r w = simp append-nil
  run_all-append (q ∷ rs) r w = simp (run_all-append rs r (q.fn w).1, append_assoc)

  hook_runs :
      (r : Registration W E) (s : List (HookError E) × W) → shutdown_hook r s ≡ some (then_run r s)
  hook_runs r (errs, w) = rw (collect-append r.name (r.fn w).0 errs)

  each_back-run_all :
      (rs : List (Registration W E)) (w : W)
      → each_back shutdown_hook rs ([], w) ≡ some (run_all (reverse rs) w)
  each_back-run_all [] w = refl
  each_back-run_all (r ∷ rs) w =
      rw (each_back-run_all rs w, reverse-append (r ∷ []) rs, run_all-append (reverse rs) r w)
        (hook_runs r (run_all (reverse rs) w))

  hooks-register_all :
      (rs : List (Registration W E)) (g : Group W E) → (register_all rs g).hooks ≡ g.hooks ++ rs
  unfolding register
  hooks-register_all [] g = simp append-nil
  hooks-register_all (r ∷ rs) g = simp (hooks-register_all rs (register r g), append_assoc)

  -- From a new group, shutdown runs each registered hook exactly once, in the reverse order of
  -- registration, whether or not others fail, and collects the errors in the order of the runs.
  shutdown-register :
      (rs : List (Registration W E)) (w : W)
      → shutdown (register_all rs new) w ≡ some (run_all (reverse rs) w)
  unfolding shutdown
  shutdown-register rs w =
      index_down-each_back (register_all rs new).hooks shutdown_hook ([], w)
      ∙ ap (λ (hs : List (Registration W E)). each_back shutdown_hook hs ([], w))
          (hooks-register_all rs new)
      ∙ unfold new in each_back-run_all rs w
