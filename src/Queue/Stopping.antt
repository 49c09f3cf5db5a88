-- ===== src/Queue/Stopping.antt =====
-- What holds when `Stop` returns (pkg/queue/queue.go).
use gkit_go.Prelude.{
  ℕ, zero, suc, ◌+◌, ◌<◌, ◌≡◌, refl, subst, true, Option, none, some, List, [], ◌∷◌, arith,
}
use gkit_go.Queue.Workers.{
  Worker, selecting, working, exited, Workers, start, Action, ticked, processed, quit, all_exited,
  stop_called, stop_returned, context_ended, advance, have_exited, tick, process, leave, close_done,
  call_stop, return_stop, step, run,
}

-- An exited worker does not move.
advance-exited :
    (i : ℕ) (from to : Worker) (ws : List Worker)
    → have_exited ws ≡ true
    → advance i from to ws ≡ none
unfolding advance have_exited
advance-exited i from to [] h = refl
advance-exited zero selecting to (exited ∷ ws) h = refl
advance-exited zero working to (exited ∷ ws) h = refl
advance-exited zero exited to (exited ∷ ws) h = refl
advance-exited (suc i) from to (exited ∷ ws) h = ground (arith, advance-exited i from to ws h)
advance-exited i from to (selecting ∷ ws) h = absurd (ground (arith, h))
advance-exited i from to (working ∷ ws) h = absurd (ground (arith, h))

-- The channel `done` is closed only when all workers have exited, `Stop` returns only after that,
-- and the channel `stop` is closed once.
record IsOrderly (q : Workers) : Type 0 where
  done_exited : q.done_closed ≡ true → have_exited q.workers ≡ true
  returned_done : 0 < q.stopped → q.done_closed ≡ true
  closed_once : q.stop_closed ≡ true → q.once ≡ true
  calm : q.panics ≡ 0

moved-IsOrderly :
    (i : ℕ) (from to : Worker) (q : Workers) (ws : List Worker) (n : ℕ)
    → IsOrderly q
    → advance i from to q.workers ≡ some ws
    → IsOrderly (record q { workers = ws; batches = n })
moved-IsOrderly i from to q ws n h e = record {
  done_exited =
      λ d. absurd (ground (arith, e, advance-exited i from to q.workers (h.done_exited d)));
  returned_done = h.returned_done;
  closed_once = h.closed_once;
  calm = h.calm;
}

tick-IsOrderly : (i : ℕ) (q q' : Workers) → IsOrderly q → tick i q ≡ some q' → IsOrderly q'
unfolding tick
tick-IsOrderly i q q' h e = moved (advance i selecting working q.workers) refl
  where
    moved : (r : Option (List Worker)) → advance i selecting working q.workers ≡ r → IsOrderly q'
    moved none p = absurd (ground (arith, e, p))
    moved (some ws) p =
        subst IsOrderly (ground (arith, e, p))
          (moved-IsOrderly i selecting working q ws (q.batches + 1) h p)

process-IsOrderly : (i : ℕ) (q q' : Workers) → IsOrderly q → process i q ≡ some q' → IsOrderly q'
unfolding process
process-IsOrderly i q q' h e = moved (advance i working selecting q.workers) refl
  where
    moved : (r : Option (List Worker)) → advance i working selecting q.workers ≡ r → IsOrderly q'
    moved none p = absurd (ground (arith, e, p))
    moved (some ws) p =
        subst IsOrderly (ground (arith, e, p))
          (moved-IsOrderly i working selecting q ws q.batches h p)

leave-IsOrderly : (i : ℕ) (q q' : Workers) → IsOrderly q → leave i q ≡ some q' → IsOrderly q'
unfolding leave
leave-IsOrderly i q q' h e = moved (advance i selecting exited q.workers) refl
  where
    moved : (r : Option (List Worker)) → advance i selecting exited q.workers ≡ r → IsOrderly q'
    moved none p = absurd (ground (arith, e, p))
    moved (some ws) p =
        subst IsOrderly (ground (arith, e, p))
          (moved-IsOrderly i selecting exited q ws q.batches h p)

step-IsOrderly : (a : Action) (q q' : Workers) → IsOrderly q → step a q ≡ some q' → IsOrderly q'
unfolding step close_done call_stop return_stop
step-IsOrderly (ticked i) q q' h e = tick-IsOrderly i q q' h e
step-IsOrderly (processed i) q q' h e = process-IsOrderly i q q' h e
step-IsOrderly (quit i) q q' h e = leave-IsOrderly i q q' h e
step-IsOrderly all_exited q q' h e = ground arith
step-IsOrderly stop_called q q' h e = ground arith
step-IsOrderly stop_returned q q' h e = ground arith
step-IsOrderly context_ended q q' h e = ground arith

run-IsOrderly :
    (actions : List Action) (q q' : Workers) → IsOrderly q → run actions q ≡ some q' → IsOrderly q'
unfolding run
run-IsOrderly [] q q' h e = ground (arith, h, e)
run-IsOrderly (a ∷ actions) q q' h e = stepped (step a q) refl (λ r. run-IsOrderly actions r q')
  where
    stepped :
        (r : Option Workers)
        → step a q ≡ r
        → ((c : Workers) → IsOrderly c → run actions c ≡ some q' → IsOrderly q')
        → IsOrderly q'
    stepped none p next = absurd (ground (arith, p, e))
    stepped (some c) p next = next c (step-IsOrderly a q c h p) (ground (arith, p, e))

start-IsOrderly : (n : ℕ) → IsOrderly (start n)
unfolding start
start-IsOrderly n = record {
  done_exited = λ d. absurd (ground (arith, d));
  returned_done = λ l. absurd (omega (arith, l));
  closed_once = λ c. absurd (ground (arith, c));
  calm = refl;
}

-- However n workers, the calls of Stop and the end of the context interleave: the channel that
-- stops them is closed at most once, and once a call of Stop has returned, every worker has exited,
-- so that none of them begins a batch or ends one from then on.
pub stop-IsFinal :
    (n i : ℕ) (actions : List Action) (q : Workers)
    → run actions (start n) ≡ some q
    → 0 < q.stopped
    → (q.panics ≡ 0) × ((have_exited q.workers ≡ true) × ((tick i q ≡ none) × (process i q ≡ none)))
unfolding tick process
stop-IsFinal n i actions q e l =
    let h = run-IsOrderly actions (start n) q (start-IsOrderly n) e in
    let x = h.done_exited (h.returned_done l) in
    (
      h.calm,
      (
        x,
        (
          ground (arith, advance-exited i selecting working q.workers x),
          ground (arith, advance-exited i working selecting q.workers x),
        ),
      ),
    )
