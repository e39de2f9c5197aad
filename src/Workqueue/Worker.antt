-- ===== src/Workqueue/Worker.antt =====
-- `wq_thread_fn`, `alloc_workqueue` and `destroy_workqueue` of src/compat/rtw88_compat.c.
use airport_rtw.Base.{
  ℕ, ◌+◌, ◌-◌, Bool, true, false, not, ◌||◌, Option, none, some, List, [], ◌∷◌, if◌then◌else◌,
  update,
}
use airport_rtw.Workqueue.{State, set_work, set_queue}

-- The section that takes the first work off the list, up to the call of its function.
unfoldable pub pick : (q : ℕ) → ℕ → List ℕ → State → State
pick q w rest s =
    record (set_queue (set_work s w (record (s.works w) { pending = 0; executing = true })) q
      (record (s.queues q) { queue = rest; active = (s.queues q).active + 1 })) {
        current = update s.current q (some w);
      }

-- The section after the work's function has returned.
unfoldable pub finish : (q : ℕ) → ℕ → State → State
finish q w s =
    record (set_queue (set_work s w (record (s.works w) { executing = false })) q
      (record (s.queues q) { active = (s.queues q).active - 1 })) {
        current = update s.current q none;
      }

-- The loop of `wq_thread_fn` between two functions: a non-empty list is served, also when the
-- queue is no longer running; an empty one is waited on while it runs, and ends the thread after.
unfoldable pub serve : (q : ℕ) → List ℕ → State → State
unfolding pick
serve q [] s =
    if (s.queues q).running then s else set_queue s q (record (s.queues q) { done = true })
serve q (w ∷ rest) s = pick q w rest s

abbrev pub resume : (q : ℕ) → Option ℕ → State → State
resume q none s = serve q (s.queues q).queue s
resume q (some w) s = finish q w s

-- One step of the thread of queue `q`. A thread that is done has ended.
unfoldable pub worker_step : (q : ℕ) → State → State
unfolding serve finish
worker_step q s = if (s.queues q).done then s else resume q (s.current q) s

-- `alloc_workqueue`, where its number, its thread and the lock are at hand.
unfoldable pub alloc_workqueue : (q : ℕ) → (block thread : Bool) → State → Bool × State
alloc_workqueue q block thread s =
    if not block || (not s.lock || not thread)
    then (false, s)
    else (true, set_queue s q (record { queue = []; running = true; done = false; active = 0 }))

-- `destroy_workqueue` up to its wait, and the test that ends the wait.
unfoldable pub destroy_begin : (q : ℕ) → State → State
destroy_begin q s = set_queue s q (record (s.queues q) { running = false })

unfoldable pub destroy_done : (q : ℕ) → State → Bool
destroy_done q s = (s.queues q).done
