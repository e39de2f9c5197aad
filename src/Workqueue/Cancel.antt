-- ===== src/Workqueue/Cancel.antt =====
-- Cancelling and flushing, of src/compat/rtw88_compat.c. A function that waits is cut at its loop:
-- what it does before, the test that ends the loop, and what it does after. Called with a null
-- pointer or before `work_state_lock` is set, each returns at once.
use airport_rtw.Base.{
  ℕ, Bool, true, false, not, ◌&&◌, Option, none, some, List, [], ◌∷◌, ◌==◌, if◌then◌else◌, update,
  erase,
}
use airport_rtw.Timer.{del_timer, del_timer_sync}
use airport_rtw.Workqueue.{State, Queue, set_work}
use airport_rtw.Workqueue.Delayed.{Ticks, queue_delayed_work}

-- `list_del_init(&work->entry)`: out of whatever list holds it.
abbrev pub unlink : ℕ → (ℕ → Queue) → ℕ → Queue
unlink w queues q = record (queues q) { queue = erase w (queues q).queue }

unfoldable pub remove_pending_work : ℕ → State → Bool × State
remove_pending_work w s =
    let s' = if (s.works w).pending == 1 then record s { queues = unlink w s.queues } else s in
    (not ((s.works w).pending == 0), set_work s' w (record (s.works w) { pending = 0 }))

-- `cancel_work_sync` and `cancel_delayed_work_sync` up to their first wait.
unfoldable pub cancel_begin : ℕ → State → Bool × State
unfolding remove_pending_work
cancel_begin w s = remove_pending_work w (set_work s w (record (s.works w) { canceling = true }))

unfoldable pub cancel_done : ℕ → State → Bool
cancel_done w s = not (s.works w).executing

unfoldable pub cancel_end : ℕ → State → State
cancel_end w s = set_work s w (record (s.works w) { canceling = false })

-- The call of `del_timer_sync` in `cancel_delayed_work_sync`, outside the lock.
unfoldable pub cancel_timer : ℕ → State → State
unfolding del_timer_sync
cancel_timer w s = record s { timers = update s.timers w (del_timer_sync (s.timers w)) }

unfoldable pub cancel_delayed_work : Option ℕ → State → Bool × State
unfolding remove_pending_work del_timer
cancel_delayed_work none s = (false, s)
cancel_delayed_work (some w) s =
    if not s.lock
    then (false, s)
    else let (pending, s') = remove_pending_work w s in
      (pending, record s' { timers = update s'.timers w (del_timer (s'.timers w)).1 })

-- `mod_delayed_work` of src/compat/linux/workqueue.h
unfoldable pub mod_delayed_work : (wq dwork : Option ℕ) → (delay : ℕ) → Ticks → State → Bool × State
unfolding cancel_delayed_work queue_delayed_work
mod_delayed_work wq dwork delay k s =
    queue_delayed_work wq dwork delay k (cancel_delayed_work dwork s).1

abbrev pub is_empty : List ℕ → Bool
is_empty [] = true
is_empty (x ∷ xs) = false

-- The tests that end the waits of `flush_workqueue` and `flush_work`.
unfoldable pub flush_queue_done : (q : ℕ) → State → Bool
flush_queue_done q s = is_empty (s.queues q).queue && (s.queues q).active == 0

unfoldable pub flush_work_done : ℕ → State → Bool
flush_work_done w s = (s.works w).pending == 0 && not (s.works w).executing
