-- ===== src/Workqueue/Delay.antt =====
-- A delayed work's way through its timer.
use airport_rtw.Base.{
  ℕ, ◌≡◌, ◌≢◌, true, not, ◌&&◌, ◌||◌, Option, none, some, List, [], ◌∷◌, ◌++◌, arith,
}
use airport_rtw.Timer.{mod_timer, timer_pending}
use airport_rtw.Workqueue.{Queue, State, refused, queue_work_locked}
use airport_rtw.Workqueue.Delayed.{Ticks, arm_work, queue_delayed_work, delayed_work_timer_fn}
use airport_rtw.Workqueue.Cancel.{cancel_begin, cancel_delayed_work}

abbrev pub list_after : (q : ℕ) → Option State → Option (List ℕ)
list_after q none = none
list_after q (some s) = some (s.queues q).queue

abbrev pub queue_after : (q : ℕ) → Option State → Option Queue
queue_after q none = none
queue_after q (some s) = some (s.queues q)

-- With its pointers and the lock in place and a delay that is not 0, `queue_delayed_work` answers
-- whether it arms the timer: where `queue_work` would queue the work, and the timer has or gets a
-- thread call. It changes no queue, no other work and no other timer. If it answers true, the timer
-- is pending, and when it is dispatched while nothing else has happened the work is put last on the
-- list of its queue, and the other queues stay as they are.
pub delay_round :
    (q w delay : ℕ) (k : Ticks) (s : State)
    → s.lock ≡ true
    → delay ≢ 0
    → let (armed, t) = queue_delayed_work (some q) (some w) delay k s in
      (armed ≡ (not (refused s q w) && ((s.timers w).call || k.granted)))
      × ((p : ℕ) → t.queues p ≡ s.queues p)
      × ((v : ℕ) → v ≢ w → (t.works v ≡ s.works v) × (t.timers v ≡ s.timers v))
      × (armed ≡ true → timer_pending (t.timers w) ≡ true)
      × (armed ≡ true
          → (list_after q (delayed_work_timer_fn w t) ≡ some ((s.queues q).queue ++ w ∷ []))
            × ((p : ℕ) → p ≢ q → queue_after p (delayed_work_timer_fn w t) ≡ some (s.queues p)))
unfolding queue_delayed_work arm_work delayed_work_timer_fn queue_work_locked mod_timer
    timer_pending
delay_round q w delay k s locked late = ground arith

-- A timer that is dispatched after its work was cancelled, in either way, does nothing.
pub late_timer :
    (w : ℕ) (s : State)
    → s.lock ≡ true
    → let dropped = (cancel_delayed_work (some w) s).1 in
      let canceled = (cancel_begin w s).1 in
      (delayed_work_timer_fn w dropped ≡ some dropped)
      × (delayed_work_timer_fn w canceled ≡ some canceled)
unfolding cancel_delayed_work cancel_begin delayed_work_timer_fn
late_timer w s locked = ground arith
