-- ===== src/Workqueue/Steps.antt =====
-- The threads around the work queues, and their steps in any order: callers that queue, delay,
-- cancel and destroy, the timers, and the thread of each queue.
use airport_rtw.Base.{ℕ, ◌≡◌, true, false, Option, none, some, []}
use airport_rtw.Workqueue.{State, init_work, queue_work}
use airport_rtw.Workqueue.Delayed.{Ticks, queue_delayed_work, delayed_work_timer_fn}
use airport_rtw.Workqueue.Worker.{worker_step, destroy_begin}
use airport_rtw.Workqueue.Cancel.{
  cancel_begin, cancel_done, cancel_end, cancel_timer, cancel_delayed_work,
}

-- Every work initialised, every queue allocated.
abbrev pub start : State
start = record {
  lock = true;
  works = λ w. init_work;
  queues = λ q. record { queue = []; running = true; done = false; active = 0 };
  timers = λ w. record { expires = 0; call = false; active = false };
  current = λ q. none;
}

-- The pointers may be null. A timer may be dispatched late: also after it was deleted.
pub data Step (s : State) : State → Type 0 where
  queues : (q w : Option ℕ) → Step s (queue_work q w s).1
  delays : (q w : Option ℕ) (delay : ℕ) (k : Ticks) → Step s (queue_delayed_work q w delay k s).1
  fires : (w : ℕ) {t : State} → delayed_work_timer_fn w s ≡ some t → Step s t
  works : (q : ℕ) → Step s (worker_step q s)
  cancels : (w : ℕ) → Step s (cancel_begin w s).1
  unarms : (w : ℕ) → Step s (cancel_timer w s)
  returns : (w : ℕ) → cancel_done w s ≡ true → Step s (cancel_end w s)
  drops : (w : Option ℕ) → Step s (cancel_delayed_work w s).1
  destroys : (q : ℕ) → Step s (destroy_begin q s)

pub data Reach (s : State) : State → Type 0 where
  here : Reach s s
  next : {t u : State} → Reach s t → Step t u → Reach s u
