-- ===== src/Workqueue.antt =====
-- The work queues of src/compat/rtw88_compat.c. Works and queues are named by numbers; the timer of
-- a delayed work has the number of its work. `work_state_lock` serializes every section below, so
-- each function is one section between `IOLockLock` and `IOLockUnlock`.
pub mod Delayed
pub mod Worker
pub mod Cancel
pub mod Steps
pub mod Inv
pub mod InvWorker
pub mod InvCancel
pub mod Safety
pub mod Drain
pub mod Delay
mod Tests
use airport_rtw.Base.{
  ℕ, zero, suc, ◌+◌, ◌-◌, Bool, true, false, not, ◌&&◌, ◌||◌, Option, none, some, List, [], ◌∷◌,
  ◌++◌, ◌==◌, if◌then◌else◌, update,
}
use airport_rtw.Timer.{Timer}

-- `struct work_struct`: `pending` is 1 on a queue and 2 behind a timer.
pub record Work : Type 0 where
  pub pending : ℕ
  pub wq : Option ℕ
  pub executing : Bool
  pub canceling : Bool

-- `struct workqueue_struct`
pub record Queue : Type 0 where
  pub queue : List ℕ
  pub running : Bool
  pub done : Bool
  pub active : ℕ

-- `lock` says whether `work_state_lock` is set; `current q` is the variable `work` of the thread
-- of queue `q` while it runs the work's function.
pub record State : Type 0 where
  pub lock : Bool
  pub works : ℕ → Work
  pub queues : ℕ → Queue
  pub timers : ℕ → Timer
  pub current : ℕ → Option ℕ

abbrev pub is_on : Option ℕ → ℕ → Bool
is_on none q = false
is_on (some p) q = p == q

-- Another queue's thread runs the work.
abbrev pub busy_elsewhere : Work → ℕ → Bool
busy_elsewhere w q = w.executing && not (is_on w.wq q)

-- The condition under which `queue_work_locked` and `queue_delayed_work` return false.
abbrev pub refused : State → (q w : ℕ) → Bool
refused s q w =
    not (s.queues q).running
    || (not ((s.works w).pending == 0) || ((s.works w).canceling || busy_elsewhere (s.works w) q))

abbrev pub set_work : State → ℕ → Work → State
set_work s w x = record s { works = update s.works w x }

abbrev pub set_queue : State → ℕ → Queue → State
set_queue s q x = record s { queues = update s.queues q x }

-- `INIT_WORK`
abbrev pub init_work : Work
init_work = record { pending = 0; wq = none; executing = false; canceling = false }

unfoldable pub queue_work_locked : (q w : ℕ) → State → Bool × State
queue_work_locked q w s = if refused s q w then (false, s) else (
  true,
  set_queue (set_work s w (record (s.works w) { wq = some q; pending = 1 })) q
      (record (s.queues q) { queue = (s.queues q).queue ++ w ∷ [] }),
)

-- The pointers may be null.
unfoldable pub queue_work : (wq work : Option ℕ) → State → Bool × State
queue_work none work s = (false, s)
queue_work (some q) none s = (false, s)
queue_work (some q) (some w) s = if not s.lock then (false, s) else queue_work_locked q w s
