-- ===== src/Workqueue/Delayed.antt =====
-- `queue_delayed_work` and `rtw88_delayed_work_timer_fn` of src/compat/rtw88_compat.c.
use airport_rtw.Base.{
  ℕ, ◌+◌, ◌%◌, ◌^◌, Bool, false, not, Option, none, some, ◌==◌, if◌then◌else◌, update,
}
use airport_rtw.Timer.{mod_timer}
use airport_rtw.Workqueue.{State, refused, set_work, queue_work_locked, queue_work}

-- The clock is read for the deadline and once more inside `mod_timer`; `granted` says whether that
-- can allocate a thread call.
pub record Ticks : Type 0 where
  pub set_at : ℕ
  pub read_at : ℕ
  pub granted : Bool

-- The locked part, for a delay that is not 0.
unfoldable pub arm_work : (q w : ℕ) → (delay : ℕ) → Ticks → State → Bool × State
arm_work q w delay k s =
    if refused s q w
    then (false, s)
    else let t = (mod_timer k.granted k.read_at (s.timers w) ((k.set_at + delay) % 2 ^ 64)).timer in
      let pending : ℕ = if not t.call then 0 else 2 in
      (
        not (pending == 0),
        record (set_work s w (record (s.works w) { wq = some q; pending = pending })) {
          timers = update s.timers w t;
        },
      )

unfoldable pub queue_delayed_work :
    (wq dwork : Option ℕ) → (delay : ℕ) → Ticks → State → Bool × State
queue_delayed_work none dwork delay k s = (false, s)
queue_delayed_work (some q) none delay k s = (false, s)
queue_delayed_work (some q) (some w) delay k s =
    if not s.lock
    then (false, s)
    else if delay == 0
    then queue_work (some q) (some w) s
    else arm_work q w delay k s

-- `none` is the access through the null pointer `dwork->work.wq`.
abbrev pub queue_work_on : Option ℕ → ℕ → State → Option State
queue_work_on none w s = none
queue_work_on (some q) w s = some (queue_work_locked q w s).1

unfoldable pub delayed_work_timer_fn : ℕ → State → Option State
delayed_work_timer_fn w s =
    if (s.works w).pending == 2
    then queue_work_on (s.works w).wq w (set_work s w (record (s.works w) { pending = 0 }))
    else some s
