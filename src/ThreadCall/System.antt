-- ===== src/ThreadCall/System.antt =====
-- The threads around one handle of src/compat/rtw88_thread_call.c, and their steps in any order:
-- callers of the functions, the kernel's workers that dispatch the call, and the callers that
-- wait in `rtw88_thread_call_cancel_wait`.
use airport_rtw.Base.{ℕ, suc, ◌+◌, ◌-◌, ◌<◌, ◌≡◌, Bool, true, false, if◌then◌else◌}
use airport_rtw.ThreadCall.{
  Native, Call, dispatch_enter, dispatch_leave, submit, cancel_call, cancel_wait_begin,
  cancel_wait_done, cancel_wait_end,
}

module _ (kpi : Native) where
  open kpi use {State, queued, dequeue}

  -- `dequeued` workers have not reached the lock, `executing` ones run the callback, `skipping`
  -- ones go past it; `waiting` callers sleep in `rtw88_thread_call_cancel_wait`.
  pub record System : Type 0 where
    pub call : Call kpi
    pub dequeued : ℕ
    pub executing : ℕ
    pub skipping : ℕ
    pub waiting : ℕ

  -- A fresh handle, as `rtw88_thread_call_allocate` leaves it.
  abbrev pub fresh : State → System
  fresh n = record {
    call = record { native = n; pending = false; canceling = false; running = 0 };
    dequeued = 0;
    executing = 0;
    skipping = 0;
    waiting = 0;
  }

  -- The worker leaves the first section with the flag `execute`.
  abbrev pub entered : System → Bool × Call kpi → System
  entered s (execute, c) = record s {
    call = c;
    dequeued = s.dequeued - 1;
    executing = if execute then s.executing + 1 else s.executing;
    skipping = if execute then s.skipping else s.skipping + 1;
  }

  pub data Step (s : System) : System → Type 0 where
    submits :
        (deadline : ℕ) (delayed : Bool)
        → Step s (record s { call = (submit kpi s.call deadline delayed).1 })
    fires :
        queued s.call.native ≡ true
        → Step s (record s {
          call = record s.call { native = dequeue s.call.native };
          dequeued = s.dequeued + 1;
        })
    enters : 0 < s.dequeued → Step s (entered s (dispatch_enter kpi s.call))
    leaves :
        0 < s.executing
        → Step s (record s { call = dispatch_leave kpi s.call; executing = s.executing - 1 })
    passes :
        0 < s.skipping
        → Step s (record s { call = dispatch_leave kpi s.call; skipping = s.skipping - 1 })
    cancels : Step s (record s { call = (cancel_call kpi s.call).1 })
    waits : Step s (record s { call = (cancel_wait_begin kpi s.call).1; waiting = s.waiting + 1 })
    returns :
        0 < s.waiting
        → cancel_wait_done kpi s.call ≡ true
        → Step s (record s { call = cancel_wait_end kpi s.call; waiting = s.waiting - 1 })

  pub data Reach (s : System) : System → Type 0 where
    here : Reach s s
    next : {t u : System} → Reach s t → Step t u → Reach s u

  -- The steps of the kernel's workers.
  pub data WorkerStep (s : System) : System → Type 0 where
    worker_fires :
        queued s.call.native ≡ true
        → WorkerStep s (record s {
          call = record s.call { native = dequeue s.call.native };
          dequeued = s.dequeued + 1;
        })
    worker_enters : 0 < s.dequeued → WorkerStep s (entered s (dispatch_enter kpi s.call))
    worker_leaves :
        0 < s.executing
        → WorkerStep s (record s { call = dispatch_leave kpi s.call; executing = s.executing - 1 })
    worker_passes :
        0 < s.skipping
        → WorkerStep s (record s { call = dispatch_leave kpi s.call; skipping = s.skipping - 1 })

  pub worker-Step : {s t : System} → WorkerStep s t → Step s t
  worker-Step (worker_fires h) = fires h
  worker-Step (worker_enters h) = enters h
  worker-Step (worker_leaves h) = leaves h
  worker-Step (worker_passes h) = passes h

  -- So many steps of the workers, one after the other.
  pub data Run : ℕ → System → System → Type 0 where
    stops : {s : System} → Run 0 s s
    goes : {k : ℕ} {s t u : System} → WorkerStep s t → Run k t u → Run (suc k) s u
