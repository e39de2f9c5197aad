-- ===== src/ThreadCall/Tests.antt =====
-- A kernel that remembers only whether the call is queued, runs of the shim over it, and the
-- theorems at a cancellation that meets a dequeued worker.
use airport_rtw.Base.{ℕ, ◌≡◌, refl, ◌≤◌, Bool, true, false}
use airport_rtw.ThreadCall.{
  Native, Call, submit, dispatch_enter, cancel_wait_begin, cancel_wait_done,
}
use airport_rtw.ThreadCall.System.{System, fresh, Step, here, next, submits, fires, waits, Run}
use airport_rtw.ThreadCall.Cancel.{cancel_wait-quiet, work_left, cancel_wait-ends}
use airport_rtw.ThreadCall.Resources.{Pool, Grants}

abbrev one_shot : Native
one_shot = record {
  State = Bool;
  queued = λ n. n;
  enter = λ n. true;
  enter_delayed = λ n deadline. true;
  cancel = λ n. (n, false);
  dequeue = λ n. false;
  queued-enter = λ n. refl;
  queued-enter_delayed = λ n deadline. refl;
  cancel-queued = λ n. refl;
  queued-cancel = λ n. refl;
  queued-dequeue = λ n. refl;
}

abbrev idle : System one_shot
idle = fresh one_shot false

abbrev call : (native pending canceling : Bool) → ℕ → Call one_shot
call native pending canceling running = record {
  native = native;
  pending = pending;
  canceling = canceling;
  running = running;
}

-- The kernel has dequeued the call, its worker has not entered, and a caller waits.
abbrev caught : System one_shot
caught = record {
  call = call false true true 0;
  dequeued = 1;
  executing = 0;
  skipping = 0;
  waiting = 1;
}

caught_reached :
    (submit one_shot idle.call 0 false ≡ (false, call true true false 0))
    × (cancel_wait_begin one_shot (call false true false 0) ≡ (false, call false true true 0))
    × (dispatch_enter one_shot caught.call ≡ (false, call false false true 1))
unfolding submit cancel_wait_begin dispatch_enter
caught_reached = (refl, refl, refl)

-- Submitted, then cancelled before the kernel dispatches it.
abbrev withdrawn : System one_shot
withdrawn = record (record idle { call = (submit one_shot idle.call 0 false).1 }) {
  call = (cancel_wait_begin one_shot (submit one_shot idle.call 0 false).1).1;
  waiting = 1;
}

cancel_wait-quiet_example :
    (withdrawn.call.native ≡ false)
    × (withdrawn.dequeued ≡ 0)
    × (withdrawn.executing ≡ 0)
    × (withdrawn.skipping ≡ 0)
unfolding cancel_wait_done submit cancel_wait_begin
cancel_wait-quiet_example =
    cancel_wait-quiet one_shot false {s = withdrawn} refl (next (next here (submits 0 false)) waits)
      refl

-- The same, after the kernel has dequeued the call.
cancel_wait-ends_example :
    ((k : ℕ) × (t : System one_shot) × Run one_shot k caught t
      × (k ≤ work_left one_shot caught)
      × (cancel_wait_done one_shot t.call ≡ true))
    × ((t : System one_shot)
        → Step one_shot caught t
        → work_left one_shot t ≤ work_left one_shot caught)
unfolding submit cancel_wait_begin
cancel_wait-ends_example =
    cancel_wait-ends one_shot false {s = caught} refl
      (next (next (next here (submits 0 false)) (fires refl)) waits) refl

abbrev no_lock : Grants
no_lock = record { fn = true; block = true; lock = false; native = true }

abbrev three_blocks : Pool
three_blocks = record { blocks = 3; locks = 2; natives = 2 }
