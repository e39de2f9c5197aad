-- ===== src/ThreadCall.antt =====
-- The cancellable thread call of src/compat/rtw88_thread_call.c.
-- XNU's own thread calls are not part of the repository: `Native` names the operations that the
-- shim calls and what it relies on. Each function below is one section between `IOLockLock` and
-- `IOLockUnlock`; `System` puts the sections of all threads together.
pub mod System
pub mod Inv
pub mod Cancel
pub mod Resources
mod Tests
use airport_rtw.Base.{
  ℕ, zero, suc, ◌+◌, ◌-◌, ◌≡◌, Bool, true, false, not, ◌&&◌, ◌||◌, Option, none, some, ◌==◌,
  if◌then◌else◌,
}

-- XNU's thread call: whether it waits in a queue of the kernel, and the operations on it.
-- `dequeue` is the kernel's worker taking the call off before it runs the trampoline.
pub record Native : Type 1 where
  pub State : Type 0
  pub queued : State → Bool
  pub enter : State → State
  pub enter_delayed : State → ℕ → State
  pub cancel : State → Bool × State
  pub dequeue : State → State
  pub queued-enter : (n : State) → queued (enter n) ≡ true
  pub queued-enter_delayed : (n : State) (deadline : ℕ) → queued (enter_delayed n deadline) ≡ true
  pub cancel-queued : (n : State) → (cancel n).0 ≡ queued n
  pub queued-cancel : (n : State) → queued (cancel n).1 ≡ false
  pub queued-dequeue : (n : State) → queued (dequeue n) ≡ false

module _ (kpi : Native) where
  open kpi use {State, enter, enter_delayed, cancel}

  -- `struct rtw88_call`, without the lock and the callback.
  pub record Call : Type 0 where
    pub native : State
    pub pending : Bool
    pub canceling : Bool
    pub running : ℕ

  -- `rtw88_call_dispatch` up to its first unlock. The flag is `execute`.
  pub dispatch_enter : Call → Bool × Call
  dispatch_enter c =
      let c' = record c { pending = false; running = c.running + 1 } in (not c'.canceling, c')

  -- Its second locked section.
  pub dispatch_leave : Call → Call
  dispatch_leave c = record c { running = c.running - 1 }

  -- The call of `thread_call_cancel` in `rtw88_call_submit`: whether to submit, and what is left.
  pub retime : Call → Bool → Bool × Call
  retime c delayed =
      if not c.canceling && (c.pending && delayed)
      then (let (removed, n) = cancel c.native in (removed, record c { native = n }))
      else (not c.canceling && not c.pending, c)

  pub submit : Call → (deadline : ℕ) → (delayed : Bool) → Bool × Call
  unfolding retime
  submit c deadline delayed =
      let already = c.pending || c.canceling in
      let (go, c') = retime c delayed in
      if go
      then (
        already,
        record c' {
          pending = true;
          native = if delayed then enter_delayed c'.native deadline else enter c'.native;
        },
      )
      else (already, c')

  -- `rtw88_thread_call_cancel`
  pub cancel_call : Call → Bool × Call
  cancel_call c =
      let (canceled, n) = cancel c.native in
      (canceled, record c { native = n; pending = if canceled then false else c.pending })

  -- `rtw88_thread_call_cancel_wait` up to its loop, the test that ends the loop, and the rest.
  pub cancel_wait_begin : Call → Bool × Call
  unfolding cancel_call
  cancel_wait_begin c = cancel_call (record c { canceling = true })

  pub cancel_wait_done : Call → Bool
  cancel_wait_done c = not (c.pending || not (c.running == 0))

  pub cancel_wait_end : Call → Call
  cancel_wait_end c = record c { canceling = false }
