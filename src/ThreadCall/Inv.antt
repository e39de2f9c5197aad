-- ===== src/ThreadCall/Inv.antt =====
-- The `pending` flag of a thread call counts what the kernel still has to dispatch.
use airport_rtw.Base.{ℕ, ◌+◌, ◌<◌, ◌≡◌, Bool, true, false, arith, if◌then◌else◌}
use airport_rtw.ThreadCall.{
  Native, Call, dispatch_enter, dispatch_leave, submit, cancel_call, cancel_wait_begin,
  cancel_wait_done, cancel_wait_end,
}
use airport_rtw.ThreadCall.System.{
  System, fresh, Step, submits, fires, enters, leaves, passes, cancels, waits, returns, Reach, here,
  next,
}

abbrev pub one_if : Bool → ℕ
one_if b = if b then 1 else 0

module _ (kpi : Native) where
  open kpi use {
    State, queued, enter, enter_delayed, cancel, dequeue, queued-enter, queued-enter_delayed,
    cancel-queued, queued-cancel, queued-dequeue,
  }

  pub record IsConsistent (s : System kpi) : Type 0 where
    pub once : one_if (queued s.call.native) + s.dequeued ≡ one_if s.call.pending
    pub runs : s.call.running ≡ s.executing + s.skipping
    pub waited : s.call.canceling ≡ true → 0 < s.waiting

  abbrev pub queued_native : Call kpi → ℕ
  queued_native c = one_if (queued c.native)

  -- A submission puts the call into the kernel's queue exactly when it sets `pending`.
  submit_lem :
      (c : Call kpi) (deadline : ℕ) (delayed : Bool) (d : ℕ)
      → queued_native c + d ≡ one_if c.pending
      → let c' = (submit kpi c deadline delayed).1 in
        (queued_native c' + d ≡ one_if c'.pending)
        × (c'.running ≡ c.running)
        × (c'.canceling ≡ c.canceling)
  unfolding submit
  submit_lem c deadline delayed d h = ground (
    arith,
    cancel-queued c.native,
    queued-cancel c.native,
    queued-enter c.native,
    queued-enter_delayed c.native deadline,
    queued-enter_delayed (cancel c.native).1 deadline,
  )

  cancel_lem :
      (c : Call kpi) (d : ℕ)
      → queued_native c + d ≡ one_if c.pending
      → let c' = (cancel_call kpi c).1 in
        (queued c'.native ≡ false)
        × (queued_native c' + d ≡ one_if c'.pending)
        × (c'.running ≡ c.running)
        × (c'.canceling ≡ c.canceling)
  unfolding cancel_call
  cancel_lem c d h = ground (arith, cancel-queued c.native, queued-cancel c.native)

  pub fresh-IsConsistent : (n : State) → queued n ≡ false → IsConsistent (fresh kpi n)
  fresh-IsConsistent n h = ground arith

  pub Step-IsConsistent : {s t : System kpi} → Step kpi s t → IsConsistent s → IsConsistent t
  unfolding dispatch_enter dispatch_leave cancel_wait_begin cancel_wait_done cancel_wait_end
  Step-IsConsistent {s} (submits deadline delayed) i =
      ground (arith, submit_lem s.call deadline delayed s.dequeued i.once)
  Step-IsConsistent {s} (fires h) i = ground (arith, queued-dequeue s.call.native)
  Step-IsConsistent (enters h) i = ground arith
  Step-IsConsistent (leaves h) i = ground arith
  Step-IsConsistent (passes h) i = ground arith
  Step-IsConsistent {s} cancels i = ground (arith, cancel_lem s.call s.dequeued i.once)
  Step-IsConsistent {s} waits i =
      ground (arith, cancel_lem (record s.call { canceling = true }) s.dequeued i.once)
  Step-IsConsistent (returns h d) i = ground arith

  pub Reach-IsConsistent : {s t : System kpi} → IsConsistent s → Reach kpi s t → IsConsistent t
  Reach-IsConsistent i here = i
  Reach-IsConsistent i (next r st) = Step-IsConsistent st (Reach-IsConsistent i r)
