-- ===== src/ThreadCall/Cancel.antt =====
-- What `rtw88_thread_call_cancel_wait` and a submission guarantee, whatever the other threads do.
use airport_rtw.Base.{
  ℕ, zero, suc, ◌+◌, ◌*◌, ◌<◌, ◌≤◌, ◌≡◌, inl, inr, Bool, true, false, ◌||◌, arith, ◌==◌,
  if◌then◌else◌, Bool-cases,
}
use airport_rtw.ThreadCall.{
  Native, dispatch_enter, dispatch_leave, submit, cancel_call, cancel_wait_begin, cancel_wait_done,
  cancel_wait_end,
}
use airport_rtw.ThreadCall.System.{
  System, fresh, Step, submits, fires, enters, leaves, passes, cancels, waits, returns, Reach,
  WorkerStep, worker_fires, worker_enters, worker_leaves, worker_passes, worker-Step, Run, stops,
  goes,
}
use airport_rtw.ThreadCall.Inv.{
  one_if, IsConsistent, fresh-IsConsistent, Step-IsConsistent, Reach-IsConsistent,
}

module _ (kpi : Native) where
  open kpi use {
    State, queued, enter, enter_delayed, cancel, dequeue, queued-enter, queued-enter_delayed,
    cancel-queued, queued-cancel, queued-dequeue,
  }

  -- In every state that a fresh handle can reach, when the loop of `rtw88_thread_call_cancel_wait`
  -- ends, the kernel does not hold the call, no worker is on its way to the trampoline, and none
  -- is inside it.
  pub cancel_wait-quiet :
      (n : State) {s : System kpi}
      → queued n ≡ false
      → Reach kpi (fresh kpi n) s
      → cancel_wait_done kpi s.call ≡ true
      → (queued s.call.native ≡ false) × (s.dequeued ≡ 0) × (s.executing ≡ 0) × (s.skipping ≡ 0)
  unfolding cancel_wait_done
  cancel_wait-quiet n {s} h r d =
      let i = Reach-IsConsistent kpi (fresh-IsConsistent kpi n h) r in ground arith

  -- While a cancellation is under way no step of any thread starts the callback or puts the call
  -- back into the kernel's queue.
  pub canceling-blocks :
      {s t : System kpi}
      → Step kpi s t
      → s.call.canceling ≡ true
      → (t.executing ≤ s.executing)
        × (one_if (queued t.call.native) ≤ one_if (queued s.call.native))
  unfolding dispatch_enter dispatch_leave submit cancel_call cancel_wait_begin cancel_wait_done
      cancel_wait_end
  canceling-blocks (submits deadline delayed) c = ground arith
  canceling-blocks {s} (fires h) c = ground (arith, queued-dequeue s.call.native)
  canceling-blocks (enters h) c = ground arith
  canceling-blocks (leaves h) c = ground arith
  canceling-blocks (passes h) c = ground arith
  canceling-blocks {s} cancels c = ground (arith, queued-cancel s.call.native)
  canceling-blocks {s} waits c = ground (arith, queued-cancel s.call.native)
  canceling-blocks (returns h d) c = ground arith

  -- What the handle still waits for, by its own flag and counter: a dispatch that is outstanding has
  -- up to two steps to make before it runs, and one that runs has to leave.
  abbrev pub work_left : System kpi → ℕ
  work_left s = one_if (queued s.call.native) + 2 * one_if s.call.pending + s.call.running

  -- While a cancellation is under way no step adds work for the workers.
  work_left-antitone :
      {s t : System kpi}
      → IsConsistent kpi s
      → Step kpi s t
      → s.call.canceling ≡ true
      → work_left t ≤ work_left s
  unfolding dispatch_enter dispatch_leave submit cancel_call cancel_wait_begin cancel_wait_done
      cancel_wait_end
  work_left-antitone i (submits deadline delayed) c = ground arith
  work_left-antitone {s} i (fires h) c = ground (arith, queued-dequeue s.call.native)
  work_left-antitone i (enters h) c = ground arith
  work_left-antitone i (leaves h) c = ground arith
  work_left-antitone i (passes h) c = ground arith
  work_left-antitone {s} i cancels c = ground (arith, queued-cancel s.call.native)
  work_left-antitone {s} i waits c = ground (arith, queued-cancel s.call.native)
  work_left-antitone i (returns h d) c = ground arith

  -- A cancellation that cannot return yet waits for a worker that can make a step, and that step
  -- leaves less to do.
  worker_moves :
      (s : System kpi)
      → IsConsistent kpi s
      → s.call.canceling ≡ true
      → cancel_wait_done kpi s.call ≡ false
      → (t : System kpi) × WorkerStep kpi s t
        × (work_left t < work_left s)
        × (t.call.canceling ≡ true)
  unfolding cancel_wait_done dispatch_enter dispatch_leave
  worker_moves s i c d = elim (Bool-cases (queued s.call.native)) [
    | inl q ↦ (_, worker_fires q, ground (arith, queued-dequeue s.call.native), c)
    | inr q ↦ elim (Bool-cases (s.dequeued == 0)) [
      | inr e ↦ (_, worker_enters (ground arith), ground arith, c)
      | inl e ↦ elim (Bool-cases (s.executing == 0)) [
        | inr x ↦ (_, worker_leaves (ground arith), ground arith, c)
        | inl x ↦ (_, worker_passes (ground arith), ground arith, c)
      ]
    ]
  ]

  run_down :
      (fuel : ℕ) (s : System kpi)
      → work_left s ≤ fuel
      → IsConsistent kpi s
      → s.call.canceling ≡ true
      → (k : ℕ) × (t : System kpi) × Run kpi k s t
        × (k + work_left t ≤ work_left s)
        × (cancel_wait_done kpi t.call ≡ true)
  run_down zero s h i c = elim (Bool-cases (cancel_wait_done kpi s.call)) [
    | inl d ↦ (0, s, stops, omega arith, d)
    | inr d ↦ absurd (omega (arith, h, (worker_moves s i c d).2))
  ]
  run_down (suc fuel) s h i c = elim (Bool-cases (cancel_wait_done kpi s.call)) [
    | inl d ↦ (0, s, stops, omega arith, d)
    | inr d ↦
        (let (t, step, less, c1) = worker_moves s i c d in
          let (k, u, run, all, done) =
            run_down fuel t (omega (arith, h, less))
              (Step-IsConsistent kpi (worker-Step kpi step) i) c1 in
          (suc k, u, goes step run, omega (arith, all, less), done))
  ]

  -- In every state that a fresh handle can reach and in which a cancellation is under way, the wait
  -- of `rtw88_thread_call_cancel_wait` comes to its end by steps of the kernel's workers alone, at
  -- most one for a call that is still queued, two for a dispatch that is outstanding and one for
  -- each dispatch that runs; and no step of any thread makes this number larger.
  pub cancel_wait-ends :
      (n : State) {s : System kpi}
      → queued n ≡ false
      → Reach kpi (fresh kpi n) s
      → s.call.canceling ≡ true
      → ((k : ℕ) × (t : System kpi) × Run kpi k s t
          × (k ≤ work_left s)
          × (cancel_wait_done kpi t.call ≡ true))
        × ((t : System kpi) → Step kpi s t → work_left t ≤ work_left s)
  cancel_wait-ends n {s} h r c =
      let i = Reach-IsConsistent kpi (fresh-IsConsistent kpi n h) r in
      let (k, t, steps, less, d) = run_down (work_left s) s (omega arith) i c in
      ((k, t, steps, omega (arith, less), d), λ t st. work_left-antitone i st c)

  -- Outside a cancellation a submission leaves exactly one dispatch outstanding, and says whether
  -- one was outstanding before; during a cancellation it submits nothing and says so.
  pub submit-once :
      (s : System kpi) (deadline : ℕ) (delayed : Bool)
      → IsConsistent kpi s
      → let (already, c) = submit kpi s.call deadline delayed in
        (already ≡ (s.call.pending || s.call.canceling))
        × (one_if (queued c.native) + s.dequeued
            ≡ (if s.call.canceling then one_if s.call.pending else 1))
  unfolding submit
  submit-once s deadline delayed i = ground (
    arith,
    cancel-queued s.call.native,
    queued-cancel s.call.native,
    queued-enter s.call.native,
    queued-enter_delayed s.call.native deadline,
    queued-enter_delayed (cancel s.call.native).1 deadline,
  )
