-- ===== src/Workqueue/Safety.antt =====
-- What callers may rely on, in every state that the threads can reach.
use airport_rtw.Base.{
  ℕ, ◌≡◌, ◌≢◌, true, false, not, ◌&&◌, none, some, [], ◌∷◌, ◌++◌, arith, ◌==◌, if◌then◌else◌, count,
}
use airport_rtw.Workqueue.{State, is_on, busy_elsewhere, queue_work_locked, queue_work}
use airport_rtw.Workqueue.Cancel.{cancel_done, flush_queue_done, flush_work_done}
use airport_rtw.Workqueue.Worker.{destroy_done}
use airport_rtw.Workqueue.Delayed.{delayed_work_timer_fn}
use airport_rtw.Workqueue.Inv.{start-IsSound}
use airport_rtw.Workqueue.InvCancel.{Reach-IsSound}
use airport_rtw.Workqueue.Steps.{start, Reach}

-- No work's function runs in two threads at once: if the threads of two queues run it, they are
-- one. A running work is on no list of another queue.
pub never_twice :
    (q p w : ℕ) {s : State}
    → Reach start s
    → s.current q ≡ some w
    → (s.current p ≡ some w → p ≡ q) × (p ≢ q → count w (s.queues p).queue ≡ 0)
never_twice q p w {s} r here =
    let i = Reach-IsSound start-IsSound r in
    (
      λ there. ground (arith, i.runs q w, i.runs p w),
      λ ne. ground (arith, i.runs q w, i.listed p w),
    )

-- A work is on a list exactly while `pending` is 1, on the list of its queue, and once.
pub listed_once :
    (q w : ℕ) {s : State}
    → Reach start s
    → count w (s.queues q).queue
      ≡ (if (s.works w).pending == 1 && is_on (s.works w).wq q then 1 else 0)
listed_once q w r = (Reach-IsSound start-IsSound r).listed q w

-- When the wait of `cancel_work_sync` or `cancel_delayed_work_sync` ends, and the work is still
-- marked as being cancelled, it is on no list, behind no timer, and no queue's thread runs it; and
-- it cannot be queued.
pub cancel_sync-quiet :
    (q w : ℕ) {s : State}
    → Reach start s
    → (s.works w).canceling ≡ true
    → cancel_done w s ≡ true
    → (count w (s.queues q).queue ≡ 0)
      × ((s.works w).pending ≡ 0)
      × (s.current q ≢ some w)
      × (queue_work_locked q w s ≡ (false, s))
unfolding cancel_done queue_work_locked
cancel_sync-quiet q w {s} r marked over =
    let i = Reach-IsSound start-IsSound r in
    (
      ground (arith, i.listed q w, i.calm w),
      i.calm w marked,
      λ e. ground (arith, i.runs q w),
      ground arith,
    )

-- When the wait of `flush_workqueue` ends, the queue's list is empty and its thread runs nothing.
-- When that of `flush_work` ends, the work is on no list and no thread runs it. When that of
-- `destroy_workqueue` ends, the queue has nothing listed, runs nothing, and takes no work.
pub waits-quiet :
    (q w : ℕ) {s : State}
    → Reach start s
    → (flush_queue_done q s ≡ true → (count w (s.queues q).queue ≡ 0) × (s.current q ≡ none))
      × (flush_work_done w s ≡ true → (count w (s.queues q).queue ≡ 0) × (s.current q ≢ some w))
      × (destroy_done q s ≡ true
          → (count w (s.queues q).queue ≡ 0)
            × (s.current q ≡ none)
            × (queue_work_locked q w s ≡ (false, s)))
unfolding flush_queue_done flush_work_done destroy_done queue_work_locked count
waits-quiet q w {s} r =
    let i = Reach-IsSound start-IsSound r in
    (
      λ f. (ground arith, ground (arith, i.counted q)),
      λ f. (ground (arith, i.listed q w), λ e. ground (arith, i.runs q w)),
      λ d. ground (arith, i.ended q d),
    )

-- The timer of a delayed work never goes through a null queue.
pub timer_fn-ne-none : (w : ℕ) {s : State} → Reach start s → delayed_work_timer_fn w s ≢ none
unfolding delayed_work_timer_fn
timer_fn-ne-none w {s} r = let i = Reach-IsSound start-IsSound r in ground (arith, i.homed w)

-- `queue_work` with its pointers and the lock in place answers whether it queues the work: the
-- queue must run, the work be neither pending nor cancelled nor running on another queue. A queued
-- work stands last on the list, is marked, and nothing else changes on that list; otherwise
-- nothing changes at all.
pub queue_work_outcome :
    (q w : ℕ) (s : State)
    → s.lock ≡ true
    → let (queued, t) = queue_work (some q) (some w) s in
      (queued ≡ (
        (s.queues q).running
        && ((s.works w).pending == 0
            && (not (s.works w).canceling && not (busy_elsewhere (s.works w) q)))))
      × ((t.queues q).queue ≡ (if queued then (s.queues q).queue ++ w ∷ [] else (s.queues q).queue))
      × ((t.works w).pending ≡ (if queued then 1 else (s.works w).pending))
      × (queued ≡ false → t ≡ s)
unfolding queue_work queue_work_locked
queue_work_outcome q w s locked = ground arith
