-- ===== src/Workqueue/Tests.antt =====
-- Runs of the work queues, and their theorems at states that a few sections lead to.
use airport_rtw.Base.{
  ℕ, ◌+◌, ◌*◌, ◌≡◌, ◌≢◌, refl, true, false, ◌&&◌, none, some, [], ◌∷◌, arith, ◌==◌, if◌then◌else◌,
  count, length,
}
use airport_rtw.Timer.{timer_pending}
use airport_rtw.Workqueue.{State, is_on, queue_work, queue_work_locked}
use airport_rtw.Workqueue.Delayed.{Ticks, queue_delayed_work, delayed_work_timer_fn}
use airport_rtw.Workqueue.Worker.{worker_step, destroy_begin, destroy_done}
use airport_rtw.Workqueue.Cancel.{cancel_begin, cancel_done, flush_queue_done, flush_work_done}
use airport_rtw.Workqueue.Steps.{start, Reach, here, next, queues, works, cancels}
use airport_rtw.Workqueue.Safety.{never_twice, listed_once, cancel_sync-quiet, waits-quiet}
use airport_rtw.Workqueue.Drain.{one_more, run, destroy_drains}
use airport_rtw.Workqueue.Delay.{list_after, queue_after, delay_round}

-- Works 7 and 8 are queued on queue 3, and its thread takes the first.
abbrev queued : State
queued = (queue_work (some 3) (some 8) (queue_work (some 3) (some 7) start).1).1

abbrev running : State
running = worker_step 3 queued

running_reached : Reach start running
running_reached =
    next (next (next here (queues (some 3) (some 7))) (queues (some 3) (some 8))) (works 3)

-- A work that runs can be queued again on its queue and on no other.
requeue :
    ((queue_work (some 3) (some 7) running).0 ≡ true)
    × ((queue_work (some 4) (some 7) running).0 ≡ false)
    × ((queue_work (some 3) (some 8) running).0 ≡ false)
unfolding queue_work queue_work_locked worker_step
requeue = (refl, refl, refl)

never_twice_example :
    (running.current 4 ≡ some 7 → ◌≡◌ {A = ℕ} 4 3)
    × (◌≢◌ {A = ℕ} 4 3 → count 7 (running.queues 4).queue ≡ 0)
unfolding queue_work queue_work_locked worker_step
never_twice_example = never_twice 3 4 7 {s = running} running_reached refl

listed_once_example :
    count 8 (running.queues 3).queue
    ≡ (if (running.works 8).pending == 1 && is_on (running.works 8).wq 3 then 1 else 0)
listed_once_example = listed_once 3 8 running_reached

abbrev canceled : State
canceled = (cancel_begin 8 running).1

cancel_sync-quiet_example :
    (count 8 (canceled.queues 3).queue ≡ 0)
    × ((canceled.works 8).pending ≡ 0)
    × (canceled.current 3 ≢ some 8)
    × (queue_work_locked 3 8 canceled ≡ (false, canceled))
unfolding cancel_begin queue_work queue_work_locked worker_step cancel_done
cancel_sync-quiet_example =
    cancel_sync-quiet 3 8 {s = canceled} (next running_reached (cancels 8)) refl refl

waits-quiet_example :
    (flush_queue_done 3 running ≡ true
      → (count 8 (running.queues 3).queue ≡ 0) × (running.current 3 ≡ none))
    × (flush_work_done 8 running ≡ true
        → (count 8 (running.queues 3).queue ≡ 0) × (running.current 3 ≢ some 8))
    × (destroy_done 3 running ≡ true
        → (count 8 (running.queues 3).queue ≡ 0)
          × (running.current 3 ≡ none)
          × (queue_work_locked 3 8 running ≡ (false, running)))
waits-quiet_example = waits-quiet 3 8 running_reached

destroy_drains_example :
    let out =
      run
        (one_more (running.current 3) (2 * length (running.queues 3).queue + 1))
        3
        (destroy_begin 3 running) in
    (out.0 ≡ (running.queues 3).queue) × (destroy_done 3 out.1 ≡ true)
unfolding queue_work queue_work_locked worker_step
destroy_drains_example = destroy_drains 3 running refl

abbrev ticks : Ticks
ticks = record { set_at = 1000; read_at = 1001; granted = true }

delay_round_example :
    let (armed, t) = queue_delayed_work (some 3) (some 7) 20 ticks start in
    (armed ≡ true)
    × ((p : ℕ) → t.queues p ≡ start.queues p)
    × ((v : ℕ) → v ≢ 7 → (t.works v ≡ start.works v) × (t.timers v ≡ start.timers v))
    × (armed ≡ true → timer_pending (t.timers 7) ≡ true)
    × (armed ≡ true
        → (list_after 3 (delayed_work_timer_fn 7 t) ≡ some (7 ∷ []))
          × ((p : ℕ) → p ≢ 3 → queue_after p (delayed_work_timer_fn 7 t) ≡ some (start.queues p)))
delay_round_example = delay_round 3 7 20 ticks start refl (omega arith)
