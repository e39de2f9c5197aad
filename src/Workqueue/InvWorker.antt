-- ===== src/Workqueue/InvWorker.antt =====
-- The queues' threads and the timers keep the invariant.
use airport_rtw.Base.{
  ℕ, ◌≡◌, ◌≢◌, refl, ap, sym, inl, inr, true, false, Option, none, some, List, [], ◌∷◌, arith, ◌==◌,
  count, Bool-cases,
}
use mathlib.Core.Path.{subst}
use mathlib.Core.Option.{some-injective}
use airport_rtw.Workqueue.{State, set_work, set_queue}
use airport_rtw.Workqueue.Delayed.{queue_work_on, delayed_work_timer_fn}
use airport_rtw.Workqueue.Worker.{pick, finish, serve, resume, worker_step, destroy_begin}
use airport_rtw.Workqueue.Inv.{IsSound, if-IsSound, queue_work_locked-IsSound}

-- A work that is taken off a list is not running anywhere, and the list holds it no second time.
module _ (q w : ℕ) (rest : List ℕ) (s : State) (i : IsSound s)
    (head : (s.queues q).queue ≡ w ∷ rest) (idle : s.current q ≡ none)
    (alive : (s.queues q).done ≡ false) where
  listed_head : (w' : ℕ) → count w' (w ∷ rest) ≡ count w' (s.queues q).queue
  listed_head w' = ap (count w') (sym head)

  on_queue : ((s.works w).pending ≡ 1) × ((s.works w).wq ≡ some q)
  unfolding count
  on_queue = ground (arith, listed_head w, i.listed q w)

  not_running : (s.works w).executing ≡ false
  not_running = ground (arith, on_queue, i.runner w)

  pick-IsSound : IsSound (pick q w rest s)
  unfolding pick count
  pick-IsSound = record {
    listed = λ q' w'. ground (arith, i.listed q' w', listed_head w', on_queue);
    homed = λ w' h. ground (arith, i.homed w');
    runs = λ q' w' h. ground (arith, i.runs q' w', on_queue, not_running);
    runner = λ w' h. ground (arith, i.runner w', on_queue, not_running);
    counted = λ q'. ground (arith, i.counted q');
    calm = λ w' h. ground (arith, i.calm w', on_queue);
    ended = λ q' h. ground (arith, i.ended q');
  }

module _ (q w : ℕ) (s : State) (i : IsSound s) (busy : s.current q ≡ some w) where
  finish-IsSound : IsSound (finish q w s)
  unfolding finish
  finish-IsSound = record {
    listed = λ q' w'. ground (arith, i.listed q' w');
    homed = λ w' h. ground (arith, i.homed w');
    runs = λ q' w' h. ground (arith, i.runs q' w', i.runs q w);
    runner = λ w' h. ground (arith, i.runner w', i.runs q w);
    counted = λ q'. ground (arith, i.counted q');
    calm = λ w' h. ground (arith, i.calm w');
    ended = λ q' h. ground (arith, i.ended q', i.ended q);
  }

end-IsSound :
    (q : ℕ) (s : State)
    → IsSound s
    → (s.queues q).running ≡ false
    → (s.queues q).queue ≡ []
    → s.current q ≡ none
    → IsSound (set_queue s q (record (s.queues q) { done = true }))
end-IsSound q s i stopped empty idle = record {
  listed = λ q' w'. ground (arith, i.listed q' w');
  homed = i.homed;
  runs = i.runs;
  runner = i.runner;
  counted = λ q'. ground (arith, i.counted q');
  calm = i.calm;
  ended = λ q' h. ground (arith, i.ended q');
}

serve-IsSound :
    (q : ℕ) (works : List ℕ) (s : State)
    → IsSound s
    → (s.queues q).queue ≡ works
    → s.current q ≡ none
    → (s.queues q).done ≡ false
    → IsSound (serve q works s)
unfolding serve
serve-IsSound q [] s i e idle alive =
    if-IsSound (s.queues q).running (λ r. i) (λ r. end-IsSound q s i r e idle)
serve-IsSound q (w ∷ rest) s i e idle alive = pick-IsSound q w rest s i e idle alive

resume-IsSound :
    (q : ℕ) (c : Option ℕ) (s : State)
    → IsSound s
    → s.current q ≡ c
    → (s.queues q).done ≡ false
    → IsSound (resume q c s)
resume-IsSound q none s i e alive = serve-IsSound q (s.queues q).queue s i refl e alive
resume-IsSound q (some w) s i e alive = finish-IsSound q w s i e

pub worker_step-IsSound : (q : ℕ) (s : State) → IsSound s → IsSound (worker_step q s)
unfolding worker_step
worker_step-IsSound q s i =
    if-IsSound (s.queues q).done (λ e. i) (λ e. resume-IsSound q (s.current q) s i refl e)

pub destroy_begin-IsSound : (q : ℕ) (s : State) → IsSound s → IsSound (destroy_begin q s)
unfolding destroy_begin
destroy_begin-IsSound q s i = record {
  listed = λ q' w'. ground (arith, i.listed q' w');
  homed = i.homed;
  runs = i.runs;
  runner = i.runner;
  counted = λ q'. ground (arith, i.counted q');
  calm = i.calm;
  ended = λ q' h. ground (arith, i.ended q');
}

-- What the timer's function does first.
unset_pending :
    (w : ℕ) (s : State)
    → IsSound s
    → (s.works w).pending ≢ 1
    → IsSound (set_work s w (record (s.works w) { pending = 0 }))
unset_pending w s i ne = record {
  listed = λ q' w'. ground (arith, i.listed q' w');
  homed = λ w' h. ground (arith, i.homed w');
  runs = λ q' w' h. ground (arith, i.runs q' w');
  runner = λ w' h. ground (arith, i.runner w');
  counted = i.counted;
  calm = λ w' h. ground (arith, i.calm w');
  ended = i.ended;
}

queue_work_on-IsSound :
    (wq : Option ℕ) (w : ℕ) (s : State) {t : State}
    → IsSound s
    → queue_work_on wq w s ≡ some t
    → IsSound t
queue_work_on-IsSound none w s i e = cc
queue_work_on-IsSound (some q) w s i e =
    subst IsSound (some-injective _ _ e) (queue_work_locked-IsSound q w s i)

pub timer_fn-IsSound :
    (w : ℕ) (s : State) {t : State} → IsSound s → delayed_work_timer_fn w s ≡ some t → IsSound t
unfolding delayed_work_timer_fn
timer_fn-IsSound w s i e = elim (Bool-cases ((s.works w).pending == 2)) [
  | inl two ↦
      queue_work_on-IsSound (s.works w).wq w _ (unset_pending w s i (ground arith)) (rw two at e)
  | inr other ↦ subst IsSound (some-injective _ _ (rw other at e)) i
]
