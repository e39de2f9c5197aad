-- ===== src/Workqueue/InvCancel.antt =====
-- Cancelling keeps the invariant, and with it every step of every thread.
use mathlib.Core.Path.{fun_ext}
use airport_rtw.Base.{
  ℕ, ◌≡◌, ◌≢◌, inl, inr, Bool, true, not, Option, none, some, List, [], arith, ◌==◌, update, erase,
  count-erase, Bool-cases, ==_refl,
}
use airport_rtw.Workqueue.{State, Work, set_work}
use airport_rtw.Workqueue.Cancel.{
  unlink, remove_pending_work, cancel_begin, cancel_end, cancel_timer, cancel_delayed_work,
}
use airport_rtw.Workqueue.Inv.{
  IsSound, if_pair-IsSound, timers-IsSound, queue_work-IsSound, queue_delayed_work-IsSound,
}
use airport_rtw.Workqueue.InvWorker.{worker_step-IsSound, destroy_begin-IsSound, timer_fn-IsSound}
use airport_rtw.Workqueue.Steps.{
  Step, queues, delays, fires, works, cancels, unarms, returns, drops, destroys, Reach, here, next,
}

erase-nil : (w : ℕ) (xs : List ℕ) → xs ≡ [] → erase w xs ≡ []
unfolding erase
erase-nil w xs e = rw e

-- Off its list and no longer pending, whether it is being cancelled or not.
module _ (w : ℕ) (c : Bool) (s : State) (i : IsSound s) where
  abbrev off : Work
  off = record (s.works w) { pending = 0; canceling = c }

  unlinked-IsSound : IsSound (set_work (record s { queues = unlink w s.queues }) w off)
  unlinked-IsSound = record {
    listed = λ q' w'. ground (arith, i.listed q' w', count-erase w' w (s.queues q').queue);
    homed = λ w' h. ground (arith, i.homed w');
    runs = λ q' w' h. ground (arith, i.runs q' w');
    runner = λ w' h. ground (arith, i.runner w');
    counted = λ q'. ground (arith, i.counted q');
    calm = λ w' h. ground (arith, i.calm w');
    ended = λ q' h. let e = i.ended q' h in (e.0, erase-nil w (s.queues q').queue e.1, e.2);
  }

  unarmed-IsSound : (s.works w).pending ≢ 1 → IsSound (set_work s w off)
  unarmed-IsSound ne = record {
    listed = λ q' w'. ground (arith, i.listed q' w');
    homed = λ w' h. ground (arith, i.homed w');
    runs = λ q' w' h. ground (arith, i.runs q' w');
    runner = λ w' h. ground (arith, i.runner w');
    counted = i.counted;
    calm = λ w' h. ground (arith, i.calm w');
    ended = i.ended;
  }

update-update : (f : ℕ → Work) (w : ℕ) (x y : Work) → update (update f w x) w y ≡ update f w y
update-update f w x y = fun_ext (λ j. ground arith)

remove_pending_work-IsSound : (w : ℕ) (s : State) → IsSound s → IsSound (remove_pending_work w s).1
unfolding remove_pending_work
remove_pending_work-IsSound w s i = elim (Bool-cases ((s.works w).pending == 1)) [
  | inl e ↦ simp e (unlinked-IsSound w (s.works w).canceling s i)
  | inr e ↦ simp e (unarmed-IsSound w (s.works w).canceling s i (ground arith))
]

cancel_begin-IsSound : (w : ℕ) (s : State) → IsSound s → IsSound (cancel_begin w s).1
unfolding cancel_begin
cancel_begin-IsSound w s i = elim (Bool-cases ((s.works w).pending == 1)) [
  | inl e ↦ simp (==_refl w, e, update-update) (unlinked-IsSound w true s i)
  | inr e ↦ simp (==_refl w, e, update-update) (unarmed-IsSound w true s i (ground arith))
]

cancel_end-IsSound : (w : ℕ) (s : State) → IsSound s → IsSound (cancel_end w s)
unfolding cancel_end
cancel_end-IsSound w s i = record {
  listed = λ q' w'. ground (arith, i.listed q' w');
  homed = λ w' h. ground (arith, i.homed w');
  runs = λ q' w' h. ground (arith, i.runs q' w');
  runner = λ w' h. ground (arith, i.runner w');
  counted = i.counted;
  calm = λ w' h. ground (arith, i.calm w');
  ended = i.ended;
}

cancel_delayed_work-IsSound :
    (w : Option ℕ) (s : State) → IsSound s → IsSound (cancel_delayed_work w s).1
unfolding cancel_delayed_work
cancel_delayed_work-IsSound none s i = i
cancel_delayed_work-IsSound (some w) s i =
    if_pair-IsSound (not s.lock) _ _ (λ e. i)
      (λ e. timers-IsSound _ _ (remove_pending_work-IsSound w s i))

pub Step-IsSound : {s t : State} → Step s t → IsSound s → IsSound t
unfolding cancel_timer
Step-IsSound {s} (queues q w) i = queue_work-IsSound q w s i
Step-IsSound {s} (delays q w delay k) i = queue_delayed_work-IsSound q w delay k s i
Step-IsSound {s} (fires w e) i = timer_fn-IsSound w s i e
Step-IsSound {s} (works q) i = worker_step-IsSound q s i
Step-IsSound {s} (cancels w) i = cancel_begin-IsSound w s i
Step-IsSound {s} (unarms w) i = timers-IsSound s _ i
Step-IsSound {s} (returns w d) i = cancel_end-IsSound w s i
Step-IsSound {s} (drops w) i = cancel_delayed_work-IsSound w s i
Step-IsSound {s} (destroys q) i = destroy_begin-IsSound q s i

-- The invariant holds in every state that the threads can reach from a sound one.
pub Reach-IsSound : {s t : State} → IsSound s → Reach s t → IsSound t
Reach-IsSound i here = i
Reach-IsSound i (next r st) = Step-IsSound st (Reach-IsSound i r)
