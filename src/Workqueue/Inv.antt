-- ===== src/Workqueue/Inv.antt =====
-- What holds of the works, the lists and the threads between any two sections, and that queueing
-- keeps it.
use airport_rtw.Base.{
  ℕ, ◌≡◌, ◌≢◌, refl, inl, inr, Bool, true, false, not, ◌&&◌, Option, none, some, [], ◌∷◌, ◌++◌,
  arith, ◌==◌, if◌then◌else◌, is_some, count, count-append, Bool-cases,
}
use airport_rtw.Timer.{Timer}
use airport_rtw.Workqueue.{
  State, is_on, refused, set_work, set_queue, queue_work_locked, queue_work,
}
use airport_rtw.Workqueue.Delayed.{Ticks, arm_work, queue_delayed_work}
use airport_rtw.Workqueue.Steps.{start}

-- The work that the thread of the work's queue runs.
abbrev pub runs_at : Option ℕ → (ℕ → Option ℕ) → Option ℕ
runs_at none current = none
runs_at (some q) current = current q

pub record IsSound (s : State) : Type 0 where
  -- A work is on the list of its queue once while `pending` is 1, and else on none.
  pub listed :
      (q w : ℕ)
      → count w (s.queues q).queue
        ≡ (if (s.works w).pending == 1 && is_on (s.works w).wq q then 1 else 0)
  pub homed : (w : ℕ) → (s.works w).wq ≡ none → (s.works w).pending ≡ 0
  pub runs :
      (q w : ℕ) → s.current q ≡ some w → ((s.works w).executing ≡ true) × ((s.works w).wq ≡ some q)
  pub runner : (w : ℕ) → (s.works w).executing ≡ true → runs_at (s.works w).wq s.current ≡ some w
  pub counted : (q : ℕ) → (s.queues q).active ≡ (if is_some (s.current q) then 1 else 0)
  pub calm : (w : ℕ) → (s.works w).canceling ≡ true → (s.works w).pending ≡ 0
  pub ended :
      (q : ℕ)
      → (s.queues q).done ≡ true
      → ((s.queues q).running ≡ false) × ((s.queues q).queue ≡ []) × (s.current q ≡ none)

-- A state that a test chooses.
pub if-IsSound :
    (b : Bool) {x y : State}
    → (b ≡ true → IsSound x)
    → (b ≡ false → IsSound y)
    → IsSound (if b then x else y)
if-IsSound true f g = f refl
if-IsSound false f g = g refl

pub if_pair-IsSound :
    (b : Bool) (x y : Bool × State)
    → (b ≡ true → IsSound x.1)
    → (b ≡ false → IsSound y.1)
    → IsSound (if b then x else y).1
if_pair-IsSound true x y f g = f refl
if_pair-IsSound false x y f g = g refl

pub start-IsSound : IsSound start
unfolding count
start-IsSound = record {
  listed = λ q w. refl;
  homed = λ w h. refl;
  runs = λ q w h. ground arith;
  runner = λ w h. ground arith;
  counted = λ q. refl;
  calm = λ w h. ground arith;
  ended = λ q h. ground arith;
}

module _ (q w : ℕ) (s : State) (i : IsSound s) (ok : refused s q w ≡ false) where
  -- Setting a work that is not pending behind a timer, or on no list.
  pub set_aside :
      (p : ℕ) (ne : p ≢ 1)
      → IsSound (set_work s w (record (s.works w) { wq = some q; pending = p }))
  set_aside p ne = record {
    listed = λ q' w'. ground (arith, i.listed q' w', i.homed w');
    homed = λ w' h. ground (arith, i.homed w');
    runs = λ q' w' h. ground (arith, i.runs q' w', i.runner w);
    runner = λ w' h. ground (arith, i.runner w');
    counted = i.counted;
    calm = λ w' h. ground (arith, i.calm w');
    ended = i.ended;
  }

  pub push-IsSound : IsSound (
      set_queue
        (set_work s w (record (s.works w) { wq = some q; pending = 1 }))
        q
        (record (s.queues q) { queue = (s.queues q).queue ++ w ∷ [] }))
  unfolding count
  push-IsSound = record {
    listed = λ q' w'.
        ground (arith, i.listed q' w', i.listed q w', count-append w' (s.queues q).queue (w ∷ []));
    homed = λ w' h. ground (arith, i.homed w');
    runs = λ q' w' h. ground (arith, i.runs q' w', i.runner w);
    runner = λ w' h. ground (arith, i.runner w');
    counted = λ q'. ground (arith, i.counted q');
    calm = λ w' h. ground (arith, i.calm w');
    ended = λ q' h. ground (arith, i.ended q');
  }

pub queue_work_locked-IsSound :
    (q w : ℕ) (s : State) → IsSound s → IsSound (queue_work_locked q w s).1
unfolding queue_work_locked
queue_work_locked-IsSound q w s i = elim (Bool-cases (refused s q w)) [
  | inl no_way ↦ rw no_way i
  | inr ok ↦ rw ok (push-IsSound q w s i ok)
]

pub queue_work-IsSound : (q w : Option ℕ) (s : State) → IsSound s → IsSound (queue_work q w s).1
unfolding queue_work
queue_work-IsSound none w s i = i
queue_work-IsSound (some q) none s i = i
queue_work-IsSound (some q) (some w) s i =
    if_pair-IsSound (not s.lock) _ _ (λ e. i) (λ e. queue_work_locked-IsSound q w s i)

-- A change of the timers and nothing else.
pub timers-IsSound :
    (s : State) (timers : ℕ → Timer) → IsSound s → IsSound (record s { timers = timers })
timers-IsSound s timers i = record {
  listed = i.listed;
  homed = i.homed;
  runs = i.runs;
  runner = i.runner;
  counted = i.counted;
  calm = i.calm;
  ended = i.ended;
}

pub arm_work-IsSound :
    (q w delay : ℕ) (k : Ticks) (s : State) → IsSound s → IsSound (arm_work q w delay k s).1
unfolding arm_work
arm_work-IsSound q w delay k s i = elim (Bool-cases (refused s q w)) [
  | inl no_way ↦ rw no_way i
  | inr ok ↦ rw ok (timers-IsSound _ _ (set_aside q w s i ok _ (ground arith)))
]

pub queue_delayed_work-IsSound :
    (q w : Option ℕ) (delay : ℕ) (k : Ticks) (s : State)
    → IsSound s
    → IsSound (queue_delayed_work q w delay k s).1
unfolding queue_delayed_work
queue_delayed_work-IsSound none w delay k s i = i
queue_delayed_work-IsSound (some q) none delay k s i = i
queue_delayed_work-IsSound (some q) (some w) delay k s i =
    ground (arith, queue_work-IsSound (some q) (some w) s i, arm_work-IsSound q w delay k s i)
