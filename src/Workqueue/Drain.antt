-- ===== src/Workqueue/Drain.antt =====
-- The thread of one queue by itself, `wq_thread_fn` of src/compat/rtw88_compat.c.
use airport_rtw.Base.{
  ℕ, zero, suc, ◌+◌, ◌*◌, ◌≡◌, refl, true, false, Option, none, some, List, [], ◌∷◌, ◌++◌, arith,
  if◌then◌else◌, length,
}
use airport_rtw.Workqueue.{State}
use airport_rtw.Workqueue.Worker.{worker_step, destroy_begin, destroy_done}

-- The work whose function the next step of the thread of queue `q` calls.
abbrev first : List ℕ → List ℕ
first [] = []
first (w ∷ rest) = w ∷ []

abbrev called_at : Option ℕ → List ℕ → List ℕ
called_at none works = first works
called_at (some w) works = []

pub called : (q : ℕ) → State → List ℕ
called q s = if (s.queues q).done then [] else called_at (s.current q) (s.queues q).queue

-- The works whose functions are called in `n` steps of the thread, and the state after them.
pub run : ℕ → (q : ℕ) → State → List ℕ × State
unfolding called
run zero q s = ([], s)
run (suc n) q s = let rest = run n q (worker_step q s) in (called q s ++ rest.0, rest.1)

rounds : List ℕ → ℕ
rounds [] = 1
rounds (w ∷ works) = suc (suc (rounds works))

rounds-length : (works : List ℕ) → rounds works ≡ 2 * length works + 1
unfolding rounds
rounds-length [] = omega arith
rounds-length (w ∷ works) = omega (arith, rounds-length works)

-- A step more for a work that is running.
abbrev pub one_more : Option ℕ → ℕ → ℕ
one_more none n = n
one_more (some w) n = suc n

record IsStopping (q : ℕ) (s : State) (works : List ℕ) : Type 0 where
  listed : (s.queues q).queue ≡ works
  stopped : (s.queues q).running ≡ false
  alive : (s.queues q).done ≡ false

record Drained (q : ℕ) (works : List ℕ) (out : List ℕ × State) : Type 0 where
  in_order : out.0 ≡ works
  ended : (out.1.queues q).done ≡ true
  emptied : (out.1.queues q).queue ≡ []

module _ (q : ℕ) where
  step_end : (s : State) → IsStopping q s [] → s.current q ≡ none → Drained q [] (run 1 q s)
  unfolding run worker_step
  step_end s h idle = ground arith

  step_finish :
      (s : State) (w : ℕ) {works : List ℕ}
      → IsStopping q s works
      → s.current q ≡ some w
      → (called q s ≡ [])
        × IsStopping q (worker_step q s) works
        × ((worker_step q s).current q ≡ none)
  unfolding called worker_step
  step_finish s w h busy = ground arith

  step_pick :
      (s : State) (w : ℕ) (works : List ℕ)
      → IsStopping q s (w ∷ works)
      → s.current q ≡ none
      → (called q s ≡ w ∷ [])
        × IsStopping q (worker_step q s) works
        × ((worker_step q s).current q ≡ some w)
  unfolding called worker_step
  step_pick s w works h idle = ground arith

  drain_idle :
      (works : List ℕ) (s : State)
      → IsStopping q s works
      → s.current q ≡ none
      → Drained q works (run (rounds works) q s)
  unfolding run rounds
  drain_idle [] s h idle = step_end s h idle
  drain_idle (w ∷ works) s h idle =
      let a = step_pick s w works h idle in
      let t = worker_step q s in
      let b = step_finish t w a.1 a.2 in
      ground (arith, drain_idle works (worker_step q t) b.1 b.2, a.0, b.0)

  drain :
      (works : List ℕ) (c : Option ℕ) (s : State)
      → IsStopping q s works
      → s.current q ≡ c
      → Drained q works (run (one_more c (rounds works)) q s)
  unfolding run
  drain works none s h e = drain_idle works s h e
  drain works (some w) s h e =
      let b = step_finish s w h e in ground (arith, drain_idle works (worker_step q s) b.1 b.2, b.0)

  -- After the first section of `destroy_workqueue` the queue's thread, left alone, calls the
  -- functions of the works still listed, each once and in the order in which they were queued,
  -- and then sets the flag that `destroy_workqueue` waits for: two steps for each work and one
  -- more, and another if it was running a work's function.
  pub destroy_drains :
      (s : State)
      → (s.queues q).done ≡ false
      → let works = (s.queues q).queue in
        let out = run (one_more (s.current q) (2 * length works + 1)) q (destroy_begin q s) in
        (out.0 ≡ works) × (destroy_done q out.1 ≡ true)
  unfolding destroy_begin destroy_done
  destroy_drains s alive =
      let works = (s.queues q).queue in
      let d : Drained q works (run (one_more (s.current q) (rounds works)) q (destroy_begin q s)) =
        drain works (s.current q) (destroy_begin q s) (ground arith) refl in
      rw (← rounds-length works) (d.in_order, d.ended)
