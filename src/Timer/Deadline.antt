-- ===== src/Timer/Deadline.antt =====
-- The interval that `mod_timer` submits, and when a timer fires.
use airport_rtw.Base.{ℕ, ◌+◌, ◌%◌, ◌^◌, ◌<◌, ◌≡◌, Bool, false, ◌||◌, arith}
use airport_rtw.Timer.{
  Timer, delay_ms, mod_timer, del_timer, del_timer_sync, timer_call_fn, timer_pending, timer_setup,
}

-- On a clock that may wrap, with a delay below 2 ^ 63 and not 0: a timer set `delay` jiffies ahead
-- submits the delay modulo 2 ^ 32, which is the delay itself below 2 ^ 32 and a shorter one above;
-- one set `delay` jiffies in the past submits 1.
pub delay_ms_lem :
    (now delay : ℕ)
    → now < 2 ^ 64
    → 0 < delay
    → delay < 2 ^ 63
    → (delay_ms ((now + delay) % 2 ^ 64) now ≡ delay % 2 ^ 32)
      × (delay_ms now ((now + delay) % 2 ^ 64) ≡ 1)
unfolding delay_ms
delay_ms_lem now delay hn pos short = ground arith

-- `mod_timer` says whether the timer was active. If there is a thread call, or one is granted, the
-- timer's function is called at the next dispatch and not at the one after; otherwise nothing
-- changes. A timer that was armed and then deleted, or set up anew, is not called.
pub fires_once :
    (granted : Bool) (now expires : ℕ) (t : Timer)
    → let armed = mod_timer granted now t expires in
      (armed.was_active ≡ timer_pending t)
      × ((timer_call_fn armed.timer).0 ≡ (t.call || granted || t.active))
      × ((timer_call_fn (timer_call_fn armed.timer).1).0 ≡ false)
      × (t.call || granted ≡ false → armed.timer ≡ t)
      × ((timer_call_fn (del_timer armed.timer).1).0 ≡ false)
      × ((timer_call_fn (del_timer_sync armed.timer)).0 ≡ false)
      × ((timer_call_fn (timer_setup armed.timer)).0 ≡ false)
unfolding mod_timer timer_call_fn del_timer del_timer_sync timer_setup timer_pending
fires_once granted now expires t = ground arith
