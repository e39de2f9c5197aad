-- ===== src/Timer.antt =====
-- The kernel timers of src/compat/rtw88_compat.c and src/compat/linux/timer.h, on the thread calls
-- of `ThreadCall`, and the clock helpers of src/compat/linux/jiffies.h that set them.
-- `unsigned long` has 64 bits, and a jiffy is a millisecond.
pub mod Deadline
pub mod Clock
mod Tests
use airport_rtw.Base.{
  ℕ, ◌+◌, ◌-◌, ◌/◌, ◌%◌, ◌^◌, ◌≡◌, Bool, true, false, not, ◌||◌, Option, none, some, leb, ◌==◌,
  if◌then◌else◌,
}

-- `struct timer_list`; `call` says whether the pointer is set.
pub record Timer : Type 0 where
  pub expires : ℕ
  pub call : Bool
  pub active : Bool

unfoldable pub timer_setup : Timer → Timer
timer_setup t = record t { expires = 0; active = false; call = false }

-- `timer_call_fn`: whether the timer's function is called. The flag is cleared first.
unfoldable pub timer_call_fn : Timer → Bool × Timer
timer_call_fn t = if t.active then (true, record t { active = false }) else (false, t)

-- `(long)expires - (long)jiffies`, at least 1, cast to `uint32_t`.
unfoldable pub delay_ms : (expires now : ℕ) → ℕ
delay_ms expires now =
    let diff = (expires + 2 ^ 64 - now) % 2 ^ 64 in
    (if diff == 0 || leb (2 ^ 63) diff then 1 else diff) % 2 ^ 32

-- What `mod_timer` does: the flag that it returns, the interval in milliseconds that it submits to
-- the thread call, and the timer. `granted` says whether an allocation succeeds.
pub record Armed : Type 0 where
  pub was_active : Bool
  pub interval : Option ℕ
  pub timer : Timer

unfoldable pub mod_timer : (granted : Bool) → (now : ℕ) → Timer → (expires : ℕ) → Armed
unfolding delay_ms
mod_timer granted now t expires =
    let call = t.call || granted in
    if not call then record { was_active = t.active; interval = none; timer = t } else record {
      was_active = t.active;
      interval = some (delay_ms expires now);
      timer = record { expires = expires; active = true; call = true };
    }

-- `del_timer` and `del_timer_sync`, which gives the thread call back. The cancellations of the
-- thread call are those of `ThreadCall`.
unfoldable pub del_timer : Timer → Bool × Timer
del_timer t = (t.active, record t { active = false })

unfoldable pub del_timer_sync : Timer → Timer
del_timer_sync t = record t { active = false; call = false }

-- `timer_pending`
unfoldable pub timer_pending : Timer → Bool
timer_pending t = t.active
