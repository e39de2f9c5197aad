-- ===== src/Timer/Clock.antt =====
-- The conversions and comparisons of src/compat/linux/jiffies.h.
use airport_rtw.Base.{
  ℕ, ◌+◌, ◌-◌, ◌*◌, ◌/◌, ◌%◌, ◌^◌, ◌<◌, ◌≤◌, ◌≡◌, Bool, true, false, arith, ltb, leb, ◌==◌,
}

-- `rtw88_get_jiffies`, from the nanoseconds that the kernel's clock gives.
pub get_jiffies : ℕ → ℕ
get_jiffies nsecs = nsecs / 1000000

pub usecs_to_jiffies : ℕ → ℕ
usecs_to_jiffies usecs = (usecs + 999) % 2 ^ 32 / 1000

pub msecs_to_jiffies : ℕ → ℕ
msecs_to_jiffies msecs = msecs

pub jiffies_to_msecs : ℕ → ℕ
jiffies_to_msecs j = j % 2 ^ 32

pub jiffies_to_usecs : ℕ → ℕ
jiffies_to_usecs j = (j * 1000) % 2 ^ 64 % 2 ^ 32

-- `(long)(b - a) < 0`: the top bit of the difference modulo 2 ^ 64.
pub time_after : (a b : ℕ) → Bool
time_after a b = leb (2 ^ 63) ((b + 2 ^ 64 - a) % 2 ^ 64)

pub time_before : (a b : ℕ) → Bool
unfolding time_after
time_before a b = time_after b a

pub time_after_eq : (a b : ℕ) → Bool
time_after_eq a b = ltb ((a + 2 ^ 64 - b) % 2 ^ 64) (2 ^ 63)

-- Two instants less than 2 ^ 63 jiffies apart are compared rightly, also across a wrap of the
-- counter: the later is after the earlier unless they are one, and never the other way round.
pub time_after-wraps :
    (a d : ℕ)
    → a < 2 ^ 64
    → d < 2 ^ 63
    → let later = (a + d) % 2 ^ 64 in
      (time_after later a ≡ ltb 0 d)
      × (time_after a later ≡ false)
      × (time_before a later ≡ ltb 0 d)
      × (time_after_eq later a ≡ true)
      × (time_after_eq a later ≡ (d == 0))
unfolding time_after time_before time_after_eq
time_after-wraps a d ha hd = ground arith

-- A delay in microseconds is rounded up to the jiffy and no further, if its sum with 999 fits 32
-- bits; a delay in milliseconds of 32 bits comes back as it was.
pub usecs_to_jiffies-rounds_up :
    (usecs : ℕ)
    → usecs + 999 < 2 ^ 32
    → (usecs ≤ 1000 * usecs_to_jiffies usecs)
      × (1000 * usecs_to_jiffies usecs < usecs + 1000)
      × (jiffies_to_msecs (msecs_to_jiffies usecs) ≡ usecs)
unfolding usecs_to_jiffies jiffies_to_msecs msecs_to_jiffies
usecs_to_jiffies-rounds_up usecs h = ground arith
