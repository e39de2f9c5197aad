-- ===== src/Log/Inv.antt =====
-- The indices of the log ring of src/compat/rtw88_compat.c, and their bounds.
use airport_rtw.Base.{ℕ, zero, suc, ◌+◌, ◌%◌, ◌<◌, Bool, List, [], ◌∷◌, arith}
use airport_rtw.Log.{LogRing, log_size, append_char, append_loop, log_append, read_loop, read_log}

pub record IsValid (s : LogRing) : Type 0 where
  pub head_in : s.head < log_size
  pub tail_in : s.tail < log_size

pub append_char-IsValid : {s : LogRing} (c : ℕ) → IsValid s → IsValid (append_char s c)
unfolding append_char
append_char-IsValid c v = ground arith

append_loop-IsValid : (msg : List ℕ) (s : LogRing) → IsValid s → IsValid (append_loop s msg)
unfolding append_loop
append_loop-IsValid [] s v = v
append_loop-IsValid (c ∷ msg) s v =
    ground (arith, append_loop-IsValid msg (append_char s c) (append_char-IsValid c v))

read_loop-IsValid : (n : ℕ) (s : LogRing) → IsValid s → IsValid (read_loop n s).1
unfolding read_loop
read_loop-IsValid zero s v = v
read_loop-IsValid (suc n) s v =
    ground (arith, read_loop-IsValid n (record s { tail = (s.tail + 1) % log_size }) (omega arith))

-- Appending and reading keep both indices inside the ring, so that every access is in bounds.
pub log_bounds :
    {s : LogRing} (msg : List ℕ) (out_buf : Bool) (max_len : ℕ)
    → IsValid s
    → IsValid (log_append s msg) × IsValid (read_log out_buf max_len s).1
unfolding log_append read_log
log_bounds {s} msg out_buf max_len v =
    ground (arith, append_loop-IsValid msg s v, read_loop-IsValid max_len s v)
