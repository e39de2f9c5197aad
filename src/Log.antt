-- ===== src/Log.antt =====
-- The in-memory log of src/compat/rtw88_compat.c: `rtw88_log_append` and `rtw88_read_log`.
-- The static variables are the fields of `LogRing`; `lock` says whether `rtw88_log_lock` is set.
pub mod Inv
pub mod Refine
pub mod Read
mod Tests
use airport_rtw.Base.{
  ℕ, zero, suc, ◌+◌, ◌-◌, ◌%◌, Bool, true, false, not, ◌&&◌, ◌||◌, List, [], ◌∷◌, ltb, ◌==◌,
  if◌then◌else◌, update,
}

-- `sizeof(rtw88_log_ring)`
abbrev pub log_size : ℕ
log_size = 8192

pub record LogRing : Type 0 where
  pub lock : Bool
  pub ring : ℕ → ℕ
  pub head : ℕ
  pub tail : ℕ

abbrev pub next_index : ℕ → ℕ
next_index i = (i + 1) % log_size

-- One round of the loop in `rtw88_log_append`.
pub append_char : LogRing → ℕ → LogRing
append_char s c =
    let moved = record s { ring = update s.ring s.head c; head = next_index s.head } in
    if moved.head == moved.tail then record moved { tail = next_index moved.tail } else moved

-- `while (*msg)`: the list holds the characters from `msg` on, and a zero ends the loop.
pub append_loop : LogRing → List ℕ → LogRing
append_loop s [] = s
append_loop s (c ∷ msg) = let rest = append_loop (append_char s c) msg in if c == 0 then s else rest

pub log_append : LogRing → List ℕ → LogRing
unfolding append_loop append_char
log_append s msg = if not s.lock then s else append_loop s msg

-- The loop of `rtw88_read_log`: the characters that go to `out_buf`, in order. `room` is
-- `max_len - read`.
pub read_loop : ℕ → LogRing → List ℕ × LogRing
read_loop zero s = ([], s)
read_loop (suc room) s =
    let rest = read_loop room (record s { tail = next_index s.tail }) in
    if s.tail == s.head then ([], s) else (s.ring s.tail ∷ rest.0, rest.1)

-- `out_buf` says whether the pointer is set. What is returned is the list's length.
pub read_log : Bool → ℕ → LogRing → List ℕ × LogRing
unfolding read_loop
read_log out_buf max_len s =
    if not out_buf || (max_len == 0 || not s.lock) then ([], s) else read_loop max_len s
