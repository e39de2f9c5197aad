-- ===== src/Log/Read.antt =====
-- What `rtw88_read_log` hands out, and a message's way through the log.
use airport_rtw.Base.{
  ℕ, zero, suc, ◌+◌, ◌-◌, ◌%◌, ◌≤◌, ◌≡◌, refl, ap, ◌∙◌, ◌≢◌, true, List, [], ◌∷◌, ◌++◌, arith,
  length, take, drop, take-all, keep_last, sym,
}
use airport_rtw.Log.{
  LogRing, log_size, next_index, append_char, append_loop, log_append, read_loop, read_log,
}
use airport_rtw.Log.Inv.{IsValid, log_bounds}
use airport_rtw.Log.Refine.{window, contents, until_nul, log_append-keep_last}

-- What one call of the loop leaves behind.
record Took (n : ℕ) (s : LogRing) (out : List ℕ × LogRing) : Type 0 where
  taken : out.0 ≡ take n (contents s)
  left : contents out.1 ≡ drop n (contents s)

-- `window` matches on `suc`, the code compares the indices.
contents-cons :
    (s : LogRing)
    → IsValid s
    → s.tail ≢ s.head
    → contents s ≡ s.ring s.tail ∷ contents (record s { tail = next_index s.tail })
contents-cons s v ne =
    ap (window s.ring s.tail) {y = suc ((s.head + log_size - next_index s.tail) % log_size)}
      (omega arith)

contents-nil : (s : LogRing) → IsValid s → s.tail ≡ s.head → contents s ≡ []
contents-nil s v e = ap (window s.ring s.tail) {y = 0} (omega arith)

read_loop-Took : (n : ℕ) (s : LogRing) → IsValid s → Took n s (read_loop n s)
unfolding read_loop
read_loop-Took zero s v = record { taken = refl; left = refl }
read_loop-Took (suc n) s v = ground (
  arith,
  read_loop-Took n (record s { tail = next_index s.tail }),
  contents-cons s v,
  contents-nil s v,
)

-- With a buffer and the lock, `rtw88_read_log` hands out the oldest characters that wait, at most
-- `max_len` of them, in order, and leaves the others waiting.
pub read_log-take :
    (max_len : ℕ) (s : LogRing)
    → IsValid s
    → s.lock ≡ true
    → ((read_log true max_len s).0 ≡ take max_len (contents s))
      × (contents (read_log true max_len s).1 ≡ drop max_len (contents s))
unfolding read_log
read_log-take zero s v locked = (refl, refl)
read_log-take (suc n) s v locked =
    let e : read_log true (suc n) s ≡ read_loop (suc n) s = ground arith in
    let t = read_loop-Took (suc n) s v in
    (ap (λ r. r.0) e ∙ t.taken, ap (λ r. contents r.1) e ∙ t.left)

lock-append_loop : (msg : List ℕ) (s : LogRing) → (append_loop s msg).lock ≡ s.lock
unfolding append_loop append_char
lock-append_loop [] s = refl
lock-append_loop (c ∷ msg) s = ground (arith, lock-append_loop msg (append_char s c))

lock-log_append : (s : LogRing) (msg : List ℕ) → (log_append s msg).lock ≡ s.lock
unfolding log_append
lock-log_append s msg = ground (arith, lock-append_loop msg s)

-- A short message in an empty ring is not cut.
keep_last-short :
    (s : LogRing) (msg : List ℕ)
    → IsValid s
    → s.head ≡ s.tail
    → length (until_nul msg) ≤ 8191
    → keep_last 8191 (contents s ++ until_nul msg) ≡ until_nul msg
keep_last-short s msg v e short =
    ap (λ xs. keep_last 8191 (xs ++ until_nul msg)) (contents-nil s v (sym e))
    ∙ ap (λ k. drop k (until_nul msg)) {y = 0} (omega arith)

-- What is logged into an empty ring is read back whole, if it is shorter than the ring and the
-- buffer.
pub read_log-log_append :
    (max_len : ℕ) (s : LogRing) (msg : List ℕ)
    → IsValid s
    → s.lock ≡ true
    → s.head ≡ s.tail
    → length (until_nul msg) ≤ 8191
    → length (until_nul msg) ≤ max_len
    → (read_log true max_len (log_append s msg)).0 ≡ until_nul msg
read_log-log_append max_len s msg v locked empty short fits =
    let held = log_append-keep_last s msg v locked ∙ keep_last-short s msg v empty short in
    let keeps = log_bounds msg true max_len v in
    (read_log-take max_len (log_append s msg) keeps.0 (lock-log_append s msg ∙ locked)).0
    ∙ ap (take max_len) held
    ∙ take-all max_len (until_nul msg) fits
