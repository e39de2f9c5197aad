-- ===== src/Log/Refine.antt =====
-- The log ring of src/compat/rtw88_compat.c against a list of characters.
use airport_rtw.Base.{
  ℕ, zero, suc, ◌+◌, ◌-◌, ◌%◌, ◌<◌, ◌≡◌, refl, sym, ap, ◌∙◌, ◌≢◌, inl, inr, true, List, [], ◌∷◌,
  ◌++◌, append_assoc, append-nil, arith, ◌==◌, if◌then◌else◌, length, drop, keep_last,
  keep_last-append, update, Bool-cases,
}
use airport_rtw.Log.{LogRing, log_size, next_index, append_char, append_loop, log_append}
use airport_rtw.Log.Inv.{IsValid, append_char-IsValid}

-- The `n` characters from index `h` on, going round at the end of the ring.
abbrev pub window : (ℕ → ℕ) → ℕ → ℕ → List ℕ
window m h zero = []
window m h (suc n) = m h ∷ window m (next_index h) n

-- How many characters wait to be read.
abbrev pub fill : LogRing → ℕ
fill s = (s.head + log_size - s.tail) % log_size

abbrev pub contents : LogRing → List ℕ
contents s = window s.ring s.tail (fill s)

pub length-window : (m : ℕ → ℕ) (h n : ℕ) → length (window m h n) ≡ n
length-window m h zero = refl
length-window m h (suc n) = ap suc (length-window m (next_index h) n)

pub length-contents : (s : LogRing) → length (contents s) < log_size
length-contents s = omega (arith, length-window s.ring s.tail (fill s))

-- A write just past a window that does not fill the ring extends it.
window-update :
    (m : ℕ → ℕ) (c i h n : ℕ)
    → h < log_size
    → n < log_size
    → i ≡ (h + n) % log_size
    → window (update m i c) h (suc n) ≡ window m h n ++ c ∷ []
window-update m c i h zero hh hn e = ground (arith)
window-update m c i h (suc n) hh hn e = ground (arith, window-update m c i (next_index h) n)

module _ (s : LogRing) (c : ℕ) (v : IsValid s) where
  abbrev written : ℕ → ℕ
  written = update s.ring s.head c

  -- What stands in the ring from `tail` on after the write, before `tail` may move.
  written-contents : window written s.tail (suc (fill s)) ≡ contents s ++ c ∷ []
  written-contents =
      window-update s.ring c s.head s.tail (fill s) v.tail_in (omega arith) (omega arith)

  length-written : length (window written s.tail (suc (fill s))) ≡ suc (fill s)
  length-written = length-window written s.tail (suc (fill s))

  when_full :
      next_index s.head ≡ s.tail
      → window written
          (next_index s.tail)
          ((next_index s.head + log_size - next_index s.tail) % log_size)
        ≡ keep_last 8191 (contents s ++ c ∷ [])
  when_full e =
      ap (window written (next_index s.tail)) {y = fill s} (omega arith)
      ∙ ap (λ k. drop k (window written s.tail (suc (fill s)))) {x = 1}
          (omega (arith, length-written))
      ∙ ap (keep_last 8191) written-contents

  when_not_full :
      next_index s.head ≢ s.tail
      → window written s.tail ((next_index s.head + log_size - s.tail) % log_size)
        ≡ keep_last 8191 (contents s ++ c ∷ [])
  when_not_full ne =
      ap (window written s.tail) {y = suc (fill s)} (omega arith)
      ∙ ap (λ k. drop k (window written s.tail (suc (fill s)))) {x = 0}
          (omega (arith, length-written))
      ∙ ap (keep_last 8191) written-contents

-- One character more, and the oldest is dropped if 8191 were waiting.
append_char-keep_last :
    (s : LogRing) (c : ℕ)
    → IsValid s
    → contents (append_char s c) ≡ keep_last 8191 (contents s ++ c ∷ [])
unfolding append_char
append_char-keep_last s c v = elim (Bool-cases (next_index s.head == s.tail)) [
  | inl e ↦ rw e (when_full s c v (ground arith))
  | inr e ↦ rw e (when_not_full s c v (ground arith))
]

-- The characters of a C string, up to its zero byte.
abbrev pub until_nul : List ℕ → List ℕ
until_nul [] = []
until_nul (c ∷ msg) = if c == 0 then [] else c ∷ until_nul msg

keep_last-contents : (s : LogRing) → contents s ≡ keep_last 8191 (contents s ++ [])
keep_last-contents s =
    ap (λ k. drop k (contents s)) {x = 0} (omega (arith, length-contents s))
    ∙ ap (keep_last 8191) (sym (append-nil (contents s)))

append_loop-keep_last :
    (msg : List ℕ) (s : LogRing)
    → IsValid s
    → contents (append_loop s msg) ≡ keep_last 8191 (contents s ++ until_nul msg)
unfolding append_loop
append_loop-keep_last [] s v = keep_last-contents s
append_loop-keep_last (c ∷ msg) s v = elim (Bool-cases (c == 0)) [
  | inl e ↦ rw e (keep_last-contents s)
  | inr e ↦ rw e (
      append_loop-keep_last msg (append_char s c) (append_char-IsValid c v)
      ∙ ap (λ xs. keep_last 8191 (xs ++ until_nul msg)) (append_char-keep_last s c v)
      ∙ keep_last-append 8191 (contents s ++ c ∷ []) (until_nul msg)
      ∙ ap (keep_last 8191) (append_assoc (contents s) (c ∷ []) (until_nul msg)))
]

-- With its lock in place, `rtw88_log_append` leaves in the ring the last 8191 characters of what
-- it held followed by the message up to its zero byte.
pub log_append-keep_last :
    (s : LogRing) (msg : List ℕ)
    → IsValid s
    → s.lock ≡ true
    → contents (log_append s msg) ≡ keep_last 8191 (contents s ++ until_nul msg)
unfolding log_append
log_append-keep_last s msg v locked =
    ap contents {x = log_append s msg} {y = append_loop s msg} (ground arith)
    ∙ append_loop-keep_last msg s v
