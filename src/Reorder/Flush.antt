-- ===== src/Reorder/Flush.antt =====
-- What `rxReorderFlushStale` of src/kext/RTW88IEEE80211.cpp takes out of the windows.
use airport_rtw.Base.{
  ℕ, zero, suc, ◌+◌, ◌-◌, ◌%◌, ◌≤◌, ◌<◌, ◌≡◌, refl, ap, ◌∙◌, inl, inr, Bool, true, false, not, ◌&&◌,
  ◌||◌, Option, none, some, List, [], ◌++◌, arith, ◌==◌, ltb, leb, length, length-append, update,
  Bool-cases, is_some,
}
use airport_rtw.Reorder.{
  Reorder, gap, advance, taken, slide, release, stored_at, slid, input, held, skip, flush_one,
  flush_at, flush_from, flush_stale, Windows,
}
use airport_rtw.Reorder.Slots.{waiting}
use airport_rtw.Reorder.Window.{IsWindow, advance-none}
use airport_rtw.Reorder.Moves.{stay, then_move, Taken, release-Moved, skip-Moved, round}

slide-room :
    (fuel goal nout : ℕ) (r : Reorder) → nout ≤ 64 → nout + length (slide fuel goal nout r).0 ≤ 64
unfolding slide
slide-room zero goal nout r few = omega (arith, few)
slide-room (suc fuel) goal nout r few =
    round (λ l. nout + length l.0 ≤ 64)
      (not (gap goal r.head == 0) && (ltb (gap goal r.head) 2048 && ltb nout 64))
      (r.buf (r.head % 64)) _ _ _ (λ stop. omega (arith, few))
      (λ go hole. slide-room fuel goal nout (advance r) few)
      (λ x go found.
        (let under : nout + 1 ≤ 64 = ground arith in
          omega (arith, slide-room fuel goal (nout + 1) (advance (taken r)) under)))

release-room :
    (fuel nout : ℕ) (r : Reorder) → nout ≤ 64 → nout + length (release fuel nout r).0 ≤ 64
unfolding release
release-room zero nout r few = omega (arith, few)
release-room (suc fuel) nout r few =
    round (λ l. nout + length l.0 ≤ 64) (ltb 0 r.stored && ltb nout 64) (r.buf (r.head % 64)) _ _ _
      (λ stop. omega (arith, few)) (λ go hole. omega (arith, few))
      (λ x go found.
        (let under : nout + 1 ≤ 64 = ground arith in
          omega (arith, release-room fuel (nout + 1) (advance (taken r)) under)))

flush_at-room : (nout : ℕ) (o : Option Reorder) → nout ≤ 64 → nout + length (flush_at nout o).0 ≤ 64
unfolding flush_one
flush_at-room nout none few = omega (arith, few)
flush_at-room nout (some r) few = elim (Bool-cases (not r.active || r.stored == 0)) [
  | inl idle ↦ rw idle (omega (arith, few))
  | inr busy ↦ rw busy (release-room 64 nout (skip 4096 r) few)
]

flush_from-room :
    (more tid nout : ℕ) (w : Windows)
    → nout ≤ 64
    → nout + length (flush_from more tid nout w).0 ≤ 64
unfolding flush_from
flush_from-room zero tid nout w few = omega (arith, few)
flush_from-room (suc more) tid nout w few =
    let (out, r) = flush_at nout (w tid) in
    let under = flush_at-room nout (w tid) few in
    omega (
      arith,
      flush_from-room more (tid + 1) (nout + length out) (update w tid r) under,
      length-append out (flush_from more (tid + 1) (nout + length out) (update w tid r)).0,
    )

fits : (xs ys : List ℕ) → length xs + length ys ≤ 64 → length (xs ++ ys) ≤ 64
fits xs ys h = omega (arith, length-append xs ys)

slid-room : (sn : ℕ) (r : Reorder) → length (slid sn r).0 ≤ 64
slid-room sn r = elim (Bool-cases (leb r.size (gap sn r.head))) [
  | inl beyond ↦
      rw beyond (omega (arith, slide-room 2048 ((sn + 1 + 4096 - r.size) % 4096) 0 r (omega arith)))
  | inr inside ↦ rw inside (omega arith)
]

input-room : (skb sn : ℕ) (r : Reorder) → length (input skb sn r).delivered ≤ 64
unfolding input
input-room skb sn r = elim (Bool-cases (leb 2048 (gap sn r.head))) [
  | inl late ↦ rw late (omega arith)
  | inr fresh ↦ rw fresh (
      let (out, r1) = slid sn r in
      let (freed, r2) = stored_at (r1.buf (sn % 64)) skb sn r1 in
      fits out (release 64 (length out) r2).0 (release-room 64 (length out) r2 (slid-room sn r)))
]

-- The array of 64 frames that each function hands on never overflows, whatever the windows hold.
pub deliver-fits :
    (skb sn : ℕ) (r : Reorder) (w : Windows)
    → (length (input skb sn r).delivered ≤ 64) × (length (flush_stale w).0 ≤ 64)
unfolding flush_stale
deliver-fits skb sn r w =
    (input-room skb sn r, omega (arith, flush_from-room 8 0 0 w (omega arith)))

waiting-next :
    (buf : ℕ → Option ℕ) (n p : ℕ)
    → buf (p % 64) ≡ none
    → waiting buf (suc n) p ≡ waiting buf n (p + 1)
unfolding waiting
waiting-next buf n p e = ap (λ o. held o (waiting buf n (p + 1))) e

-- A round of the loop over the holes, while frames are left.
round_on :
    (P : Reorder → Type 0) (b : Bool) (o : Option ℕ) (stop hole : Reorder)
    → b ≡ true
    → (o ≡ none → P hole)
    → ((x : ℕ) → o ≡ some x → P stop)
    → P (elim b [ false ↦ stop | true ↦ elim o [ none ↦ hole | some x ↦ stop ] ])
round_on P false o stop hole e f g = absurd (ground (arith, e))
round_on P true none stop hole e f g = f refl
round_on P true (some x) stop hole e f g = g x refl

module _ (sn_of : ℕ → ℕ) where
  -- The loop over the holes stops at a frame.
  skip-finds :
      (guard n h : ℕ) (r : Reorder)
      → IsWindow sn_of h r
      → 0 < length (waiting r.buf n h)
      → n ≤ guard
      → 0 < r.stored
      → let s = skip guard r in (0 < s.stored) × (is_some (s.buf (s.head % 64)) ≡ true)
  unfolding skip waiting
  skip-finds guard zero h r w some_left far on = absurd (omega (arith, some_left))
  skip-finds zero (suc n) h r w some_left far on = absurd (omega (arith, far))
  skip-finds (suc guard) (suc n) h r w some_left far on =
      round_on (λ s. (0 < s.stored) × (is_some (s.buf (s.head % 64)) ≡ true)) (ltb 0 r.stored)
        (r.buf (r.head % 64)) r _ (ground arith)
        (λ e.
          (let here : r.buf (h % 64) ≡ none =
              ap r.buf {x = h % 64} {y = r.head % 64} (omega (arith, w.at)) ∙ e in
            skip-finds guard n (h + 1) (advance r) (advance-none sn_of h r w e).0
              (omega (arith, some_left, ap length (waiting-next r.buf n h here))) (omega arith) on))
        (λ x e. (on, ap is_some e))

  release-first :
      (fuel nout : ℕ) (r : Reorder)
      → 0 < r.stored
      → is_some (r.buf (r.head % 64)) ≡ true
      → nout < 64
      → 0 < length (release (suc fuel) nout r).0
  unfolding release
  release-first fuel nout r on there few =
      round (λ l. 0 < length l.0) (ltb 0 r.stored && ltb nout 64) (r.buf (r.head % 64)) _ _ _
        (λ stop. absurd (ground arith)) (λ go hole. absurd (ground (arith, there, hole)))
        (λ x go found. omega arith)

  -- The flush of one window moves it on: what is delivered are the first frames of it, in order,
  -- and the others stay. It delivers at least one if the window is active, holds some, and fewer
  -- than 64 were taken from the windows before.
  pub flush_one-moves :
      (h nout : ℕ) (r : Reorder)
      → IsWindow sn_of h r
      → Taken sn_of h r (flush_one nout r)
        × (r.active ≡ true → 0 < r.stored → nout < 64 → 0 < length (flush_one nout r).0)
  unfolding flush_one Taken
  flush_one-moves h nout r w = elim (Bool-cases (not r.active || r.stored == 0)) [
    | inl idle ↦ rw idle ((h, stay sn_of h r w), λ on busy few. absurd (ground arith))
    | inr busy ↦
        (let on : 0 < r.stored = ground arith in
          let (mid, m) = skip-Moved sn_of 4096 h r w in
          let (to, k) = release-Moved sn_of 64 nout mid (skip 4096 r) m.window in
          let (left, there) =
            skip-finds 4096 64 h r w (omega (arith, w.counted, on)) (omega arith) on in
          rw busy (
            (to, then_move sn_of h r [] mid (skip 4096 r) _ to _ m k),
            λ _ _ few. release-first 63 nout (skip 4096 r) left there few,
          ))
  ]
