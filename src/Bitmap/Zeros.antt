-- ===== src/Bitmap/Zeros.antt =====
-- The searches for zeros of src/compat/linux/bitops.h.
use Prim.Native.Nat.{bit_and}
use native.Mathlib.Nat.{two-pow-succ}
use airport_rtw.Base.{
  ℕ, zero, suc, ◌+◌, ◌-◌, ◌*◌, ◌/◌, ◌%◌, ◌^◌, ◌≤◌, ◌<◌, ◌≡◌, refl, ap, sym, ◌∙◌, not, arith, leb,
  ◌==◌, if◌then◌else◌,
}
use airport_rtw.Bitmap.{
  test_bit, ffs, words_of, capped, scan, find_first_bit, ones_from, find_next_bit, flip, scan_zero,
  find_first_zero_bit, find_next_zero_bit,
}
use airport_rtw.Bitmap.Word.{bit}
use airport_rtw.Bitmap.Find.{IsBitmap, IsFirst, find_bits, test-bit}

abbrev pub flipped : (ℕ → ℕ) → ℕ → ℕ
flipped addr i = flip (addr i)

scan_zero-flipped :
    (words i : ℕ) (addr : ℕ → ℕ) (size : ℕ)
    → scan_zero words i addr size ≡ scan words i (flipped addr) size
unfolding scan_zero scan
scan_zero-flipped zero i addr size = refl
scan_zero-flipped (suc words) i addr size =
    ap (λ r. if not (flip (addr i) == 0) then capped (i * 64 + ffs (flip (addr i))) size else r)
      (scan_zero-flipped words (i + 1) addr size)

next_zero-flipped :
    (addr : ℕ → ℕ) (size offset : ℕ)
    → find_next_zero_bit addr size offset ≡ find_next_bit (flipped addr) size offset
unfolding find_next_zero_bit find_next_bit
next_zero-flipped addr size offset =
    let idx : ℕ = offset / 64 in
    let mask : ℕ = bit_and (flip (addr idx)) (ones_from (offset % 64)) in
    ap
      (λ r.
        if leb size offset
        then size
        else if not (mask == 0)
        then capped (idx * 64 + ffs mask) size
        else r)
      (scan_zero-flipped (words_of size - (idx + 1)) (idx + 1) addr size)

bit-flip : (n k w : ℕ) → k < n → w < 2 ^ n → bit k (2 ^ n - 1 - w) ≡ not (bit k w)
unfolding bit
bit-flip zero k w h g = absurd (omega arith)
bit-flip (suc n) zero w h g = ground (arith, two-pow-succ n)
bit-flip (suc n) (suc k) w h g =
    ap (bit k) (omega (arith, two-pow-succ n))
    ∙ bit-flip n k (w / 2) (omega arith) (omega (arith, two-pow-succ n))

flipped-IsBitmap : (addr : ℕ → ℕ) → IsBitmap (flipped addr)
flipped-IsBitmap addr i = omega arith

-- In a map of 64-bit words, `find_first_zero_bit` from 0 on, and `find_next_zero_bit` with an
-- offset below `size`, return the position of the first clear bit below `size`, or `size` if there
-- is none: they find the first set bit of the map with every bit turned over. The size is at
-- most 2 ^ 32.
pub find_zero_bits :
    (addr : ℕ → ℕ) (size offset nr : ℕ)
    → IsBitmap addr
    → size ≤ 2 ^ 32
    → nr < 2 ^ 32
    → IsFirst (flipped addr) 0 size (find_first_zero_bit addr size)
      × (offset < size → IsFirst (flipped addr) offset size (find_next_zero_bit addr size offset))
      × (size ≤ offset → find_next_zero_bit addr size offset ≡ size)
      × (test_bit nr (flipped addr) ≡ not (test_bit nr addr))
unfolding find_first_zero_bit find_first_bit
find_zero_bits addr size offset nr b h g =
    let (first, next, over) = find_bits (flipped addr) size offset (flipped-IsBitmap addr) h in
    let same = next_zero-flipped addr size offset in
    (
      rw (scan_zero-flipped (words_of size) 0 addr size) first,
      λ under. rw same (next under),
      λ past. same ∙ over past,
      test-bit nr (flipped addr) g
          ∙ bit-flip 64 (nr % 64) (addr (nr / 64)) (omega arith) (b (nr / 64))
          ∙ ap not (sym (test-bit nr addr g)),
    )
