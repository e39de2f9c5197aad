-- ===== src/Bitmap/Find.antt =====
-- The searches of src/compat/linux/bitops.h.
use Prim.Native.Nat.{bit_and}
use native.Mathlib.Nat.{one-le-pow}
use airport_rtw.Base.{
  ℕ, zero, suc, ◌+◌, ◌-◌, ◌*◌, ◌/◌, ◌%◌, ◌^◌, ◌≤◌, ◌<◌, ◌≡◌, ◌≢◌, refl, inl, inr, ap, ap₂, ◌∙◌,
  Bool, true, false, not, ◌&&◌, arith, leb, ◌==◌, if◌then◌else◌, Bool-cases,
}
use airport_rtw.Bitmap.{
  test_bit, ffs, words_of, capped, scan, find_first_bit, ones_from, find_next_bit,
}
use airport_rtw.Bitmap.Word.{
  bit, bit-zero, bit-bit_and, ctz-bit, below-ctz, bit_and-one, bit_and-in, bit-ones_from,
}

-- Every word has 64 bits.
abbrev pub IsBitmap : (ℕ → ℕ) → Type 0
IsBitmap addr = (i : ℕ) → addr i < 2 ^ 64

-- A bit, by a position that no width bounds.
unfoldable bit_at : (nr : ℕ) → (ℕ → ℕ) → Bool
bit_at nr addr = not (bit_and (addr (nr / 64)) (2 ^ (nr % 64)) == 0)

-- The first set bit from a position on, or `size` if there is none below it.
record IsFirstAt (addr : ℕ → ℕ) (from size r : ℕ) : Type 0 where
  none_before : (j : ℕ) → from ≤ j → j < r → bit_at j addr ≡ false
  set_there : r < size → (bit_at r addr ≡ true) × (from ≤ r)
  in_size : r ≤ size

pow-pos : (k : ℕ) → 2 ^ k ≢ 0
pow-pos k e = omega (arith, one-le-pow k 2 (omega arith))

bit_at-word : (nr : ℕ) (addr : ℕ → ℕ) → bit_at nr addr ≡ bit (nr % 64) (addr (nr / 64))
unfolding bit_at
bit_at-word nr addr = ground (arith, bit_and-one (nr % 64) (addr (nr / 64)), pow-pos (nr % 64))

-- A bit given by its word and its place there.
bit_at-bit : (i k : ℕ) (addr : ℕ → ℕ) → k < 64 → bit_at (i * 64 + k) addr ≡ bit k (addr i)
bit_at-bit i k addr h =
    bit_at-word (i * 64 + k) addr ∙ ap₂ (λ n m. bit n (addr m)) (omega arith) (omega arith)

-- A word whose ones are those of word `i` that stand at `from` or above.
record IsRest (addr : ℕ → ℕ) (i from w : ℕ) : Type 0 where
  here : from / 64 ≡ i
  small : w < 2 ^ 64
  ones : (k : ℕ) → k < 64 → bit k w ≡ (bit k (addr i) && leb (from % 64) k)

rest-clear :
    (addr : ℕ → ℕ) (i from w : ℕ)
    → IsRest addr i from w
    → (j : ℕ) → from ≤ j
    → j / 64 ≡ i
    → bit (j % 64) w ≡ false
    → bit_at j addr ≡ false
rest-clear addr i from w s j low at clear =
    bit_at-word j addr
    ∙ ap (λ n. bit (j % 64) (addr n)) at
    ∙ ground (arith, s.here, s.ones (j % 64) (omega arith))

rest-set :
    (addr : ℕ → ℕ) (i from w c : ℕ)
    → IsRest addr i from w
    → c < 64
    → bit c w ≡ true
    → (bit_at (i * 64 + c) addr ≡ true) × (from ≤ i * 64 + c)
rest-set addr i from w c s h set =
    (bit_at-bit i c addr h ∙ ground (arith, s.ones c h), ground (arith, s.here, s.ones c h))

word-IsFirstAt :
    (addr : ℕ → ℕ) (i from size w : ℕ)
    → IsRest addr i from w
    → w ≢ 0
    → IsFirstAt addr from size (capped (i * 64 + ffs w) size)
word-IsFirstAt addr i from size w s ne =
    let c : ℕ = ffs w in
    let (within, set) = ctz-bit 64 w ne s.small in
    let (found, above) = rest-set addr i from w c s within set in
    record {
      none_before = λ j low under.
          (let at : j / 64 ≡ i = ground (arith, s.here) in
            let below : j % 64 < c = ground (arith, at) in
            rest-clear addr i from w s j low at (below-ctz 64 w (j % 64) below));
      set_there = λ h. ground (arith, found, above);
      in_size = ground arith;
    }

-- Going on with the next word, where the rest of this one is empty.
next-IsFirstAt :
    (addr : ℕ → ℕ) (i from size w r : ℕ)
    → IsRest addr i from w
    → w ≡ 0
    → IsFirstAt addr ((i + 1) * 64) size r
    → IsFirstAt addr from size r
next-IsFirstAt addr i from size w r s none f = record {
  none_before = λ j low under. elim (Bool-cases (j / 64 == i)) [
    | inl at ↦
        rest-clear addr i from w s j low (ground arith) (ap (bit (j % 64)) none ∙ bit-zero (j % 64))
    | inr at ↦ f.none_before j (ground (arith, s.here)) under
  ];
  set_there = λ h. (let (set, above) = f.set_there h in (set, omega (arith, s.here)));
  in_size = f.in_size;
}

step-IsFirstAt :
    (addr : ℕ → ℕ) (i from size w r : ℕ)
    → IsRest addr i from w
    → IsFirstAt addr ((i + 1) * 64) size r
    → IsFirstAt addr from size (if not (w == 0) then capped (i * 64 + ffs w) size else r)
step-IsFirstAt addr i from size w r s f = elim (Bool-cases (w == 0)) [
  | inl e ↦ rw e (next-IsFirstAt addr i from size w r s (ground arith) f)
  | inr e ↦ rw e (word-IsFirstAt addr i from size w s (λ z. ground arith))
]

scan-IsFirstAt :
    (words i : ℕ) (addr : ℕ → ℕ) (size : ℕ)
    → IsBitmap addr
    → size ≤ (i + words) * 64
    → IsFirstAt addr (i * 64) size (scan words i addr size)
unfolding scan
scan-IsFirstAt zero i addr size b h = record {
  none_before = λ j low under. absurd (omega arith);
  set_there = λ h. absurd (omega arith);
  in_size = omega arith;
}
scan-IsFirstAt (suc words) i addr size b h =
    step-IsFirstAt addr i (i * 64) size (addr i) (scan words (i + 1) addr size)
      (record {
        here = omega arith;
        small = b i;
        ones = λ k within. (let low : i * 64 % 64 ≡ 0 = omega arith in ground arith);
      })
      (scan-IsFirstAt words (i + 1) addr size b (omega arith))

mask-IsRest :
    (addr : ℕ → ℕ) (offset : ℕ)
    → IsBitmap addr
    → IsRest addr (offset / 64) offset (bit_and (addr (offset / 64)) (ones_from (offset % 64)))
mask-IsRest addr offset b =
    let w : ℕ = addr (offset / 64) in
    let mask : ℕ = ones_from (offset % 64) in
    record {
      here = refl;
      small = omega (arith, b (offset / 64), bit_and-in w w mask (omega arith));
      ones = λ k within.
          bit-bit_and k w mask
          ∙ ap (λ c. bit k w && c) (bit-ones_from (offset % 64) k (omega arith) within);
    }

guard_passed : (size offset r : ℕ) → offset < size → (if leb size offset then size else r) ≡ r
guard_passed size offset r h = ground arith

guard_held : (size offset r : ℕ) → size ≤ offset → (if leb size offset then size else r) ≡ size
guard_held size offset r h = ground arith

-- The first set bit from a position on, or `size` if there is none below it.
pub record IsFirst (addr : ℕ → ℕ) (from size r : ℕ) : Type 0 where
  pub none_before : (j : ℕ) → from ≤ j → j < r → test_bit j addr ≡ false
  pub set_there : r < size → (test_bit r addr ≡ true) × (from ≤ r)
  pub in_size : r ≤ size

test-bit_at : (nr : ℕ) (addr : ℕ → ℕ) → nr < 2 ^ 32 → test_bit nr addr ≡ bit_at nr addr
unfolding test_bit bit_at
test-bit_at nr addr h =
    ap (λ n. not (bit_and (addr (n / 64)) (2 ^ (n % 64)) == 0)) {x = nr % 2 ^ 32} {y = nr}
      (omega arith)

-- Below 2 ^ 32 every position can be asked for.
asked :
    (addr : ℕ → ℕ) (from size r : ℕ)
    → size ≤ 2 ^ 32
    → IsFirstAt addr from size r
    → IsFirst addr from size r
asked addr from size r h f = record {
  none_before = λ j low under.
      (let small : j < 2 ^ 32 = omega (arith, f.in_size) in
        test-bit_at j addr small ∙ f.none_before j low under);
  set_there = λ under.
      (let small : r < 2 ^ 32 = omega arith in
        let (set, above) = f.set_there under in (test-bit_at r addr small ∙ set, above));
  in_size = f.in_size;
}

-- A bit that `test_bit` reads, as a digit of its word.
pub test-bit :
    (nr : ℕ) (addr : ℕ → ℕ) → nr < 2 ^ 32 → test_bit nr addr ≡ bit (nr % 64) (addr (nr / 64))
test-bit nr addr h = test-bit_at nr addr h ∙ bit_at-word nr addr

-- In a map of 64-bit words of at most 2 ^ 32 bits, which is as far as the `unsigned int` of
-- `test_bit` reaches, `find_next_bit` with an offset below `size`, and `find_first_bit` from 0 on,
-- return the position of the first set bit below `size`, or `size` if there is none: no bit from
-- the offset to there is set, by `test_bit`, and the bit there is. An offset of `size` or more
-- gives `size`.
pub find_bits :
    (addr : ℕ → ℕ) (size offset : ℕ)
    → IsBitmap addr
    → size ≤ 2 ^ 32
    → IsFirst addr 0 size (find_first_bit addr size)
      × (offset < size → IsFirst addr offset size (find_next_bit addr size offset))
      × (size ≤ offset → find_next_bit addr size offset ≡ size)
unfolding find_first_bit find_next_bit
find_bits addr size offset b h = (
  asked addr 0 size _ h (scan-IsFirstAt (words_of size) 0 addr size b (omega arith)),
  λ under. rw (guard_passed size offset _ under) (
      asked addr offset size _ h (
        step-IsFirstAt addr (offset / 64) offset size _ _ (mask-IsRest addr offset b) (
          scan-IsFirstAt (words_of size - (offset / 64 + 1)) (offset / 64 + 1) addr size b
            (omega arith)))),
  λ over. guard_held size offset _ over,
)
