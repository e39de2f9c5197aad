-- ===== src/Bitmap.antt =====
-- The bit maps of src/compat/linux/bitops.h: words of 64 bits, as a function from an index to a
-- word.
pub mod Word
pub mod Find
pub mod Zeros
mod Tests
use Prim.Native.Nat.{bit_and, bit_or}
use airport_rtw.Base.{
  ℕ, zero, suc, ◌+◌, ◌-◌, ◌*◌, ◌/◌, ◌%◌, ◌^◌, Bool, true, false, not, leb, ltb, ◌==◌, if◌then◌else◌,
}

-- `nr` is an `unsigned int`. `1UL << (nr % BITS_PER_LONG)` is one bit, of a word that is read.
unfoldable pub test_bit : (nr : ℕ) → (ℕ → ℕ) → Bool
test_bit nr addr = let n = nr % 2 ^ 32 in not (bit_and (addr (n / 64)) (2 ^ (n % 64)) == 0)

-- `__builtin_ctzl`: the number of zeros below the lowest one, among as many bits as the first
-- argument says.
unfoldable pub ctz : (bits word : ℕ) → ℕ
ctz zero word = 0
ctz (suc bits) word = let above = ctz bits (word / 2) in if word % 2 == 1 then 0 else suc above

-- `__ffs`
abbrev pub ffs : ℕ → ℕ
ffs x = ctz 64 x

abbrev pub words_of : (size : ℕ) → ℕ
words_of size = (size + 63) % 2 ^ 64 / 64

abbrev pub capped : (bit size : ℕ) → ℕ
capped bit size = if ltb bit size then bit else size

-- The loops over the words from `i` on, of which `words` are left.
unfoldable pub scan : (words i : ℕ) → (ℕ → ℕ) → (size : ℕ) → ℕ
scan zero i addr size = size
scan (suc words) i addr size =
    let rest = scan words (i + 1) addr size in
    if not (addr i == 0) then capped (i * 64 + ffs (addr i)) size else rest

unfoldable pub find_first_bit : (ℕ → ℕ) → (size : ℕ) → ℕ
unfolding scan
find_first_bit addr size = scan (words_of size) 0 addr size

-- `~0UL << start`
abbrev pub ones_from : (start : ℕ) → ℕ
ones_from start = (2 ^ 64 - 1) * 2 ^ start % 2 ^ 64

unfoldable pub find_next_bit : (ℕ → ℕ) → (size offset : ℕ) → ℕ
unfolding scan
find_next_bit addr size offset =
    let idx = offset / 64 in
    let mask = bit_and (addr idx) (ones_from (offset % 64)) in
    if leb size offset
    then size
    else if not (mask == 0)
    then capped (idx * 64 + ffs mask) size
    else scan (words_of size - (idx + 1)) (idx + 1) addr size

-- `~` of a word.
abbrev pub flip : ℕ → ℕ
flip word = 2 ^ 64 - 1 - word

unfoldable pub scan_zero : (words i : ℕ) → (ℕ → ℕ) → (size : ℕ) → ℕ
scan_zero zero i addr size = size
scan_zero (suc words) i addr size =
    let rest = scan_zero words (i + 1) addr size in
    let v = flip (addr i) in if not (v == 0) then capped (i * 64 + ffs v) size else rest

unfoldable pub find_first_zero_bit : (ℕ → ℕ) → (size : ℕ) → ℕ
unfolding scan_zero
find_first_zero_bit addr size = scan_zero (words_of size) 0 addr size

unfoldable pub find_next_zero_bit : (ℕ → ℕ) → (size offset : ℕ) → ℕ
unfolding scan_zero
find_next_zero_bit addr size offset =
    let idx = offset / 64 in
    let mask = bit_and (flip (addr idx)) (ones_from (offset % 64)) in
    if leb size offset
    then size
    else if not (mask == 0)
    then capped (idx * 64 + ffs mask) size
    else scan_zero (words_of size - (idx + 1)) (idx + 1) addr size
