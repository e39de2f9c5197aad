-- ===== src/Bitmap/Tests.antt =====
-- Searches in a map of two words, with the bits 5 and 70 set.
use airport_rtw.Base.{ℕ, ◌<◌, ◌≤◌, ◌≡◌, refl, arith, ◌==◌, if◌then◌else◌}
use airport_rtw.Bitmap.{ctz, scan, find_first_bit, find_next_bit}
use airport_rtw.Bitmap.Find.{IsBitmap, IsFirst, find_bits}

abbrev addr : ℕ → ℕ
addr i = if i == 0 then 32 else if i == 1 then 64 else 0

addr-IsBitmap : IsBitmap addr
addr-IsBitmap i = ground arith

searches :
    (find_first_bit addr 128 ≡ 5)
    × (find_next_bit addr 128 6 ≡ 70)
    × (find_next_bit addr 128 71 ≡ 128)
    × (find_next_bit addr 70 6 ≡ 70)
unfolding find_first_bit find_next_bit scan ctz
searches = (refl, refl, refl, refl)

find_bits_example :
    IsFirst addr 0 128 (find_first_bit addr 128)
    × (6 < 128 → IsFirst addr 6 128 (find_next_bit addr 128 6))
    × (128 ≤ 6 → find_next_bit addr 128 6 ≡ 128)
find_bits_example = find_bits addr 128 6 addr-IsBitmap (omega arith)
