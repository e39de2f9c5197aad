-- ===== src/Bitmap/Word.antt =====
-- The bits of one word.
use Prim.Native.Nat.{bit_and, bit_and-bitwise}
use native.Mathlib.Nat.{two-pow-succ}
use airport_rtw.Base.{
  ℕ, zero, suc, ◌/◌, ◌%◌, ◌^◌, ◌≤◌, ◌<◌, ◌≡◌, ◌≢◌, refl, ap, ◌∙◌, Bool, true, false, ◌&&◌, arith,
  leb, ltb, ◌==◌, if◌then◌else◌,
}
use airport_rtw.Bits.Laws.{bit_and-halves, bit_and-zero}
use airport_rtw.Bits.Table.{holds_from, table_entry}
use airport_rtw.Bitmap.{ctz, ones_from}

unfoldable pub bit : (k word : ℕ) → Bool
bit zero word = word % 2 == 1
bit (suc k) word = bit k (word / 2)

pub bit-zero : (k : ℕ) → bit k 0 ≡ false
unfolding bit
bit-zero zero = refl
bit-zero (suc k) = bit-zero k

pub bit-bit_and : (k a b : ℕ) → bit k (bit_and a b) ≡ (bit k a && bit k b)
unfolding bit
bit-bit_and zero a b = ground (arith, bit_and-halves a b)
bit-bit_and (suc k) a b =
    ap (bit k) {y = bit_and (a / 2) (b / 2)} (omega (arith, bit_and-halves a b))
    ∙ bit-bit_and k (a / 2) (b / 2)

-- A word that is not 0 has its lowest one at `ctz`.
pub ctz-bit : (n w : ℕ) → w ≢ 0 → w < 2 ^ n → (ctz n w < n) × (bit (ctz n w) w ≡ true)
unfolding ctz bit
ctz-bit zero w ne h = absurd (ne (omega arith))
ctz-bit (suc n) w ne h = ground (arith, two-pow-succ n, ctz-bit n (w / 2))

pub below-ctz : (n w j : ℕ) → j < ctz n w → bit j w ≡ false
unfolding ctz bit
below-ctz zero w j h = absurd (omega arith)
below-ctz (suc n) w zero h = ground arith
below-ctz (suc n) w (suc j) h = ground (arith, below-ctz n (w / 2) j)

pub bit_and-one : (k w : ℕ) → bit_and w (2 ^ k) ≡ (if bit k w then 2 ^ k else 0)
unfolding bit
bit_and-one zero w = ground (arith, bit_and-halves w 1, bit_and-zero (w / 2))
bit_and-one (suc k) w =
    let halved : bit_and (w / 2) (2 ^ suc k / 2) ≡ bit_and (w / 2) (2 ^ k) =
      ap (bit_and (w / 2)) (omega (arith, two-pow-succ k)) in
    ground (arith, two-pow-succ k, bit_and-halves w (2 ^ suc k), halved, bit_and-one k (w / 2))

pub bit_and-in : (steps a b : ℕ) → a ≤ steps → bit_and a b ≤ a
bit_and-in zero a b h =
    let none : bit_and 0 b ≡ 0 = bit_and-bitwise 0 b in
    omega (arith, none, ap (λ k. bit_and k b) {x = a} {y = 0} (omega arith))
bit_and-in (suc steps) a b h =
    omega (arith, bit_and-halves a b, bit_and-in steps (a / 2) (b / 2) (omega arith))

abbrev agree : Bool → (s j : ℕ) → Bool
agree b s j = if b then leb s j else ltb j s

abbrev agrees : (s j : ℕ) → Bool
agrees s j = agree (bit j (ones_from s)) s j

agrees-equal : (b : Bool) (s j : ℕ) → agree b s j ≡ true → b ≡ leb s j
agrees-equal b s j e = ground arith

ones_table : holds_from (λ s. holds_from (agrees s) 0 63) 0 63 ≡ true
unfolding bit holds_from
ones_table = refl

pub bit-ones_from : (s j : ℕ) → s < 64 → j < 64 → bit j (ones_from s) ≡ leb s j
bit-ones_from s j hs hj =
    let row =
      table_entry (λ s. holds_from (agrees s) 0 63) 0 63 s ones_table (omega arith) (omega arith) in
    let entry = table_entry (agrees s) 0 63 j row (omega arith) (omega arith) in
    agrees-equal (bit j (ones_from s)) s j entry
