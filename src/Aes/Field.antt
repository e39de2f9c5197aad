-- ===== src/Aes/Field.antt =====
-- Multiplication of bytes, `aes_mul` of src/kext/RTW88IEEE80211.cpp, distributes over exclusive or.
use Prim.Native.Nat.{bit_and, bit_xor}
use airport_rtw.Base.{
  ℕ, zero, suc, ◌/◌, ◌<◌, ◌≡◌, refl, ap, ap₂, sym, ◌∙◌, Bool, true, false, not, ◌==◌, if◌then◌else◌,
  arith,
}
use airport_rtw.Wpa.Xor.{bit_xor-zero, bit_xor-interchange}
use airport_rtw.Aes.{aes_xtime, mul_from, aes_mul}
use airport_rtw.Aes.Table.{xtime-xor}

pub xtime-lt : (x : ℕ) → aes_xtime x < 256
unfolding aes_xtime
xtime-lt x = omega arith

-- The sum is taken or not, on both sides.
taken :
    (b : Bool) (x x' r r' : ℕ)
    → (if b then bit_xor (bit_xor r r') (bit_xor x x') else bit_xor r r')
      ≡ bit_xor (if b then bit_xor r x else r) (if b then bit_xor r' x' else r')
taken true x x' r r' = bit_xor-interchange r r' x x'
taken false x x' r r' = refl

stops :
    (b : Bool) (r r' s s' t : ℕ)
    → t ≡ bit_xor s s'
    → (if b then bit_xor r r' else t) ≡ bit_xor (if b then r else s) (if b then r' else s')
stops true r r' s s' t e = refl
stops false r r' s s' t e = e

mul_from-xor :
    (fuel x x' y r r' : ℕ)
    → x < 256
    → x' < 256
    → mul_from fuel (bit_xor x x') y (bit_xor r r')
      ≡ bit_xor (mul_from fuel x y r) (mul_from fuel x' y r')
unfolding mul_from
mul_from-xor zero x x' y r r' h h' = refl
mul_from-xor (suc fuel) x x' y r r' h h' =
    let odd = not (bit_and y 1 == 0) in
    stops (y == 0) r r' _ _ _ (
      ap₂ (λ d s. mul_from fuel d (y / 2) s) (xtime-xor x x' h h').0 (taken odd x x' r r')
      ∙ mul_from-xor fuel (aes_xtime x) (aes_xtime x') (y / 2) (if odd then bit_xor r x else r)
          (if odd then bit_xor r' x' else r') (xtime-lt x) (xtime-lt x'))

pub aes_mul-xor :
    (x x' y : ℕ)
    → x < 256
    → x' < 256
    → aes_mul (bit_xor x x') y ≡ bit_xor (aes_mul x y) (aes_mul x' y)
unfolding aes_mul
aes_mul-xor x x' y h h' =
    ap (mul_from 8 (bit_xor x x') y) (sym (bit_xor-zero 0)) ∙ mul_from-xor 8 x x' y 0 0 h h'
