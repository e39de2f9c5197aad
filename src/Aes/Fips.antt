-- ===== src/Aes/Fips.antt =====
-- FIPS 197 as it is written, apart from the tables of src/kext/RTW88IEEE80211.cpp: the field, the
-- S-box and the key expansion.
use Prim.Native.Nat.{bit_xor}
use airport_rtw.Base.{
  ℕ, zero, suc, ◌+◌, ◌*◌, ◌/◌, ◌%◌, ◌^◌, ◌-◌, List, [], ◌∷◌, ◌++◌, ◌==◌, ltb, if◌then◌else◌, take,
  drop, get_or,
}
use airport_rtw.Wpa.{xor_bytes}

-- Multiplication by x, modulo x⁸ + x⁴ + x³ + x + 1.
unfoldable pub times_x : ℕ → ℕ
times_x a = if ltb a 128 then 2 * a else bit_xor (2 * a) 0x11b

-- The product, digit by digit of the second factor.
unfoldable pub product : (digits : ℕ) → (a b : ℕ) → ℕ
unfolding times_x
product zero a b = 0
product (suc digits) a b =
    let rest = product digits (times_x a) (b / 2) in if b % 2 == 1 then bit_xor a rest else rest

-- The square of the first factor times the second one, so many times.
unfoldable pub raised : (times : ℕ) → (base power : ℕ) → ℕ
unfolding product
raised zero base power = power
raised (suc times) base power = raised times base (product 8 (product 8 power power) base)

-- The inverse is the power 254, and 0 for 0.
unfoldable pub inverse : ℕ → ℕ
unfolding raised product
inverse a = let p = raised 6 a a in product 8 p p

abbrev pub rotated : (k b : ℕ) → ℕ
rotated k b = b * 2 ^ k % 256 + b / 2 ^ (8 - k)

abbrev pub affine : ℕ → ℕ
affine b =
    bit_xor
      (bit_xor (bit_xor (bit_xor (bit_xor b (rotated 1 b)) (rotated 2 b)) (rotated 3 b))
        (rotated 4 b))
      0x63

unfoldable pub fips_sbox : ℕ → ℕ
unfolding inverse
fips_sbox x = affine (inverse x)

-- Rcon, the powers of x.
unfoldable pub round_constant : (round : ℕ) → ℕ
unfolding times_x
round_constant zero = 1
round_constant (suc round) = times_x (round_constant round)

abbrev pub word : (i : ℕ) → List ℕ → List ℕ
word i w = take 4 (drop (4 * i) w)

-- SubWord of RotWord, with a table, and the constant.
abbrev pub turned : (sbox : ℕ → ℕ) → (const : ℕ) → (t : List ℕ) → List ℕ
turned sbox const t =
    bit_xor (sbox (get_or t 1 0)) const
    ∷ sbox (get_or t 2 0)
    ∷ sbox (get_or t 3 0)
    ∷ sbox (get_or t 0 0)
    ∷ []

-- The four words of the next round.
unfoldable pub summed : (t w : List ℕ) → List ℕ
unfolding xor_bytes
summed t w =
    let n0 = xor_bytes (word 0 w) t in
    let n1 = xor_bytes (word 1 w) n0 in
    let n2 = xor_bytes (word 2 w) n1 in let n3 = xor_bytes (word 3 w) n2 in n0 ++ (n1 ++ (n2 ++ n3))

unfoldable pub next_round : (sbox : ℕ → ℕ) → (const : ℕ) → (w : List ℕ) → List ℕ
unfolding summed
next_round sbox const w = summed (turned sbox const (word 3 w)) w

unfoldable pub fips_round_key : (key : List ℕ) → (round : ℕ) → List ℕ
unfolding next_round
fips_round_key key zero = take 16 key
fips_round_key key (suc round) =
    next_round fips_sbox (round_constant round) (fips_round_key key round)
