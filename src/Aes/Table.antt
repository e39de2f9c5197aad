-- ===== src/Aes/Table.antt =====
-- What the tables of src/kext/RTW88IEEE80211.cpp say of every byte, by evaluation.
use Prim.Native.Nat.{bit_xor}
use airport_rtw.Base.{
  ℕ, get_or, ◌<◌, ◌≡◌, refl, Bool, true, ◌&&◌, ◌==◌, ==_iff, ltb, lt-of_ltb, arith,
}
use airport_rtw.Bits.Table.{holds_from, table_entry}
use airport_rtw.Aes.{sbox_at, rsbox_at, aes_xtime, rcon}
use airport_rtw.Aes.Fips.{times_x, fips_sbox, round_constant}

both : (a b : Bool) → (a && b) ≡ true → (a ≡ true) × (b ≡ true)
both a b h = ground arith

abbrev undone : ℕ → Bool
undone x = (rsbox_at (fips_sbox x) == x) && ltb (fips_sbox x) 256

undone_table : holds_from undone 0 255 ≡ true
unfolding holds_from fips_sbox
undone_table = refl

-- The program's S-box is the one of FIPS 197.
abbrev same_box : ℕ → Bool
same_box x = sbox_at x == fips_sbox x

same_box_table : holds_from same_box 0 255 ≡ true
unfolding holds_from fips_sbox
same_box_table = refl

pub sbox-fips : (x : ℕ) → x < 256 → sbox_at x ≡ fips_sbox x
sbox-fips x h =
    (==_iff _ _).0 (table_entry same_box 0 255 x same_box_table (omega arith) (omega arith))

abbrev same_constant : ℕ → Bool
same_constant r = get_or rcon r 0 == round_constant r

same_constant_table : holds_from same_constant 0 9 ≡ true
unfolding holds_from round_constant
same_constant_table = refl

pub rcon-fips : (r : ℕ) → r < 10 → get_or rcon r 0 ≡ round_constant r
rcon-fips r h =
    (==_iff _ _).0 (table_entry same_constant 0 9 r same_constant_table (omega arith) (omega arith))

abbrev doubled : ℕ → Bool
doubled x = (times_x x == aes_xtime x) && ltb (times_x x) 256

doubled_table : holds_from doubled 0 255 ≡ true
unfolding holds_from times_x aes_xtime
doubled_table = refl

pub times_x-lt : (x : ℕ) → x < 256 → times_x x < 256
times_x-lt x h =
    let e = both _ _ (table_entry doubled 0 255 x doubled_table (omega arith) (omega arith)) in
    lt-of_ltb _ _ e.1

-- The reverse table undoes the S-box.
pub rsbox-sbox : (x : ℕ) → x < 256 → (rsbox_at (fips_sbox x) ≡ x) × (fips_sbox x < 256)
rsbox-sbox x h =
    let e = both _ _ (table_entry undone 0 255 x undone_table (omega arith) (omega arith)) in
    ((==_iff _ _).0 e.0, lt-of_ltb _ _ e.1)

-- Both of the sum of two bytes.
abbrev additive : ℕ → ℕ → Bool
additive a b =
    (aes_xtime (bit_xor a b) == bit_xor (aes_xtime a) (aes_xtime b)) && ltb (bit_xor a b) 256

additive_row : ℕ → Bool
unfolding holds_from
additive_row a = holds_from (additive a) 0 255

additive_table : holds_from additive_row 0 255 ≡ true
unfolding holds_from additive_row aes_xtime
additive_table = refl

pub xtime-xor :
    (a b : ℕ)
    → a < 256
    → b < 256
    → (aes_xtime (bit_xor a b) ≡ bit_xor (aes_xtime a) (aes_xtime b)) × (bit_xor a b < 256)
unfolding additive_row
xtime-xor a b h g =
    let r = table_entry additive_row 0 255 a additive_table (omega arith) (omega arith) in
    let e = both _ _ (table_entry (additive a) 0 255 b r (omega arith) (omega arith)) in
    ((==_iff _ _).0 e.0, lt-of_ltb _ _ e.1)
