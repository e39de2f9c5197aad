-- ===== src/Bytes/RoundTrip.antt =====
-- What is written into memory is read back, and the classes of addresses.
use Prim.Native.Nat.{bit_and, bit_or}
use airport_rtw.Base.{ℕ, ◌^◌, ◌<◌, ◌≡◌, refl, Bool, true, not, ◌&&◌, List, ◌∷◌, arith, ◌==◌}
use airport_rtw.Bits.Table.{holds_from, table_entry}
use airport_rtw.Bytes.{
  get_unaligned_le16, get_unaligned_le32, get_unaligned_be16, get_unaligned_be32,
  put_unaligned_le16, put_unaligned_le32, put_unaligned_be16, put_unaligned_be32,
  is_unicast_ether_addr, random_addr,
}

-- Words of 16 and 32 bits come back as they were put, in either byte order.
unaligned_round :
    (w d : ℕ) (p : List ℕ)
    → w < 2 ^ 16
    → d < 2 ^ 32
    → (get_unaligned_le16 (put_unaligned_le16 w p) ≡ w)
      × (get_unaligned_be16 (put_unaligned_be16 w p) ≡ w)
      × (get_unaligned_le32 (put_unaligned_le32 d p) ≡ d)
      × (get_unaligned_be32 (put_unaligned_be32 d p) ≡ d)
unfolding get_unaligned_le16 get_unaligned_be16 get_unaligned_le32 get_unaligned_be32
    put_unaligned_le16 put_unaligned_be16 put_unaligned_le32 put_unaligned_be32
unaligned_round w d p hw hd = (omega arith, omega arith, omega arith, omega arith)

abbrev local : ℕ → Bool
local b = let m = bit_or (bit_and b 0xfe) 0x02 in bit_and 0x01 m == 0 && not (m == 0)

local_table : holds_from local 0 255 ≡ true
unfolding holds_from
local_table = refl

-- The bytes from the random source make a unicast address.
random_addr-unicast :
    (b : ℕ) (p : List ℕ) → b < 256 → is_unicast_ether_addr (random_addr (b ∷ p)) ≡ true
unfolding is_unicast_ether_addr random_addr
random_addr-unicast b p h =
    let e = table_entry local 0 255 b local_table (omega arith) (omega arith) in ground arith
