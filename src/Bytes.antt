-- ===== src/Bytes.antt =====
-- Words in memory, of src/compat/asm/unaligned.h, and Ethernet addresses, of
-- src/compat/linux/etherdevice.h. A pointer is the list of bytes that it points to; the machine is
-- little-endian.
pub mod RoundTrip
use Prim.Native.Nat.{bit_and, bit_or}
use airport_rtw.Base.{
  ℕ, ◌+◌, ◌*◌, ◌/◌, ◌%◌, ◌^◌, Bool, true, false, not, ◌&&◌, List, [], ◌∷◌, ◌++◌, ◌==◌,
  if◌then◌else◌, get_or, drop,
}

unfoldable pub get_unaligned_le16 : List ℕ → ℕ
get_unaligned_le16 p = get_or p 0 0 + get_or p 1 0 * 2 ^ 8

unfoldable pub get_unaligned_le32 : List ℕ → ℕ
get_unaligned_le32 p =
    get_or p 0 0 + get_or p 1 0 * 2 ^ 8 + get_or p 2 0 * 2 ^ 16 + get_or p 3 0 * 2 ^ 24

unfoldable pub get_unaligned_be16 : List ℕ → ℕ
get_unaligned_be16 p = get_or p 0 0 * 2 ^ 8 + get_or p 1 0

unfoldable pub get_unaligned_be32 : List ℕ → ℕ
get_unaligned_be32 p =
    get_or p 0 0 * 2 ^ 24 + get_or p 1 0 * 2 ^ 16 + get_or p 2 0 * 2 ^ 8 + get_or p 3 0

-- Writing puts bytes in front of those that stay.
unfoldable pub put_unaligned_le16 : (val : ℕ) → List ℕ → List ℕ
put_unaligned_le16 val p = val % 256 ∷ val / 2 ^ 8 % 256 ∷ drop 2 p

unfoldable pub put_unaligned_le32 : (val : ℕ) → List ℕ → List ℕ
put_unaligned_le32 val p =
    val % 256 ∷ val / 2 ^ 8 % 256 ∷ val / 2 ^ 16 % 256 ∷ val / 2 ^ 24 % 256 ∷ drop 4 p

unfoldable pub put_unaligned_be16 : (val : ℕ) → List ℕ → List ℕ
put_unaligned_be16 val p = val / 2 ^ 8 % 256 ∷ val % 256 ∷ drop 2 p

unfoldable pub put_unaligned_be32 : (val : ℕ) → List ℕ → List ℕ
put_unaligned_be32 val p =
    val / 2 ^ 24 % 256 ∷ val / 2 ^ 16 % 256 ∷ val / 2 ^ 8 % 256 ∷ val % 256 ∷ drop 4 p

-- `eth_broadcast_addr` and `eth_zero_addr`
abbrev pub broadcast_addr : List ℕ
broadcast_addr = 0xff ∷ 0xff ∷ 0xff ∷ 0xff ∷ 0xff ∷ 0xff ∷ []

abbrev pub zero_addr : List ℕ
zero_addr = 0 ∷ 0 ∷ 0 ∷ 0 ∷ 0 ∷ 0 ∷ []

-- All six bytes, folded as the tests fold them.
abbrev pub fold6 : (ℕ → ℕ → ℕ) → List ℕ → ℕ
fold6 f p =
    f (f (f (f (f (get_or p 0 0) (get_or p 1 0)) (get_or p 2 0)) (get_or p 3 0)) (get_or p 4 0))
      (get_or p 5 0)

unfoldable pub is_broadcast_ether_addr : List ℕ → Bool
is_broadcast_ether_addr p = fold6 bit_and p == 0xff

unfoldable pub is_multicast_ether_addr : List ℕ → Bool
is_multicast_ether_addr p = not (bit_and 0x01 (get_or p 0 0) == 0)

unfoldable pub is_unicast_ether_addr : List ℕ → Bool
unfolding is_multicast_ether_addr
is_unicast_ether_addr p = not (is_multicast_ether_addr p)

unfoldable pub is_zero_ether_addr : List ℕ → Bool
is_zero_ether_addr p = fold6 bit_or p == 0

unfoldable pub is_valid_ether_addr : List ℕ → Bool
unfolding is_multicast_ether_addr is_zero_ether_addr
is_valid_ether_addr p = not (is_multicast_ether_addr p) && not (is_zero_ether_addr p)

abbrev pub marked : List ℕ → List ℕ
marked [] = []
marked (b ∷ p) = bit_or (bit_and b 0xfe) 0x02 ∷ p

-- `eth_random_addr`, with the bytes that `read_random` gives.
unfoldable pub random_addr : (random : List ℕ) → List ℕ
random_addr random = marked random
