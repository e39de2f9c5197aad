-- ===== src/Frames.antt =====
-- The 802.11 frames that src/compat/rtw88_compat.c builds for the firmware: Null Function and
-- PS-Poll.
pub mod Overlay
pub mod Built
pub mod Control
pub mod Channel
mod Tests
use airport_rtw.Base.{
  ℕ, zero, suc, ◌+◌, ◌*◌, ◌/◌, ◌%◌, ◌^◌, Bool, true, false, Option, none, some, List, [], ◌∷◌,
  if◌then◌else◌,
}
use airport_rtw.Skb.{Skb, Blocks, alloc_skb, reserve, put_zero, store, add_ptr}
use Prim.Native.Nat.{bit_or}

-- The six bytes of an address.
pub record Mac : Type 0 where
  pub b0 : ℕ
  pub b1 : ℕ
  pub b2 : ℕ
  pub b3 : ℕ
  pub b4 : ℕ
  pub b5 : ℕ

abbrev pub mac_bytes : Mac → List ℕ
mac_bytes a = a.b0 ∷ a.b1 ∷ a.b2 ∷ a.b3 ∷ a.b4 ∷ a.b5 ∷ []

-- The fields of `struct ieee80211_vif` that are read here.
pub record Vif : Type 0 where
  pub addr : Mac
  pub bssid : Mac
  pub aid : ℕ

-- `memcpy(&p[off], …)` and assignments to consecutive bytes.
abbrev pub poke : (p off : ℕ) → List ℕ → Skb → Skb
poke p off bytes s = record s { mem = store s.mem (p + off) bytes }

abbrev pub headroom_size : ℕ
headroom_size = 64

-- `skb_reserve` and `skb_put_zero`; what follows writes at the old tail.
abbrev pub prepared : Skb → ℕ → Skb
prepared s n = put_zero (reserve s headroom_size) n

abbrev pub frame_start : Skb → ℕ
frame_start s = (reserve s headroom_size).tail

abbrev pub nullfunc_len : Bool → ℕ
nullfunc_len qos_ok = if qos_ok then 26 else 24

abbrev pub nullfunc_fc : Bool → ℕ
nullfunc_fc qos_ok = ((if qos_ok then 0xC else 0x4) * 2 ^ 4 + 2 * 2 ^ 2) % 2 ^ 8

unfoldable pub write_nullfunc : Vif → Bool → Skb → Skb
unfolding reserve put_zero store
write_nullfunc vif qos_ok s =
    let p = frame_start s in
    let s1 = poke p 0 (nullfunc_fc qos_ok ∷ 1 ∷ 0 ∷ 0 ∷ []) (prepared s (nullfunc_len qos_ok)) in
    let s2 = poke p 4 (mac_bytes vif.bssid) s1 in
    let s3 = poke p 10 (mac_bytes vif.addr) s2 in
    let s4 = poke p 16 (mac_bytes vif.bssid) s3 in
    let s5 = poke p 22 (0 ∷ 0 ∷ []) s4 in if qos_ok then poke p 24 (0 ∷ 0 ∷ []) s5 else s5

-- `(u16)(aid | 0xC000)`
abbrev pub pspoll_aid : ℕ → ℕ
pspoll_aid aid = bit_or aid 0xC000 % 2 ^ 16

unfoldable pub write_pspoll : Vif → Skb → Skb
unfolding reserve put_zero store
write_pspoll vif s =
    let p = frame_start s in
    let aid = pspoll_aid vif.aid in
    let s1 = poke p 0 (0xA4 ∷ 0 ∷ aid % 256 ∷ aid / 2 ^ 8 ∷ []) (prepared s 16) in
    let s2 = poke p 4 (mac_bytes vif.bssid) s1 in poke p 10 (mac_bytes vif.addr) s2

abbrev pub with_skb : (Skb → Skb) → Option Skb → Option Skb
with_skb write none = none
with_skb write (some s) = some (write s)

unfoldable pub nullfunc_get : Blocks → Option Vif → (qos_ok : Bool) → Option Skb
unfolding write_nullfunc alloc_skb
nullfunc_get b none qos_ok = none
nullfunc_get b (some vif) qos_ok =
    with_skb (write_nullfunc vif qos_ok) (alloc_skb b (headroom_size + nullfunc_len qos_ok))

unfoldable pub pspoll_get : Blocks → Option Vif → Option Skb
unfolding write_pspoll alloc_skb
pspoll_get b none = none
pspoll_get b (some vif) = with_skb (write_pspoll vif) (alloc_skb b (headroom_size + 16))
