-- ===== src/Air/Receive.antt =====
-- `deliverDataFrame`, `deliverEthernet` and `deAmsdu` of src/kext/RTW88IEEE80211.cpp: what a data
-- frame hands on.
use Prim.Native.Nat.{bit_and}
use airport_rtw.Base.{
  ℕ, zero, suc, ◌+◌, ◌-◌, ◌*◌, ◌/◌, Bool, not, ◌&&◌, ◌||◌, Option, none, some, List, [], ◌∷◌, ◌++◌,
  ◌==◌, ltb, leb, if◌then◌else◌, length, get_or, take, drop,
}
use airport_rtw.Wpa.{le16}
use airport_rtw.Frames.Control.{get_hdrlen, is_data_qos, has_protected}
use airport_rtw.Air.Bytes.{be_word, be16, addr1, addr3, ethernet}
use airport_rtw.Air.Send.{eth_p_pae}

-- A frame hands on an EAPOL frame to the station itself, or Ethernet frames to the network stack.
pub data Handed : Type 0 where
  eapol : (text : List ℕ) → Handed
  frames : (ethernets : List (List ℕ)) → Handed

abbrev pub is_snap : List ℕ → Bool
is_snap p = (get_or p 0 0 == 0xaa) && ((get_or p 1 0 == 0xaa) && (get_or p 2 0 == 0x03))

-- `deliverEthernet`: `given` says for which sizes the stack has a packet.
unfoldable pub deliver_ethernet :
    (given : ℕ → Bool) → (da sa : List ℕ) → (ethertype : ℕ) → (payload : List ℕ) → List (List ℕ)
deliver_ethernet given da sa ethertype payload =
    if given (14 + length payload) then ethernet da sa (be_word ethertype) payload ∷ [] else []

-- The frame that the first subframe of an A-MSDU carries.
unfoldable pub deliver_subframe : (given : ℕ → Bool) → (sf : List ℕ) → List (List ℕ)
unfolding deliver_ethernet
deliver_subframe given sf =
    let msdu = drop 14 sf in
    let sublen = be16 (drop 12 sf) in
    if is_snap msdu
    then deliver_ethernet given (take 6 sf) (take 6 (drop 6 sf)) (be16 (drop 6 msdu))
        (take (sublen - 8) (drop 8 msdu))
    else []

-- `none` means that the fuel ran out.
abbrev pub after_frames : List (List ℕ) → Option (List (List ℕ)) → Option (List (List ℕ))
after_frames here none = none
after_frames here (some later) = some (here ++ later)

-- The loop of `deAmsdu` over what is left of the payload, from `pos` on.
unfoldable pub de_amsdu_from :
    (given : ℕ → Bool) → (fuel : ℕ) → (left : List ℕ) → Option (List (List ℕ))
unfolding deliver_subframe
de_amsdu_from given zero left = none
de_amsdu_from given (suc fuel) left =
    let sublen = be16 (drop 12 left) in
    let later = de_amsdu_from given fuel (drop ((14 + sublen + 3) / 4 * 4) left) in
    if not (leb 14 (length left))
    then some []
    else if ltb sublen 8 || ltb (length left) (14 + sublen)
    then some []
    else after_frames (deliver_subframe given left) later

abbrev pub or_nothing : Option (List (List ℕ)) → List (List ℕ)
or_nothing none = []
or_nothing (some fs) = fs

-- Every round takes at least 20 bytes, so that the length of the payload is enough fuel.
unfoldable pub de_amsdu : (given : ℕ → Bool) → (payload : List ℕ) → List (List ℕ)
unfolding de_amsdu_from
de_amsdu given payload = or_nothing (de_amsdu_from given (suc (length payload)) payload)

-- A frame with one MSDU, behind the header.
unfoldable pub deliver_msdu :
    (given : ℕ → Bool) → (reads_eapol protected : Bool) → (da sa body : List ℕ) → Handed
unfolding deliver_ethernet
deliver_msdu given reads_eapol protected da sa body =
    let skips =
      (not (is_snap body) && protected) && (leb 16 (length body) && is_snap (drop 8 body)) in
    let llc = if skips then drop 8 body else body in
    let ethertype = if is_snap llc then be16 (drop 6 llc) else 0 in
    if ltb (length body) 8
    then frames []
    else if is_snap llc && ((ethertype == eth_p_pae) && reads_eapol)
    then eapol (drop 8 llc)
    else frames (deliver_ethernet given da sa ethertype (drop 8 llc))

-- A frame that is as long as its header.
unfoldable pub deliver_body : (given : ℕ → Bool) → (reads_eapol : Bool) → (f : List ℕ) → Handed
unfolding de_amsdu deliver_msdu
deliver_body given reads_eapol f =
    let fc = le16 f in
    let hdrlen = get_hdrlen fc in
    let amsdu = is_data_qos fc && not (bit_and (get_or f (hdrlen - 2) 0) 0x80 == 0) in
    let body = drop hdrlen f in
    if amsdu
    then (if has_protected fc
        then (if ltb (length body) 8 then frames [] else frames (de_amsdu given (drop 8 body)))
        else frames (de_amsdu given body))
    else deliver_msdu given reads_eapol (has_protected fc) (addr1 f) (addr3 f) body

-- `reads_eapol` is the state of a handshake that the station leads itself.
unfoldable pub deliver_data_frame :
    (given : ℕ → Bool) → (reads_eapol : Bool) → (f : List ℕ) → Handed
unfolding deliver_body
deliver_data_frame given reads_eapol f =
    if ltb (length f) (get_hdrlen (le16 f)) then frames [] else deliver_body given reads_eapol f
