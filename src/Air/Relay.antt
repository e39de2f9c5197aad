-- ===== src/Air/Relay.antt =====
-- What a data frame of src/kext/RTW88IEEE80211.cpp becomes when an access point relays it.
use Prim.Native.Nat.{bit_and}
use airport_rtw.Base.{
  ℕ, ◌+◌, ◌*◌, ◌%◌, ◌≤◌, ◌<◌, ◌≡◌, refl, ◌∙◌, Bool, true, false, ◌&&◌, List, [], ◌∷◌, ◌++◌, ◌==◌,
  if◌then◌else◌, arith, length, get_or, take, drop,
}
use airport_rtw.Bits.Table.{holds_from, table_entry}
use airport_rtw.Wpa.{le16}
use airport_rtw.Frames.Control.{get_hdrlen, is_data_qos, has_protected}
use airport_rtw.Air.Bytes.{Six, six, ethernet, word-be, seq_ctrl}
use airport_rtw.Air.Send.{eth_p_pae, data_frame, ccmp_header, snap_header}
use airport_rtw.Air.Receive.{
  Handed, eapol, frames, deliver_body, deliver_ethernet, deliver_msdu, deliver_data_frame,
}

-- The access point's side, of IEEE 802.11: the frame to another of its stations has the bit FromDS
-- in place of ToDS, its addresses are the destination, the access point and the source, and the
-- access point numbers it.
unfoldable pub forward : (sn : ℕ) → List ℕ → List ℕ
forward sn f =
    get_or f 0 0
    ∷ (bit_and (get_or f 1 0) 0xfc + 2)
    ∷ (take 2 (drop 2 f)
        ++ (take 6 (drop 16 f)
            ++ (take 6 (drop 4 f) ++ (take 6 (drop 10 f) ++ (seq_ctrl sn ++ drop 24 f)))))

-- What the other station hands on.
abbrev pub received : (reads_eapol : Bool) → (da sa : List ℕ) → (high low : ℕ) → List ℕ → Handed
received reads_eapol da sa high low payload =
    if (high * 256 + low == eth_p_pae) && reads_eapol
    then eapol payload
    else frames (ethernet da sa (high ∷ low ∷ []) payload ∷ [])

abbrev no_amsdu : ℕ → Bool
no_amsdu tid = bit_and tid 0x80 == 0

no_amsdu_table : holds_from no_amsdu 0 15 ≡ true
unfolding holds_from
no_amsdu_table = refl

tid-no_amsdu : (tid : ℕ) → no_amsdu (tid % 16) ≡ true
tid-no_amsdu tid = table_entry no_amsdu 0 15 (tid % 16) no_amsdu_table (omega arith) (omega arith)

module _ (given : ℕ → Bool) (reads_eapol : Bool) (high low : ℕ) (payload : List ℕ) (h : high < 256)
    (l : low < 256) (room : given (14 + length payload) ≡ true) where
  deliver-snap :
      (protected : Bool) (da sa : List ℕ)
      → deliver_msdu given reads_eapol protected da sa (snap_header high low ++ payload)
        ≡ received reads_eapol da sa high low payload
  unfolding deliver_msdu deliver_ethernet
  deliver-snap protected da sa = ground (arith, word-be high low h l)

  deliver-ccmp :
      (da sa pn : List ℕ) (keyidx : ℕ)
      → deliver_msdu given reads_eapol true da sa
          (ccmp_header pn keyidx ++ (snap_header high low ++ payload))
        ≡ received reads_eapol da sa high low payload
  unfolding deliver_msdu deliver_ethernet
  deliver-ccmp da sa pn keyidx = ground (arith, word-be high low h l)

  long-body :
      (f : List ℕ)
      → get_hdrlen (le16 f) ≤ length f
      → deliver_data_frame given reads_eapol f ≡ deliver_body given reads_eapol f
  unfolding deliver_data_frame
  long-body f n = ground arith

  -- The headers are taken off.
  strip :
      (qos protected : Bool) (keyidx seq tid sn : ℕ) {bssid mac da : List ℕ} (pn : List ℕ)
      → Six bssid
      → Six mac
      → Six da
      → deliver_data_frame given reads_eapol (
          forward sn (
            data_frame qos protected keyidx seq tid bssid mac pn
              (ethernet da mac (high ∷ low ∷ []) payload)))
        ≡ deliver_msdu given reads_eapol protected da mac
            ((if protected then ccmp_header pn keyidx else []) ++ (snap_header high low ++ payload))
  unfolding deliver_body data_frame forward get_hdrlen is_data_qos has_protected
  strip false false keyidx seq tid sn pn (six _ _ _ _ _ _) (six _ _ _ _ _ _) (six _ _ _ _ _ _) =
      long-body _ (omega arith) ∙ refl
  strip false true keyidx seq tid sn pn (six _ _ _ _ _ _) (six _ _ _ _ _ _) (six _ _ _ _ _ _) =
      long-body _ (omega arith) ∙ refl
  strip true false keyidx seq tid sn pn (six _ _ _ _ _ _) (six _ _ _ _ _ _) (six _ _ _ _ _ _) =
      long-body _ (omega arith) ∙ rw (tid-no_amsdu tid) refl
  strip true true keyidx seq tid sn pn (six _ _ _ _ _ _) (six _ _ _ _ _ _) (six _ _ _ _ _ _) =
      long-body _ (omega arith) ∙ rw (tid-no_amsdu tid) refl

  pub read_back :
      (qos protected : Bool) (keyidx seq tid sn : ℕ) {bssid mac da : List ℕ} (pn : List ℕ)
      → Six bssid
      → Six mac
      → Six da
      → deliver_data_frame given reads_eapol (
          forward sn (
            data_frame qos protected keyidx seq tid bssid mac pn
              (ethernet da mac (high ∷ low ∷ []) payload)))
        ≡ received reads_eapol da mac high low payload
  read_back qos false keyidx seq tid sn {mac} {da} pn b m d =
      strip qos false keyidx seq tid sn pn b m d ∙ deliver-snap false da mac
  read_back qos true keyidx seq tid sn {mac} {da} pn b m d =
      strip qos true keyidx seq tid sn pn b m d ∙ deliver-ccmp da mac pn keyidx
