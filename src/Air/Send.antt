-- ===== src/Air/Send.antt =====
-- `txDataFrame` of src/kext/RTW88IEEE80211.cpp: an Ethernet frame goes to the access point.
use airport_rtw.Base.{
  ℕ, ◌+◌, ◌*◌, ◌%◌, ◌^◌, ◌≤◌, ◌≡◌, arith, Bool, true, not, ◌&&◌, ◌||◌, Option, none, some, List, [],
  ◌∷◌, ◌++◌, ◌==◌, ltb, is_some, if◌then◌else◌, length, get_or, take, drop,
}
use airport_rtw.Mlme.{Bss, Key, ht_allowed}
use airport_rtw.Air.Bytes.{le_word, be16, seq_ctrl}

-- What sending reads and changes. `attached` is the driver with its `tx` operation and the virtual
-- interface; `sta` is the station entry.
pub record Sender : Type 0 where
  pub attached : Bool
  pub sta : Bool
  pub wpa2 : Bool
  pub tx_ba : Bool
  pub ba_tid : ℕ
  pub target : Bss
  pub mac : List ℕ
  pub ptk_conf : Option Key
  pub pn : List ℕ
  pub tx_seq : ℕ
  pub data_seq : ℕ

-- What the driver is given.
pub record Sent : Type 0 where
  pub frame : List ℕ
  pub ampdu : Bool
  pub high_band : Bool
  pub hw_key : Option Key

-- `ETH_P_PAE`
abbrev pub eth_p_pae : ℕ
eth_p_pae = 0x888e

-- The loop over `_ccmpTxPn`: it goes on while a byte wraps.
unfoldable pub count_up : List ℕ → List ℕ
count_up [] = []
count_up (b ∷ pn) =
    let carried = count_up pn in
    if not ((b + 1) % 256 == 0) then (b + 1) % 256 ∷ pn else 0 ∷ carried

-- The frame control field of a data frame to the access point.
abbrev pub data_control : (qos protected : Bool) → ℕ
data_control qos protected =
    0x0008 + 0x0100 + (if qos then 0x0080 else 0) + (if protected then 0x4000 else 0)

abbrev pub ccmp_header : (pn : List ℕ) (keyidx : ℕ) → List ℕ
ccmp_header pn keyidx =
    get_or pn 0 0
    ∷ get_or pn 1 0
    ∷ 0
    ∷ (0x20 + keyidx % 4 * 64)
    ∷ get_or pn 2 0
    ∷ get_or pn 3 0
    ∷ get_or pn 4 0
    ∷ get_or pn 5 0
    ∷ []

abbrev pub snap_header : ℕ → ℕ → List ℕ
snap_header high low = 0xaa ∷ 0xaa ∷ 0x03 ∷ 0 ∷ 0 ∷ 0 ∷ high ∷ low ∷ []

-- The frame: the header of 24 bytes, the QoS field, the CCMP header, the SNAP header and the
-- payload.
unfoldable pub data_frame :
    (qos protected : Bool) → (keyidx : ℕ) → (seq tid : ℕ) → (bssid mac pn m : List ℕ) → List ℕ
data_frame qos protected keyidx seq tid bssid mac pn m =
    le_word (data_control qos protected)
    ++ (0 ∷ 0 ∷ bssid
        ++ (mac
            ++ (take 6 m
                ++ (seq_ctrl seq
                    ++ ((if qos then tid % 16 ∷ 0 ∷ [] else [])
                        ++ ((if protected then ccmp_header pn keyidx else [])
                            ++ (snap_header (get_or m 12 0) (get_or m 13 0) ++ drop 14 m)))))))

abbrev pub keyidx_of : Option Key → ℕ
keyidx_of none = 0
keyidx_of (some k) = k.keyidx

abbrev pub protects : Sender → List ℕ → Bool
protects s m = s.wpa2 && (is_some s.ptk_conf && not (be16 (drop 12 m) == eth_p_pae))

abbrev pub next_pn : Sender → List ℕ → List ℕ
next_pn s m = if protects s m then count_up s.pn else s.pn

-- What the driver is given, and what has changed.
unfoldable pub data_sent : Sender → (m : List ℕ) → Sent
unfolding count_up data_frame
data_sent s m = record {
  frame =
      data_frame (ht_allowed s.target) (protects s m) (keyidx_of s.ptk_conf)
        (if ht_allowed s.target then s.data_seq else s.tx_seq) s.ba_tid s.target.bssid s.mac
        (next_pn s m) m;
  ampdu = ht_allowed s.target && s.tx_ba;
  high_band = ltb 14 s.target.channel;
  hw_key = if protects s m then s.ptk_conf else none;
}

unfoldable pub after_data : Sender → (m : List ℕ) → Sender
unfolding count_up
after_data s m = record s {
  pn = next_pn s m;
  data_seq = if ht_allowed s.target then (s.data_seq + 1) % 2 ^ 16 else s.data_seq;
  tx_seq = if ht_allowed s.target then s.tx_seq else (s.tx_seq + 1) % 2 ^ 16;
}

-- `granted` is the allocator's answer.
unfoldable pub tx_data_frame : (granted : Bool) → Sender → (m : List ℕ) → Option Sent × Sender
unfolding data_sent after_data
tx_data_frame granted s m =
    if not (s.attached && s.sta)
    then (none, s)
    else if ltb (length m) 14 || ltb 2048 (length m)
    then (none, s)
    else if not granted
    then (none, s)
    else (some (data_sent s m), after_data s m)

pub tx_data_frame-accepts :
    (s : Sender) (m : List ℕ)
    → s.attached ≡ true
    → s.sta ≡ true
    → 14 ≤ length m
    → length m ≤ 2048
    → tx_data_frame true s m ≡ (some (data_sent s m), after_data s m)
unfolding tx_data_frame
tx_data_frame-accepts s m a t low high = ground arith
