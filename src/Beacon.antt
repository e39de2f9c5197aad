-- ===== src/Beacon.antt =====
-- `processScanResult` of src/kext/RTW88IEEE80211.cpp: what a beacon or a probe response says of a
-- network, and the list of networks, whose length is `_bssCount`. The list is one step under
-- `_bssLock`.
pub mod Parsed
pub mod Listed
mod Tests
use airport_rtw.Base.{
  ℕ, zero, suc, ◌+◌, ◌-◌, ◌*◌, ◌/◌, ◌^◌, Bool, true, false, not, ◌&&◌, ◌||◌, Option, none, some,
  List, [], ◌∷◌, ◌++◌, ◌==◌, ltb, leb, if◌then◌else◌, length, take, drop, get_or,
}
use airport_rtw.Wpa.{le16, same_bytes, rsn_select_ccmp_psk, tkip, psk}

-- `RTW88BSS`, but for the link to the next: the network's name and elements are as long as their
-- length fields say. `rssi` is the bit pattern of the signed number.
pub record Network : Type 0 where
  pub ssid : List ℕ
  pub bssid : List ℕ
  pub rssi : ℕ
  pub freq : ℕ
  pub channel : ℕ
  pub capabilities : ℕ
  pub beacon_interval : ℕ
  pub cipher : ℕ
  pub group_cipher : ℕ
  pub akm : ℕ
  pub last_seen_scan : ℕ
  pub ies : List ℕ

abbrev pub selected_by : Option (ℕ × ℕ) → Network → Network
selected_by none n = n
selected_by (some (pairwise, group)) n = record n {
  cipher = pairwise;
  group_cipher = group;
  akm = psk;
}

abbrev pub is_wpa : List ℕ → Bool
is_wpa p =
    leb 8 (length p)
    && ((get_or p 0 0 == 0x00)
        && ((get_or p 1 0 == 0x50) && ((get_or p 2 0 == 0xf2) && (get_or p 3 0 == 0x01))))

-- What one element says: its number and its body.
unfoldable pub take_element : (id : ℕ) → (p : List ℕ) → Network → Network
unfolding rsn_select_ccmp_psk
take_element id p n =
    if (id == 0) && (ltb 0 (length p) && leb (length p) 32)
    then record n { ssid = p }
    else if (id == 3) && leb 1 (length p)
    then record n { channel = get_or p 0 0 }
    else if (id == 61) && (leb 1 (length p) && (n.channel == 0))
    then record n { channel = get_or p 0 0 }
    else if id == 48
    then selected_by (rsn_select_ccmp_psk p) n
    else if (id == 221) && (is_wpa p && (n.cipher == 0))
    then record n { cipher = tkip; group_cipher = tkip; akm = psk }
    else n

-- The element is kept while the array of 512 bytes has room for it.
abbrev pub keep_element : (raw : List ℕ) → Network → Network
keep_element raw n =
    if ltb (length n.ies + length raw) 512 then record n { ies = n.ies ++ raw } else n

-- The walk over the elements. Each round takes at least two bytes.
unfoldable pub walk : (fuel : ℕ) → (left : List ℕ) → Network → Network
unfolding take_element
walk zero left n = n
walk (suc fuel) left n =
    let len = get_or left 1 0 in
    let read = take_element (get_or left 0 0) (take len (drop 2 left)) n in
    let later = walk fuel (drop (2 + len) left) (keep_element (take (2 + len) left) read) in
    if ltb (length left) 2 then n else if ltb (length left) (2 + len) then n else later

abbrev pub channel_of : (freq : ℕ) → ℕ
channel_of freq =
    if freq == 2484
    then 14
    else if leb 2412 freq && leb freq 2472
    then (freq - 2407) / 5
    else if leb 5000 freq && leb freq 5900
    then (freq - 5000) / 5
    else 0

abbrev pub with_channel : Network → Network
with_channel n =
    if (n.channel == 0) && not (n.freq == 0) then record n { channel = channel_of n.freq } else n

abbrev pub fixed_fields : (f : List ℕ) → Network
fixed_fields f = record {
  ssid = [];
  bssid = take 6 (drop 16 f);
  rssi = 0;
  freq = 0;
  channel = 0;
  capabilities = le16 (drop 34 f);
  beacon_interval = le16 (drop 32 f);
  cipher = 0;
  group_cipher = 0;
  akm = 0;
  last_seen_scan = 0;
  ies = [];
}

-- The frame as a network. `freq` and `rssi` come from the receive status.
unfoldable pub parse : (f : List ℕ) → (rssi freq generation : ℕ) → Network
unfolding walk
parse f rssi freq generation =
    let n = walk (length f) (drop 36 f) (fixed_fields f) in
    with_channel (record n { rssi = rssi; freq = freq; last_seen_scan = generation })

-- The list: an entry with the same address is overwritten where it stands, and else the network
-- goes to the front.
unfoldable pub replaced : Network → List Network → Option (List Network)
replaced n [] = none
replaced n (e ∷ es) =
    let later = replaced n es in
    if same_bytes e.bssid n.bssid
    then some (n ∷ es)
    else elim later [ none ↦ none | some rest ↦ some (e ∷ rest) ]

abbrev pub or_front : Network → List Network → Option (List Network) → List Network
or_front n es none = n ∷ es
or_front n es (some rest) = rest

unfoldable pub add_network : Network → List Network → List Network
unfolding replaced
add_network n es = or_front n es (replaced n es)

-- `processScanResult`. `granted` is the allocator's answer.
unfoldable pub process_scan_result :
    (granted : Bool) → (f : List ℕ) → (rssi freq generation : ℕ) → List Network → List Network
unfolding parse add_network
process_scan_result granted f rssi freq generation es =
    if ltb (length f) 36
    then es
    else if not granted
    then es
    else add_network (parse f rssi freq generation) es
