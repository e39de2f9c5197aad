-- ===== src/Air/Route.antt =====
-- `rxFrame` and `processRxData` of src/kext/RTW88IEEE80211.cpp: which way a received frame takes.
use Prim.Native.Nat.{bit_and}
use airport_rtw.Base.{
  ℕ, ◌-◌, ◌/◌, ◌^◌, Bool, false, not, ◌&&◌, ◌||◌, Option, none, some, List, ltb, leb, if◌then◌else◌,
  length, get_or, drop,
}
use airport_rtw.Bytes.{is_broadcast_ether_addr, is_multicast_ether_addr}
use airport_rtw.Reorder.{Reorder, Windows, num_tid}
use airport_rtw.Wpa.{le16, same_bytes}
use airport_rtw.Mlme.{Engine}
use airport_rtw.Mlme.Rx.{on_link}
use airport_rtw.Frames.Control.{is_mgmt, is_data, is_data_qos, has_fromds, get_hdrlen}
use airport_rtw.Air.Bytes.{addr1, addr2}
use airport_rtw.Air.Awdl.{try_deliver_awdl_data_frame}

-- A data frame is freed, or goes to the window of its TID under its sequence number, or is handed
-- on at once.
pub data Routed : Type 0 where
  freed : Routed
  ordered : (tid sn : ℕ) → Routed
  direct : Routed

abbrev pub is_active : Option Reorder → Bool
is_active none = false
is_active (some r) = r.active

abbrev pub to_us : Engine → List ℕ → Bool
to_us e f =
    same_bytes (addr1 f) e.mac
    || (is_broadcast_ether_addr (addr1 f) || is_multicast_ether_addr (addr1 f))

-- The part behind the address filter.
unfoldable pub route_data : Windows → (f : List ℕ) → Routed
route_data windows f =
    let fc = le16 f in
    let hdrlen = get_hdrlen fc in
    let tid = bit_and (get_or f (hdrlen - 2) 0) 0x0f in
    if is_data_qos fc && (leb hdrlen (length f) && (ltb tid num_tid && is_active (windows tid)))
    then ordered tid (bit_and (le16 (drop 22 f)) 0xfff0 / 2 ^ 4)
    else direct

unfoldable pub process_rx_data : Engine → (f : List ℕ) → Routed
unfolding route_data is_broadcast_ether_addr is_multicast_ether_addr
process_rx_data e f =
    if not (on_link e)
    then freed
    else if not (has_fromds (le16 f))
        || (not (to_us e f) || not (same_bytes (addr2 f) e.target.bssid))
    then freed
    else route_data e.windows f

-- What `rxFrame` does with a frame.
pub data Received : Type 0 where
  too_short : Received
  management : Received
  awdl : (ethernets : List (List ℕ)) → Received
  infrastructure : Routed → Received
  ignored : Received

abbrev pub awdl_or : Option (List (List ℕ)) → Routed → Received
awdl_or none r = infrastructure r
awdl_or (some fs) r = awdl fs

unfoldable pub rx_frame : (given : ℕ → Bool) → Engine → (f : List ℕ) → Received
unfolding process_rx_data try_deliver_awdl_data_frame
rx_frame given e f =
    let fc = le16 f in
    if ltb (length f) 24
    then too_short
    else if is_mgmt fc
    then management
    else if is_data fc
    then awdl_or (try_deliver_awdl_data_frame given f) (process_rx_data e f)
    else ignored
