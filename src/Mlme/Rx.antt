-- ===== src/Mlme/Rx.antt =====
-- Received management frames, EAPOL frames, and the timer.
use Prim.Native.Nat.{bit_and}
use airport_rtw.Base.{
  ℕ, ◌-◌, ◌/◌, ◌^◌, Bool, true, false, not, ◌&&◌, ◌||◌, Option, none, some, List, ◌==◌, ltb, leb,
  if◌then◌else◌, length, take, drop, get_or,
}
use airport_rtw.Bytes.{is_broadcast_ether_addr}
use airport_rtw.Reorder.{ba_setup, ba_teardown, ba_teardown_all}
use airport_rtw.Wpa.{Cipher, same_bytes, le16}
use airport_rtw.Mlme.{
  State, idle, scanning, authenticating, associating, handshaking, connected, disconnecting, is,
  cancel_hw_scan, link_status, answer_addba, inject_action, Engine, emit,
}
use airport_rtw.Mlme.Link.{clear_keys, do_disconnect}
use airport_rtw.Mlme.Scan.{restore_connected_channel}
use airport_rtw.Mlme.Join.{auth_response, do_associate, process_assoc_response}
use airport_rtw.Mlme.Handshake.{EapolHw, handle_eapol}

-- What a management frame meets: the association request built and sent, a
-- cancellation after that, memory for the station
-- entry, HT in the band, memory for a reorder window.
pub record MgmtHw : Type 0 where
  pub built : Bool
  pub sent : Bool
  pub cancels : Bool
  pub granted : Bool
  pub ht : Bool
  pub window : Bool

-- `handleBackAction`, with the TID 0 that the station aggregates.
unfoldable pub handle_back_action : (granted : Bool) → (b : List ℕ) → Engine → Engine
unfolding ba_setup ba_teardown
handle_back_action granted b e =
    let kind = get_or b 1 0 in
    let add_tid = bit_and (le16 (drop 3 b) / 2 ^ 2) 0xf in
    let answer_tid = bit_and (le16 (drop 5 b) / 2 ^ 2) 0xf in
    let del = le16 (drop 2 b) in
    let del_tid = bit_and (del / 2 ^ 12) 0xf in
    let initiator = not (bit_and del 2048 == 0) in
    if ltb (length b) 2
    then e
    else if kind == 0
    then (if ltb (length b) 9
        then e
        else emit answer_addba (record e {
          windows =
              (ba_setup granted add_tid (le16 (drop 7 b) / 2 ^ 4)
                (bit_and (le16 (drop 3 b) / 2 ^ 6) 0x3ff) e.windows).1;
        }))
    else if kind == 1
    then (if ltb (length b) 9
        then e
        else if (le16 (drop 3 b) == 0) && (answer_tid == 0)
        then record e { tx_ba = true }
        else e)
    else if kind == 2
    then (if ltb (length b) 6 then e else record e {
      tx_ba = if not initiator && (del_tid == 0) then false else e.tx_ba;
      windows = if initiator then (ba_teardown del_tid e.windows).1 else e.windows;
    })
    else e

-- A disassociation or deauthentication frame, of the access point and for this station.
unfoldable pub is_from_target : (f : List ℕ) → Engine → Bool
unfolding is_broadcast_ether_addr
is_from_target f e =
    (same_bytes (take 6 (drop 16 f)) e.target.bssid
      || same_bytes (take 6 (drop 10 f)) e.target.bssid)
    && (same_bytes (take 6 (drop 4 f)) e.mac || is_broadcast_ether_addr (take 6 (drop 4 f)))

abbrev pub on_link : Engine → Bool
on_link e =
    (is e.state connected || is e.state handshaking)
    || (is e.state scanning && is e.scan_return connected)

unfoldable pub process_deauth : (f : List ℕ) → Engine → Engine
unfolding is_from_target
process_deauth f e =
    if on_link e && is_from_target f e
    then (let reason = if ltb (length f) 26 then 0 else le16 (drop 24 f) in
        let e1 = clear_keys (record e { deauth_reason = reason }) in
        emit (link_status false) (record e1 {
          tx_ba = false;
          windows = (ba_teardown_all e.windows).1;
          state = idle;
          scan_return = idle;
        }))
    else e

abbrev pub authenticated : MgmtHw → Option ℕ → Engine → Engine
authenticated hw none e = e
authenticated hw (some status) e =
    if status == 0
    then do_associate hw.built hw.sent hw.cancels e
    else record e { timer = false; state = idle }

unfoldable pub process_auth : MgmtHw → (f : List ℕ) → Engine → Engine
unfolding auth_response do_associate
process_auth hw f e =
    if is e.state authenticating && not e.cancelled
    then authenticated hw (auth_response f e.mac e.target.bssid) e
    else e

-- An action frame, which the AWDL interface is given too.
unfoldable pub process_action : MgmtHw → (f : List ℕ) → Engine → Engine
unfolding handle_back_action
process_action hw f e =
    let e1 = emit (inject_action f) e in
    if is e1.state connected
      && (leb 2 (length f - 24)
          && ((get_or f 24 0 == 3) && same_bytes (take 6 (drop 16 f)) e1.target.bssid))
    then handle_back_action hw.window (drop 24 f) e1
    else e1

-- `processRxMgmt`. Beacons and probe responses only fill the list of networks, which is not part
-- of this function.
unfoldable pub process_rx_mgmt : Cipher → MgmtHw → (f : List ℕ) → Engine → Engine
unfolding process_auth process_assoc_response process_deauth process_action
process_rx_mgmt c hw f e =
    let subtype = bit_and (get_or f 0 0) 0xf0 in
    if subtype == 0xb0
    then process_auth hw f e
    else if (subtype == 0x10) || (subtype == 0x30)
    then (if is e.state associating then process_assoc_response c hw.granted hw.ht f e else e)
    else if (subtype == 0xa0) || (subtype == 0xc0)
    then process_deauth f e
    else if subtype == 0xd0
    then process_action hw f e
    else e

-- An EAPOL frame, from `deliverDataFrame`: the station reads it while it shakes hands itself.
unfoldable pub rx_eapol : Cipher → EapolHw → (text : List ℕ) → Engine → Engine
unfolding handle_eapol
rx_eapol c hw text e =
    if is e.state handshaking && not e.external then handle_eapol c hw text e else e

-- `onTimer`, by the state. The timer is no longer armed.
abbrev pub timed_out : State → Engine → Engine
timed_out scanning e =
    if not (length e.manual_channels == 0)
    then record e { manual_abort = true }
    else let e1 = if e.attached then emit cancel_hw_scan e else e in
      let e2 = if is e.scan_return connected then restore_connected_channel e1 else e1 in
      record e2 { state = e.scan_return; scan_return = idle }
timed_out authenticating e = if not e.cancelled then record e { connect_call = true } else e
timed_out associating e = record e { state = idle }
timed_out handshaking e = do_disconnect e
timed_out idle e = e
timed_out connected e = e
timed_out disconnecting e = e

unfoldable pub on_timer : Engine → Engine
unfolding do_disconnect
on_timer e = timed_out e.state (record e { timer = false })
