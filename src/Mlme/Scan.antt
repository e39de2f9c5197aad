-- ===== src/Mlme/Scan.antt =====
-- Scanning: the request, the passes of the manual scanner, its end, and the end of a scan that
-- something else wants to stop. Powering off is here since it stops a scan first.
use airport_rtw.Base.{
  ℕ, zero, suc, ◌+◌, ◌-◌, ◌%◌, ◌^◌, Bool, true, false, not, ◌&&◌, ◌||◌, Option, none, some, List,
  [], ◌∷◌, ◌==◌, ltb, if◌then◌else◌, length, take,
}
use airport_rtw.Wpa.{same_bytes}
use airport_rtw.Mlme.{
  State, idle, scanning, authenticating, associating, handshaking, connected, is, Bss, Channel,
  cancel_hw_scan, hw_scan, scan_event, tune, send_probe, send_null, restore_channel,
  set_awdl_channel, link_status, Engine, Result, success, busy, not_ready, no_memory, error, emit,
}
use airport_rtw.Mlme.Link.{clear_keys, release_sta, cancel_authentication, do_disconnect, power_off}

-- `restoreConnectedChannel`
abbrev pub restore_connected_channel : Engine → Engine
restore_connected_channel e =
    if is e.scan_return connected && e.attached then emit restore_channel e else e

-- What `scanDone` keeps of the list: the network that the station is joined to, and those heard in
-- the last three scans.
abbrev pub joined_to : State → Bss → Bss → Bool
joined_to s target b = (is s connected || is s handshaking) && same_bytes b.bssid target.bssid

abbrev pub stale : (generation : ℕ) → Bss → Bool
stale generation b = ltb 3 ((generation + 2 ^ 32 - b.last_seen) % 2 ^ 32)

unfoldable pub aged : State → (target : Bss) → (generation : ℕ) → List Bss → List Bss
aged s target generation [] = []
aged s target generation (b ∷ bs) =
    let rest = aged s target generation bs in
    if not (joined_to s target b) && stale generation b then rest else b ∷ rest

-- The end of a scan, in `scanDone`, `abortActiveScan` and `onTimer`.
abbrev pub leave_scan : Engine → Engine
leave_scan e =
    let e1 = if is e.scan_return connected then restore_connected_channel e else e in
    record e1 { state = e.scan_return; scan_return = idle; on_home_channel = false }

-- An idle radio goes back to the channel of AWDL.
abbrev pub back_to_awdl : State → Engine → Engine
back_to_awdl from e =
    if is from idle && (e.awdl_mode && not (e.awdl_channel == 0))
    then emit (set_awdl_channel e.awdl_channel) e
    else e

-- `scanDone`
unfoldable pub scan_done : (aborted : Bool) → Engine → Engine
unfolding aged
scan_done aborted e =
    let effective = if is e.state scanning then e.scan_return else e.state in
    let e1 =
      if aborted
      then e
      else record e { bss_list = aged effective e.target e.generation e.bss_list } in
    let e2 = if is e1.state scanning then back_to_awdl e1.scan_return (leave_scan e1) else e1 in
    emit (scan_event aborted) e2

-- The 40 rounds of waiting in `abortActiveScan`; in round `i` the scan ends as `ends i` says.
unfoldable pub wait_scan : (more : ℕ) → (ends : ℕ → Option Bool) → Engine → Engine
unfolding scan_done
wait_scan zero ends e = e
wait_scan (suc more) ends e = elim (is e.state scanning) [
  | false ↦ e
  | true ↦ elim (ends more) [
    | none ↦ wait_scan more ends e
    | some aborted ↦ wait_scan more ends (scan_done aborted e)
  ]
]

-- The scan is told to stop.
abbrev pub asked : Engine → Engine
asked e =
    if not (length e.manual_channels == 0)
    then record e { manual_abort = true }
    else if e.attached
    then emit cancel_hw_scan e
    else e

-- `abortActiveScan(true)`
unfoldable pub abort_active_scan : (ends : ℕ → Option Bool) → Engine → Bool × Engine
unfolding wait_scan
abort_active_scan ends e =
    if not (is e.state scanning)
    then (true, e)
    else let e2 = wait_scan 40 ends (asked e) in
      if is e2.state scanning
      then (if not (length e2.manual_channels == 0)
          then (false, e2)
          else let e3 = record (leave_scan e2) { manual_channels = [] } in
            (not (is e3.state scanning), e3))
      else (true, e2)

-- The enabled channels, at most 256.
abbrev pub enabled : List Channel → List Channel
enabled [] = []
enabled (c ∷ cs) = if c.disabled then enabled cs else c ∷ enabled cs

-- What a scan meets: memory for the request, the channels of the bands, whether the firmware scans
-- and what it answers, and whether the thread call of the manual scanner is there.
pub record ScanHw : Type 0 where
  pub granted : Bool
  pub channels : List Channel
  pub offload : Bool
  pub accepted : Bool
  pub manual : Bool

abbrev pub seen_in_first : List Bss → List Bss
seen_in_first [] = []
seen_in_first (b ∷ bs) = record b { last_seen = 1 } ∷ seen_in_first bs

abbrev pub next_generation : Engine → Engine
next_generation e =
    let g = (e.generation + 1) % 2 ^ 32 in
    if g == 0
    then record e { generation = 1; bss_list = seen_in_first e.bss_list }
    else record e { generation = g }

abbrev pub start_manual : List Channel → Engine → Engine
start_manual channels e = record e {
  manual_channels = channels;
  manual_abort = false;
  on_home_channel = false;
  manual_call = true;
  timer = true;
}

-- `cmdScan`
unfoldable pub cmd_scan : ScanHw → Engine → Result × Engine
cmd_scan h e =
    if not (is e.state idle)
    then (busy, e)
    else if not e.powered || not e.attached
    then (not_ready, e)
    else let from = e.state in
      let e1 = next_generation e in
      let e2 = record e1 {
        scan_return = if is from connected then from else idle;
        state = scanning;
      } in
      let back = record e2 { state = from; scan_return = idle } in
      if not e.has_request && not h.granted
      then (no_memory, back)
      else let channels = take 256 (enabled h.channels) in
        let e3 = record e2 { has_request = true } in
        let given_up = record back { has_request = true } in
        if length channels == 0
        then (not_ready, given_up)
        else if not h.offload
        then (if h.manual then (success, start_manual channels e3) else (not_ready, given_up))
        else if h.accepted
        then (success, record (emit hw_scan e3) { timer = true })
        else if h.manual
        then (success, start_manual channels (emit hw_scan e3))
        else (error, emit hw_scan given_up)

-- The passes of `runManualScan` over the channels. It reads `_manualScanAbort` before each pass
-- and before it goes back to the home channel; `stops i` is the reading `i`.
abbrev pub visit : (on_link stop_home : Bool) → Channel → Engine → Engine
visit on_link stop_home c e =
    let off = record e { on_home_channel = false } in
    let away = if on_link then emit (send_null true) (restore_connected_channel off) else off in
    let tuned = emit (tune c.number) away in
    let probed = if c.passive then tuned else emit send_probe tuned in
    if on_link && not stop_home
    then record (emit (send_null false) (restore_connected_channel probed)) {
      on_home_channel = true;
    }
    else probed

unfoldable pub sweep :
    (stops : ℕ → Bool) → (i : ℕ) → (on_link : Bool) → List Channel → Engine → Engine
sweep stops i on_link [] e = e
sweep stops i on_link (c ∷ cs) e = elim (stops i) [
  | true ↦ e
  | false ↦ sweep stops (i + 2) on_link cs (visit on_link (stops (i + 1)) c e)
]

-- All passes, and the return to the home channel behind them.
abbrev pub swept : (stops : ℕ → Bool) → Engine → Engine
swept stops e =
    let on_link = is e.scan_return connected in
    let e1 = record (sweep stops 0 on_link (take 256 e.manual_channels) e) {
      on_home_channel = false;
    } in
    if on_link then emit (send_null false) (restore_connected_channel e1) else e1

-- `runManualScan`, with what it reads in `_manualScanAbort` at the end.
unfoldable pub run_manual_scan : (stops : ℕ → Bool) → (aborted : Bool) → Engine → Engine
unfolding sweep scan_done
run_manual_scan stops aborted e =
    if not e.attached
    then record (scan_done true e) { manual_channels = []; manual_call = false }
    else record (scan_done aborted (swept stops e)) {
      manual_abort = false;
      manual_channels = [];
      manual_call = false;
    }

-- `cmdPowerOff` once no scan is on.
abbrev pub switched_off : Engine → Engine
switched_off e =
    let linked =
      (is e.state connected || is e.state authenticating)
      || (is e.state associating || is e.state handshaking) in
    let e1 = if linked then do_disconnect e else release_sta (clear_keys e) in
    emit (link_status false) (record (power_off e1) { state = idle; scan_return = idle })

-- `cmdPowerOff`
unfoldable pub cmd_power_off : (ends : ℕ → Option Bool) → Engine → Result × Engine
unfolding abort_active_scan do_disconnect power_off
cmd_power_off ends e =
    let e1 = cancel_authentication e in
    let (stopped, e2) = if is e1.state scanning then abort_active_scan ends e1 else (true, e1) in
    if not stopped then (busy, e2) else (success, switched_off e2)
