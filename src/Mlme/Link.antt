-- ===== src/Mlme/Link.antt =====
-- Keys, the station entry, disconnecting and power.
use airport_rtw.Base.{
  ℕ, Bool, true, false, not, ◌&&◌, ◌||◌, Option, none, some, List, [], ◌==◌, ltb, if◌then◌else◌,
  length, replicate,
}
use airport_rtw.Reorder.{ba_teardown_all}
use airport_rtw.Wpa.{ccmp, tkip}
use airport_rtw.Mlme.{
  idle, connected, disconnecting, is, Key, hw_start, hw_stop, set_filter, enable_key, disable_key,
  remove_sta, bss_assoc, link_status, send_deauth, Engine, Result, success, not_ready, bad_argument,
  unsupported, error, emit,
}

abbrev pub disable : Option Key → Engine → Engine
disable none e = e
disable (some k) e = emit (disable_key k) e

-- `clearKeys`
abbrev pub clear_keys : Engine → Engine
clear_keys e =
    let told = if e.powered && e.attached then disable e.gtk_conf (disable e.ptk_conf e) else e in
    record told {
      ptk_conf = none;
      gtk_conf = none;
      pmk = replicate 32 0;
      password = [];
      pmk_provided = false;
      ptk = replicate 64 0;
    }

-- `releaseSta`: the frames that wait in the reorder windows are freed with it.
abbrev pub release_sta : Engine → Engine
release_sta e =
    if e.sta
    then (let told = if e.attached then emit remove_sta e else e in
        record told { sta = false; tx_ba = false; windows = (ba_teardown_all e.windows).1 })
    else e

-- What the allocator and the chip driver answer when a key is installed.
pub record KeyHw : Type 0 where
  pub granted : Bool
  pub accepted : Bool

abbrev pub slot : (pairwise : Bool) → Engine → Option Key
slot true e = e.ptk_conf
slot false e = e.gtk_conf

abbrev pub with_slot : (pairwise : Bool) → Option Key → Engine → Engine
with_slot true k e = record e { ptk_conf = k }
with_slot false k e = record e { gtk_conf = k }

-- The tests that `installKey` makes of the cipher and the key's length.
abbrev pub key_fits : (cipher len : ℕ) → Bool
key_fits cipher len =
    (not (len == 0) && not (ltb 32 len))
    && (((cipher == ccmp) && (len == 16)) || ((cipher == tkip) && (len == 32)))

abbrev pub removed : (pairwise : Bool) → Option Key → Engine → Engine
removed pairwise none e = e
removed pairwise (some k) e = with_slot pairwise none (emit (disable_key k) e)

-- `installKey`: whether it did, and the engine after it.
abbrev pub install_key :
    KeyHw → (pairwise : Bool) → (keyidx cipher : ℕ) → (tk : List ℕ) → Engine → Bool × Engine
install_key hw pairwise keyidx cipher tk e =
    if not e.attached || not (key_fits cipher (length tk))
    then (false, e)
    else let e1 = removed pairwise (slot pairwise e) e in
      let k : Key = record { pairwise = pairwise; keyidx = keyidx; cipher = cipher; key = tk } in
      if not hw.granted
      then (false, e1)
      else if not hw.accepted
      then (false, emit (enable_key k) e1)
      else (true, with_slot pairwise (some k) (emit (enable_key k) e1))

-- `cmdInstallExternalKey`
unfoldable pub cmd_install_external_key :
    KeyHw → (pairwise : Bool) → (keyidx cipher : ℕ) → (key : List ℕ) → Engine → Result × Engine
cmd_install_external_key hw pairwise keyidx cipher key e =
    if not e.external || (not e.wpa2 || not (is e.state connected))
    then (not_ready, e)
    else if length key == 0
    then (bad_argument, e)
    else if pairwise && not e.sta
    then (not_ready, e)
    else let (ok, e1) = install_key hw pairwise keyidx cipher key e in
      (if ok then success else unsupported, e1)

-- `cancelAuthentication`, which drains the queued call.
abbrev pub cancel_authentication : Engine → Engine
cancel_authentication e = record e { cancelled = true; timer = false; connect_call = false }

-- `doDisconnect`
unfoldable pub do_disconnect : Engine → Engine
do_disconnect e =
    if e.attached
    then (let e1 = emit (bss_assoc false 0) (emit send_deauth (clear_keys e)) in
        let e2 = release_sta e1 in
        emit (link_status false) (record e2 { state = idle; scan_return = idle; timer = false }))
    else record e { state = idle; scan_return = idle }

-- `cmdDisconnect`
unfoldable pub cmd_disconnect : Engine → Result × Engine
unfolding do_disconnect
cmd_disconnect e =
    let e1 = cancel_authentication e in
    if is e1.state idle then (success, e1) else (success, do_disconnect e1)

-- `powerOn`, with what the driver's start and its filter answer, and `powerOff`.
unfoldable pub power_on : (starts : Bool) → Engine → Result × Engine
power_on starts e =
    if e.powered
    then (success, e)
    else if not e.attached
    then (not_ready, e)
    else if starts
    then (success, emit set_filter (emit hw_start (record e { powered = true })))
    else (error, emit hw_start e)

unfoldable pub power_off : Engine → Engine
power_off e = if e.powered then emit hw_stop (record e { powered = false }) else e

abbrev pub is_success : Result → Bool
is_success r = elim r [ success ↦ true | _ ↦ false ]

-- `cmdPowerOn`
unfoldable pub cmd_power_on : (starts : Bool) → Engine → Result × Engine
unfolding power_on
cmd_power_on starts e =
    let (r, e1) = power_on starts e in
    if is_success r && is e1.state disconnecting then (r, record e1 { state = idle }) else (r, e1)
