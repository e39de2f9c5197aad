-- ===== src/Mlme/Join.antt =====
-- Joining a network: the request, authentication, association, and the responses, which
-- src/kext/RTW88MgmtValidation.hpp checks.
use Prim.Native.Nat.{bit_and}
use airport_rtw.Base.{
  ℕ, zero, suc, ◌+◌, Bool, true, false, not, ◌&&◌, ◌||◌, Option, none, some, List, [], ◌∷◌, ◌==◌,
  ltb, leb, if◌then◌else◌, length, take, drop, get_or, is_some,
}
use airport_rtw.Wpa.{Cipher, ccmp, psk, same_bytes, derive_pmk, le16}
use airport_rtw.Mlme.{
  idle, scanning, authenticating, associating, handshaking, connected, is, Bss, hw_setup, send_auth,
  send_assoc, add_sta, bss_assoc, link_status, Engine, Result, success, busy, not_ready,
  bad_argument, not_found, unsupported, emit, ht_allowed, start_tx_aggregation,
}
use airport_rtw.Mlme.Link.{clear_keys, release_sta}
use airport_rtw.Mlme.Scan.{abort_active_scan}

-- What the caller asks for. `ssid` and `password` hold the bytes before the NUL.
pub record Request : Type 0 where
  pub ssid : List ℕ
  pub password : Option (List ℕ)
  pub pmk : Option (List ℕ)
  pub bssid : Option (List ℕ)
  pub external : Bool

abbrev pub wanted : Option (List ℕ) → List ℕ → Bool
wanted none b = true
wanted (some w) b = same_bytes b w

unfoldable pub find_bss : Request → List Bss → Option Bss
find_bss r [] = none
find_bss r (b ∷ bs) =
    let rest = find_bss r bs in
    if same_bytes b.ssid r.ssid && wanted r.bssid b.bssid then some b else rest

abbrev pub protected : Bss → Bool
protected b = not (bit_and b.capabilities 0x10 == 0)

abbrev pub is_supported : Request → Bss → Bool
is_supported r b =
    not (protected b && (not (b.cipher == ccmp) || not (b.akm == psk)))
    && (not (is_some r.pmk && not (protected b))
        && not
            (not r.external && (not (is_some r.pmk) && (not (is_some r.password) && protected b))))

abbrev pub or_bytes : Option (List ℕ) → List ℕ → List ℕ
or_bytes none old = old
or_bytes (some new) old = new

-- `cmdConnect` from the target on.
abbrev pub join : Request → Bss → Engine → Result × Engine
join r b e =
    let e1 = record e { target = b } in
    if is_supported r b
    then (
      success,
      record e1 {
        external = r.external;
        pmk_provided = is_some r.pmk;
        pmk = or_bytes r.pmk e.pmk;
        password = take 63 (or_bytes r.password []);
        wpa2 = b.cipher == ccmp;
        deauth_reason = 0;
        cancelled = false;
        state = authenticating;
        connect_call = true;
      },
    )
    else (unsupported, e1)

abbrev pub found_or_not : Request → Option Bss → Engine → Result × Engine
found_or_not r none e = (not_found, e)
found_or_not r (some b) e = join r b e

-- `cmdConnect` behind its tests.
abbrev pub begun : Request → Engine → Result × Engine
begun r e = let e1 = release_sta (clear_keys e) in found_or_not r (find_bss r e1.bss_list) e1

-- `cmdConnect`
unfoldable pub cmd_connect : (ends : ℕ → Option Bool) → Request → Engine → Result × Engine
unfolding abort_active_scan find_bss
cmd_connect ends r e =
    let (stopped, e1) = if is e.state scanning then abort_active_scan ends e else (true, e) in
    if not stopped
    then (busy, e1)
    else if not (is e1.state idle)
    then (busy, e1)
    else if length r.ssid == 0 || ltb 32 (length r.ssid)
    then (bad_argument, e1)
    else if not e1.powered
    then (not_ready, e1)
    else begun r e1

-- The 100 rounds in which `doAuthenticate` waits for the chip's scan to end: `cancels i` and
-- `busy i` are what round `i` reads. False where it is cancelled on the way.
unfoldable pub wait_clear : (more : ℕ) → (cancels scans : ℕ → Bool) → (i : ℕ) → Bool
wait_clear zero cancels scans i = true
wait_clear (suc more) cancels scans i = elim (cancels i) [
  | true ↦ false
  | false ↦ elim (scans i) [ false ↦ true | true ↦ wait_clear more cancels scans (i + 1) ]
]

-- `doAuthenticate`, run by the queued call: readings 100 and later are those behind the wait.
unfoldable pub do_authenticate : (cancels scans : ℕ → Bool) → Engine → Engine
unfolding wait_clear
do_authenticate cancels scans e =
    let e1 = record e { connect_call = false } in
    if e.cancelled || (not e.powered || not e.attached)
    then e1
    else if not (wait_clear 100 cancels scans 0)
    then e1
    else if (cancels 100 || scans 100) || cancels 101
    then e1
    else let e2 = emit hw_setup e1 in
      if cancels 102 || cancels 103
      then e2
      else let e3 = emit send_auth e2 in
        if cancels 104 || not (is e3.state authenticating) then e3 else record e3 { timer = true }

-- `doAssociate`: whether the request could be built, whether it was sent, and whether the
-- authentication is cancelled by then.
unfoldable pub do_associate : (built sent cancels : Bool) → Engine → Engine
do_associate built sent cancels e =
    if not e.attached || (e.cancelled || not built)
    then e
    else let e1 = emit send_assoc (record e { state = associating }) in
      if not sent
      then record e1 { state = idle }
      else if (cancels || e1.cancelled) || not (is e1.state associating)
      then e1
      else record e1 { timer = true }

-- `rtw88ResponsePeer`
abbrev pub response_peer : (f mac bssid : List ℕ) → Bool
response_peer f mac bssid =
    not (ltb (length f) 30)
    && (same_bytes (take 6 (drop 4 f)) mac
        && (same_bytes (take 6 (drop 10 f)) bssid && same_bytes (take 6 (drop 16 f)) bssid))

-- `rtw88AuthResponse`: the status.
unfoldable pub auth_response : (f mac bssid : List ℕ) → Option ℕ
auth_response f mac bssid =
    if (response_peer f mac bssid && (bit_and (get_or f 0 0) 0xfc == 0xb0))
      && (same_bytes (take 4 (drop 24 f)) (0 ∷ 0 ∷ 2 ∷ 0 ∷ []))
    then some (le16 (drop 28 f))
    else none

-- `rtw88AssocResponse`: the status and the association identifier.
unfoldable pub assoc_response : (f mac bssid : List ℕ) → Option (ℕ × ℕ)
assoc_response f mac bssid =
    let kind = bit_and (get_or f 0 0) 0xfc in
    let status = le16 (drop 26 f) in
    let aid = bit_and (le16 (drop 28 f)) 0x3fff in
    if not (response_peer f mac bssid) || (not (kind == 0x10) && not (kind == 0x30))
    then none
    else if not (status == 0) || (leb 1 aid && leb aid 2007)
    then some (status, aid)
    else none

-- The station entry of `processAssocResponse`: `granted` is the allocation, `ht` says whether the
-- band has HT.
abbrev pub enter_sta : (granted ht : Bool) → Engine → Engine
enter_sta granted ht e =
    if e.sta
    then e
    else if granted
    then emit add_sta (record e { sta = true; sta_ht = ht && ht_allowed e.target })
    else e

-- `processAssocResponse` with an accepted response.
abbrev pub associated : Cipher → (granted ht : Bool) → (aid : ℕ) → Engine → Engine
associated c granted ht aid e =
    let e1 = emit (bss_assoc true aid) (enter_sta granted ht (record e { aid = aid })) in
    if e1.wpa2 && not e1.external
    then record e1 {
      state = handshaking;
      pmk = if e1.pmk_provided then e1.pmk else derive_pmk c e1.password e1.target.ssid;
      timer = true;
    }
    else let e2 = emit (link_status true) (record e1 { state = connected }) in
      let e3 = if e2.wpa2 then e2 else start_tx_aggregation e2 in record e3 { timer = false }

abbrev pub answered : Cipher → (granted ht : Bool) → Option (ℕ × ℕ) → Engine → Engine
answered c granted ht none e = e
answered c granted ht (some (status, aid)) e =
    if e.cancelled
    then e
    else if not (status == 0)
    then record e { state = idle }
    else associated c granted ht aid e

-- `processAssocResponse`
unfoldable pub process_assoc_response :
    Cipher → (granted ht : Bool) → (f : List ℕ) → Engine → Engine
unfolding assoc_response
process_assoc_response c granted ht f e =
    answered c granted ht (assoc_response f e.mac e.target.bssid) e
