-- ===== src/Mlme/Tests.antt =====
-- The theorems on the station, in a run that joins a network with WPA2.
use airport_rtw.Base.{
  ℕ, Bool, true, false, Option, none, some, length, List, [], ◌∷◌, ◌++◌, ◌≡◌, ◌≢◌, refl, replicate,
  take, drop, arith,
}
use airport_rtw.Wpa.{Cipher, ccmp, psk, before, derive_ptk, eapol_mic_ok}
use airport_rtw.Mlme.{
  idle, authenticating, handshaking, connected, disconnecting, is, Bss, Key, Engine,
}
use airport_rtw.Mlme.Link.{cmd_disconnect, do_disconnect}
use airport_rtw.Mlme.Join.{
  Request, find_bss, cmd_connect, auth_response, assoc_response, do_associate,
  process_assoc_response,
}
use airport_rtw.Mlme.Handshake.{EapolHw, handle_m1, handle_m3, handle_eapol, install_keys}
use airport_rtw.Mlme.Rx.{MgmtHw, process_auth, process_rx_mgmt, rx_eapol}
use airport_rtw.Mlme.Step.{connect, mgmt_frame, eapol_frame, Reach, started, next}
use airport_rtw.Mlme.Guard.{IsProven, rx_eapol-IsProven}
use airport_rtw.Mlme.Valid.{told_key}
use airport_rtw.Mlme.Safety.{connected-keyed, unlinked-keyless, scans-from_idle}

abbrev flat : Cipher
flat = record { hmac_sha1 = λ key text. replicate 20 99; aes128_decrypt_block = λ key block. block }

abbrev pub our_mac : List ℕ
our_mac = 2 ∷ 0 ∷ 0 ∷ 0 ∷ 0 ∷ 1 ∷ []

abbrev pub their_mac : List ℕ
their_mac = 2 ∷ 0 ∷ 0 ∷ 0 ∷ 0 ∷ 2 ∷ []

abbrev pub home : Bss
home = record {
  ssid = 104 ∷ 105 ∷ [];
  bssid = their_mac;
  channel = 6;
  capabilities = 0x11;
  cipher = ccmp;
  group_cipher = ccmp;
  akm = psk;
  last_seen = 1;
}

abbrev nowhere : Bss
nowhere = record {
  ssid = [];
  bssid = replicate 6 0;
  channel = 0;
  capabilities = 0;
  cipher = 0;
  group_cipher = 0;
  akm = 0;
  last_seen = 0;
}

abbrev pub at_start : Engine
at_start = record {
  attached = true;
  powered = true;
  state = idle;
  cancelled = true;
  scan_return = idle;
  external = false;
  wpa2 = false;
  pmk_provided = false;
  sta = false;
  sta_ht = false;
  tx_ba = false;
  timer = false;
  connect_call = false;
  manual_call = false;
  has_request = false;
  manual_abort = false;
  on_home_channel = false;
  manual_channels = [];
  ptk_conf = none;
  gtk_conf = none;
  mac = our_mac;
  password = [];
  pmk = replicate 32 0;
  ptk = replicate 64 0;
  anonce = replicate 32 0;
  snonce = replicate 32 0;
  replay = replicate 8 0;
  target = nowhere;
  awdl_mode = false;
  awdl_channel = 0;
  bss_list = home ∷ [];
  generation = 1;
  aid = 0;
  deauth_reason = 0;
  windows = λ tid. none;
  trace = [];
}

abbrev request : Request
request = record {
  ssid = 104 ∷ 105 ∷ [];
  password = none;
  pmk = some (replicate 32 7);
  bssid = none;
  external = false;
}

abbrev never : ℕ → Option Bool
never i = none

abbrev mgmt_hw : MgmtHw
mgmt_hw = record {
  built = true;
  sent = true;
  cancels = false;
  granted = true;
  ht = true;
  window = true;
}

abbrev eapol_hw : EapolHw
eapol_hw = record {
  random = replicate 32 4;
  granted = true;
  sends = false;
  pairwise = record { granted = true; accepted = true };
  group = record { granted = true; accepted = true };
}

abbrev mgmt_header : ℕ → List ℕ
mgmt_header kind = kind ∷ 0 ∷ 0 ∷ 0 ∷ (our_mac ++ (their_mac ++ (their_mac ++ (0 ∷ 0 ∷ []))))

abbrev auth_frame : List ℕ
auth_frame = mgmt_header 0xb0 ++ (0 ∷ 0 ∷ 2 ∷ 0 ∷ 0 ∷ 0 ∷ [])

abbrev assoc_frame : List ℕ
assoc_frame = mgmt_header 0x10 ++ (0x11 ∷ 0 ∷ 0 ∷ 0 ∷ 1 ∷ 0xc0 ∷ [])

abbrev eapol : ℕ → ℕ → List ℕ
eapol info_high info_low =
    2
    ∷ 3
    ∷ 0
    ∷ 95
    ∷ 2
    ∷ info_high
    ∷ info_low
    ∷ (replicate 74 0 ++ (replicate 16 99 ++ (0 ∷ 0 ∷ [])))

abbrev asked : Engine
asked = (cmd_connect never request at_start).1

abbrev admitted : Engine
admitted = process_rx_mgmt flat mgmt_hw auth_frame asked

abbrev shaking : Engine
shaking = process_rx_mgmt flat mgmt_hw assoc_frame admitted

abbrev greeted : Engine
greeted = rx_eapol flat eapol_hw (eapol 0x00 0x8a) shaking

abbrev joined : Engine
joined = rx_eapol flat eapol_hw (eapol 0x01 0xca) greeted

shaking-Reach : Reach flat shaking
shaking-Reach =
    next admitted shaking
      (next asked admitted
        (next at_start asked (started at_start (refl, refl, refl, refl, refl))
          (connect never request at_start))
        (mgmt_frame mgmt_hw auth_frame asked))
      (mgmt_frame mgmt_hw assoc_frame admitted)

joined-Reach : Reach flat joined
joined-Reach =
    next greeted joined
      (next shaking greeted shaking-Reach (eapol_frame eapol_hw (eapol 0x00 0x8a) shaking))
      (eapol_frame eapol_hw (eapol 0x01 0xca) greeted)

shaking-handshaking :
    (shaking.state ≡ handshaking) × (shaking.wpa2 ≡ true) × (shaking.external ≡ false)
unfolding cmd_connect find_bss process_rx_mgmt process_auth auth_response do_associate
    process_assoc_response assoc_response
shaking-handshaking = (refl, refl, refl)

joined-connected : (joined.state ≡ connected) × (joined.wpa2 ≡ true) × (joined.external ≡ false)
unfolding cmd_connect find_bss process_rx_mgmt process_auth auth_response do_associate
    process_assoc_response assoc_response rx_eapol handle_eapol handle_m1 handle_m3 install_keys
    eapol_mic_ok derive_ptk before
joined-connected = (refl, refl, refl)

connected-keyed_example :
    (key : Key) × (joined.ptk_conf ≡ some key)
    × (key.cipher ≡ ccmp)
    × (key.key ≡ take 16 (drop 32 joined.ptk))
    × (told_key joined.trace ≡ some key)
connected-keyed_example =
    connected-keyed flat joined joined-Reach joined-connected.0 joined-connected.1
      joined-connected.2

start-Reach : Reach flat at_start
start-Reach = started at_start (refl, refl, refl, refl, refl)

asked-authenticating : asked.state ≡ authenticating
unfolding cmd_connect find_bss
asked-authenticating = refl

asked-Reach : Reach flat asked
asked-Reach = next at_start asked start-Reach (connect never request at_start)

unlinked-keyless_example : (asked.ptk_conf ≡ none) × (asked.gtk_conf ≡ none)
unlinked-keyless_example =
    unlinked-keyless flat asked asked-Reach (λ e. absurd (ground (arith, e, asked-authenticating)))
      (λ e. absurd (ground (arith, e, asked-authenticating)))

scans-from_idle_example : (joined.scan_return ≡ idle) × (joined.state ≢ disconnecting)
scans-from_idle_example = scans-from_idle flat joined joined-Reach

abbrev left : Engine
left = (cmd_disconnect joined).1

left-cancelled : left.cancelled ≡ true
unfolding cmd_connect find_bss process_rx_mgmt process_auth auth_response do_associate
    process_assoc_response assoc_response rx_eapol handle_eapol handle_m1 handle_m3 install_keys
    eapol_mic_ok derive_ptk before cmd_disconnect do_disconnect
left-cancelled = refl

greeted-handshaking : greeted.state ≡ handshaking
unfolding cmd_connect find_bss process_rx_mgmt process_auth auth_response do_associate
    process_assoc_response assoc_response rx_eapol handle_eapol handle_m1 before
greeted-handshaking = refl

rx_eapol-IsProven_example :
    (is greeted.state handshaking ≡ true)
    × (greeted.external ≡ false)
    × IsProven flat eapol_hw (eapol 0x01 0xca) greeted
rx_eapol-IsProven_example =
    rx_eapol-IsProven flat eapol_hw (eapol 0x01 0xca) greeted
      (λ e. absurd (ground (arith, e, greeted-handshaking))) joined-connected.0

-- No message 1 has come, and the pairwise key is the one of zeros that `clearKeys` left.
shaking-unkeyed :
    (shaking.attached ≡ true)
    × (length shaking.ptk ≡ 64)
    × (eapol_mic_ok flat true (take 16 shaking.ptk) (eapol 0x01 0xca) ≡ true)
unfolding cmd_connect find_bss process_rx_mgmt process_auth auth_response do_associate
    process_assoc_response assoc_response eapol_mic_ok
shaking-unkeyed = (refl, refl, refl)
