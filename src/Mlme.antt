-- ===== src/Mlme.antt =====
-- The 802.11 station of src/kext/RTW88IEEE80211.cpp: the state that its handlers share. Each
-- handler is a function of the engine; what it asks of the chip driver, the network stack and the
-- timer is recorded in `trace`, the newest first. What the driver and the allocator answer are
-- arguments.
pub mod Link
pub mod Scan
pub mod Join
pub mod Handshake
pub mod Rx
pub mod Step
pub mod Valid
pub mod Keep
pub mod Safety
pub mod Guard
pub mod Tests
use airport_rtw.Base.{
  ℕ, zero, suc, ◌+◌, ◌%◌, ◌^◌, Bool, true, false, Option, none, some, List, [], ◌∷◌, ◌==◌,
  if◌then◌else◌,
}
use airport_rtw.Reorder.{Windows}
use airport_rtw.Wpa.{tkip}

-- `enum RTW88State`
pub data State : Type 0 where
  idle : State
  scanning : State
  authenticating : State
  associating : State
  handshaking : State
  connected : State
  disconnecting : State

abbrev pub code : State → ℕ
code idle = 0
code scanning = 1
code authenticating = 2
code associating = 3
code handshaking = 4
code connected = 5
code disconnecting = 6

abbrev pub is : State → State → Bool
is a b = code a == code b

-- The fields of `struct RTW88BSS` that the station reads.
pub record Bss : Type 0 where
  pub ssid : List ℕ
  pub bssid : List ℕ
  pub channel : ℕ
  pub capabilities : ℕ
  pub cipher : ℕ
  pub group_cipher : ℕ
  pub akm : ℕ
  pub last_seen : ℕ

-- `struct ieee80211_key_conf`
pub record Key : Type 0 where
  pub pairwise : Bool
  pub keyidx : ℕ
  pub cipher : ℕ
  pub key : List ℕ

-- A channel of the bands that the chip driver registers.
pub record Channel : Type 0 where
  pub number : ℕ
  pub disabled : Bool
  pub passive : Bool

pub data Action : Type 0 where
  hw_start : Action
  hw_stop : Action
  set_filter : Action
  enable_key : Key → Action
  disable_key : Key → Action
  add_sta : Action
  remove_sta : Action
  bss_assoc : (assoc : Bool) → (aid : ℕ) → Action
  link_status : (active : Bool) → Action
  hw_scan : Action
  cancel_hw_scan : Action
  scan_event : (aborted : Bool) → Action
  tune : ℕ → Action
  send_probe : Action
  send_null : (power_save : Bool) → Action
  restore_channel : Action
  hw_setup : Action
  send_auth : Action
  send_assoc : Action
  send_deauth : Action
  send_addba : Action
  answer_addba : Action
  send_eapol : List ℕ → Action
  set_awdl_channel : ℕ → Action
  inject_action : List ℕ → Action

-- The fields of `RTW88IEEE80211` that the handlers keep. `attached` stands for `_hw && _vif`, `sta`
-- for a station entry, `timer` for an armed `_timer`, the two calls for queued thread calls.
pub record Engine : Type 0 where
  pub attached : Bool
  pub powered : Bool
  pub state : State
  pub cancelled : Bool
  pub scan_return : State
  pub external : Bool
  pub wpa2 : Bool
  pub pmk_provided : Bool
  pub sta : Bool
  pub sta_ht : Bool
  pub tx_ba : Bool
  pub timer : Bool
  pub connect_call : Bool
  pub manual_call : Bool
  pub has_request : Bool
  pub manual_abort : Bool
  pub on_home_channel : Bool
  pub manual_channels : List Channel
  pub ptk_conf : Option Key
  pub gtk_conf : Option Key
  pub mac : List ℕ
  pub password : List ℕ
  pub pmk : List ℕ
  pub ptk : List ℕ
  pub anonce : List ℕ
  pub snonce : List ℕ
  pub replay : List ℕ
  pub target : Bss
  pub awdl_mode : Bool
  pub awdl_channel : ℕ
  pub bss_list : List Bss
  pub generation : ℕ
  pub aid : ℕ
  pub deauth_reason : ℕ
  pub windows : Windows
  pub trace : List Action

-- `IOReturn`
pub data Result : Type 0 where
  success : Result
  busy : Result
  not_ready : Result
  bad_argument : Result
  not_found : Result
  unsupported : Result
  no_memory : Result
  error : Result

abbrev pub emit : Action → Engine → Engine
emit a e = record e { trace = a ∷ e.trace }

-- `htAllowed`
abbrev pub ht_allowed : Bss → Bool
ht_allowed b = if b.cipher == tkip then false else if b.group_cipher == tkip then false else true

-- `startTxAggregation`, up to the frame that asks for block acknowledgement.
abbrev pub start_tx_aggregation : Engine → Engine
start_tx_aggregation e =
    if e.tx_ba
    then e
    else if ht_allowed e.target
    then (if e.sta then (if e.sta_ht then emit send_addba e else e) else e)
    else e
