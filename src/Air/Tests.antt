-- ===== src/Air/Tests.antt =====
-- The theorems on the frames of src/kext/RTW88IEEE80211.cpp, at frames of a station with WPA2.
use airport_rtw.Base.{
  ℕ, suc, ◌+◌, ◌*◌, ◌%◌, ◌^◌, ◌≤◌, ◌<◌, ◌≡◌, refl, Bool, true, false, ◌&&◌, none, some, List, [],
  ◌∷◌, arith, length, take, drop, replicate,
}
use airport_rtw.Reorder.{ba_setup}
use airport_rtw.Mlme.{connected, Engine, success, bad_argument, ht_allowed}
use airport_rtw.Mlme.Rx.{handle_back_action}
use airport_rtw.Mlme.Tests.{our_mac, their_mac, home, at_start}
use airport_rtw.Air.Bytes.{ethernet}
use airport_rtw.Air.Send.{Sender, Sent, tx_data_frame}
use airport_rtw.Air.Receive.{de_amsdu, de_amsdu_from, deliver_data_frame}
use airport_rtw.Air.Relay.{forward, received}
use airport_rtw.Air.Route.{infrastructure, ordered, rx_frame}
use airport_rtw.Air.Arrive.{window_route, relayed}
use airport_rtw.Air.Amsdu.{total, de_amsdu_bounds}
use airport_rtw.Air.Aggregate.{Msdu, IsMsdu, aggregate, ethernets, de_amsdu-aggregate}
use airport_rtw.Air.Nonce.{value, numbers, send_all, counting, numbers-counting}
use airport_rtw.Air.Awdl.{AwdlSender, tx_awdl_data_frame, try_deliver_awdl_data_frame, awdl_round}
use airport_rtw.Air.Elements.{element, find_element}
use airport_rtw.Air.Manage.{
  Station, has_external_ie, rsn_element, build_assoc_req, cmd_set_assoc_rsn_ie, copied,
  copy_target_rsn_ie, send_addba_request,
}
use airport_rtw.Air.Assoc.{IsStation, assoc_room, assoc_req_bounds}
use airport_rtw.Air.Offer.{assoc_req_found}
use airport_rtw.Air.Supplicant.{set_rsn_ie}
use airport_rtw.Air.Agree.{answer_to, addba_agreed}

abbrev plenty : ℕ → Bool
plenty n = true

abbrev friend_mac : List ℕ
friend_mac = 2 ∷ 0 ∷ 0 ∷ 0 ∷ 0 ∷ 3 ∷ []

-- A station that sends, with the pairwise key of its network.
abbrev sender : Sender
sender = record {
  attached = true;
  sta = true;
  wpa2 = true;
  tx_ba = true;
  ba_tid = 0;
  target = home;
  mac = friend_mac;
  ptk_conf = some (record { pairwise = true; keyidx = 0; cipher = 4; key = [] });
  pn = 255 ∷ 255 ∷ 0 ∷ 0 ∷ 0 ∷ 0 ∷ [];
  tx_seq = 7;
  data_seq = 65535;
}

-- A station on the same network, with a window for TID 0.
abbrev listener : Engine
listener = record at_start {
  state = connected;
  target = home;
  windows = (ba_setup true 0 41 64 (λ t. none)).1;
}

abbrev payload : List ℕ
payload = 69 ∷ 1 ∷ 2 ∷ []

abbrev packet : List ℕ
packet = ethernet our_mac friend_mac (8 ∷ 0 ∷ []) payload

relayed_example :
    (sent : Sent) × ((tx_data_frame true sender packet).0 ≡ some sent)
    × (rx_frame plenty listener (forward 42 sent.frame)
        ≡ infrastructure (window_route (ht_allowed home) 0 42 listener.windows))
    × (deliver_data_frame plenty false (forward 42 sent.frame)
        ≡ received false our_mac friend_mac 8 0 payload)
relayed_example =
    relayed plenty false 8 0 payload (omega arith) (omega arith) refl sender listener 42 refl refl
      refl refl refl (omega arith) refl refl

-- The window is active, and takes the frame.
frame-ordered : window_route (ht_allowed home) 0 42 listener.windows ≡ ordered 0 42
unfolding ba_setup
frame-ordered = refl

numbers-counting_example :
    numbers (send_all sender (packet ∷ [] ∷ packet ∷ []))
    ≡ counting
        (value sender.pn + 1)
        (length (numbers (send_all sender (packet ∷ [] ∷ packet ∷ []))))
unfolding value
numbers-counting_example =
    numbers-counting (packet ∷ [] ∷ packet ∷ []) sender
      (record { mac_six = refl; bssid_six = refl; pn_six = refl; pn_bytes = omega arith })
      (omega arith)

abbrev greeting : Msdu
greeting = record { da = our_mac; sa = their_mac; high = 8; low = 0; payload = payload }

abbrev greetings : List Msdu
greetings = greeting ∷ greeting ∷ greeting ∷ []

greeting-IsMsdu : IsMsdu greeting
greeting-IsMsdu = record {
  da_six = refl;
  sa_six = refl;
  high_byte = omega arith;
  low_byte = omega arith;
  fits_word = omega arith;
}

de_amsdu-aggregate_example : de_amsdu plenty (aggregate greetings) ≡ ethernets greetings
de_amsdu-aggregate_example =
    de_amsdu-aggregate plenty (λ n. refl) greetings
      (greeting-IsMsdu, (greeting-IsMsdu, (greeting-IsMsdu, tt)))

-- A payload that ends within a subframe.
de_amsdu_bounds_example :
    (fs : List (List ℕ)) × (de_amsdu_from plenty
        (suc (length (take 40 (aggregate greetings))))
        (take 40 (aggregate greetings))
      ≡ some fs)
    × (de_amsdu plenty (take 40 (aggregate greetings)) ≡ fs)
    × (total fs + 8 * length fs ≤ length (take 40 (aggregate greetings)))
de_amsdu_bounds_example = de_amsdu_bounds plenty (take 40 (aggregate greetings))

awdl_round_example :
    let s : AwdlSender = record { attached = true; tx_seq = 4095; awdl_seq = 65535 } in
    (f : List ℕ) × ((tx_awdl_data_frame true s packet).0 ≡ some f)
    × (try_deliver_awdl_data_frame plenty f ≡ some (packet ∷ []))
    × ((tx_awdl_data_frame true s packet).1.tx_seq ≡ (4095 + 1) % 2 ^ 16)
    × ((tx_awdl_data_frame true s packet).1.awdl_seq ≡ (65535 + 1) % 2 ^ 16)
awdl_round_example =
    awdl_round plenty 8 0 payload (omega arith) (omega arith) refl
      (record { attached = true; tx_seq = 4095; awdl_seq = 65535 }) our_mac friend_mac refl refl
      refl (omega arith)

-- A station whose supplicant is external and has given an element of 210 bytes.
abbrev long_ie : List ℕ
long_ie = 48 ∷ 208 ∷ replicate 208 7

abbrev ready : Station
ready = record {
  mac = our_mac;
  target = home;
  tx_seq = 9;
  data_seq = 100;
  wpa2 = true;
  external = true;
  assoc_rsn_ie = [];
  conn_chan_width = 20;
  ht = some (record {
    cap = 0x107e;
    ampdu_factor = 3;
    ampdu_density = 5;
    rx_mask = replicate 10 255;
    rx_highest = 300;
    tx_params = 1;
  });
  vht = none;
  ba_buf_size = 64;
  ba_dialog = 255;
}

ready-IsStation : IsStation ready
ready-IsStation = record {
  mac_six = refl;
  bssid_six = refl;
  ssid_short = omega arith;
  mask_ten = refl;
}

-- The same station with the element set: the request is beyond its room.
abbrev given_ie : Station
given_ie = record ready { assoc_rsn_ie = long_ie }

given_ie-IsStation : IsStation given_ie
given_ie-IsStation = record {
  mac_six = refl;
  bssid_six = refl;
  ssid_short = omega arith;
  mask_ten = refl;
}

assoc_req_bounds_example :
    ((true && has_external_ie given_ie) ≡ false → length (build_assoc_req given_ie) ≤ 145)
    × (true ≡ true
        → has_external_ie given_ie ≡ true
        → 208 ≤ 210
        → assoc_room < length (build_assoc_req given_ie))
assoc_req_bounds_example = assoc_req_bounds given_ie given_ie-IsStation

assoc_req_found_example :
    (find_element 0 (drop 28 (build_assoc_req ready)) ≡ some (element 0 home.ssid))
    × (find_element 48 (drop 28 (build_assoc_req ready)) ≡ some (rsn_element ready))
assoc_req_found_example = assoc_req_found ready ready-IsStation

set_rsn_ie_example :
    let (answer, s') = cmd_set_assoc_rsn_ie long_ie ready in
    (answer ≡ success
      → (copy_target_rsn_ie 257 s' [] ≡ copied long_ie)
        × (true ≡ true
            → true ≡ true
            → find_element 48 (drop 28 (build_assoc_req s')) ≡ some long_ie))
    × (answer ≡ bad_argument → s' ≡ ready)
set_rsn_ie_example = set_rsn_ie long_ie [] ready ready-IsStation

set-accepted : (cmd_set_assoc_rsn_ie long_ie ready).0 ≡ success
unfolding cmd_set_assoc_rsn_ie
set-accepted = refl

addba_agreed_example :
    let request = drop 24 (send_addba_request 0 ready).0 in
    ((handle_back_action true request at_start).windows
      ≡ (ba_setup true 0 100 64 at_start.windows).1)
    × (handle_back_action true (drop 24 (answer_to request ready)) listener
        ≡ record listener { tx_ba = true })
addba_agreed_example =
    addba_agreed true true ready ready listener at_start ready-IsStation ready-IsStation
