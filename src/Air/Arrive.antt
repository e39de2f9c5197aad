-- ===== src/Air/Arrive.antt =====
-- How a frame of one station reaches another: `txDataFrame`, the access point, `rxFrame`,
-- `processRxData` and `deliverDataFrame` of src/kext/RTW88IEEE80211.cpp.
use Prim.Native.Nat.{bit_and}
use airport_rtw.Base.{
  ℕ, ◌+◌, ◌-◌, ◌*◌, ◌/◌, ◌%◌, ◌^◌, ◌≤◌, ◌<◌, ◌≡◌, refl, ap, sym, ◌∙◌, Bool, true, false, ◌&&◌,
  Option, none, some, List, [], ◌∷◌, ◌++◌, ltb, ltb-of_le, leb-of_le, if◌then◌else◌, arith, length,
  length-append, get_or, drop,
}
use airport_rtw.Bits.Laws.{bit_and-ones_lem, bit_and-above}
use airport_rtw.Reorder.{Windows, num_tid}
use airport_rtw.Wpa.{le16, same_bytes}
use airport_rtw.Wpa.Unwrap.{same_bytes_refl}
use airport_rtw.Mlme.{Engine, ht_allowed}
use airport_rtw.Mlme.Rx.{on_link}
use airport_rtw.Frames.Control.{is_mgmt, is_data, is_data_qos, has_fromds, get_hdrlen}
use airport_rtw.Air.Bytes.{Six, six, length-Six, ethernet, addr1, addr2}
use airport_rtw.Air.Send.{
  Sender, Sent, data_frame, protects, keyidx_of, next_pn, data_sent, tx_data_frame,
  tx_data_frame-accepts,
}
use airport_rtw.Air.Receive.{deliver_data_frame}
use airport_rtw.Air.Awdl.{try_deliver_awdl_data_frame}
use airport_rtw.Air.Route.{
  Routed, ordered, direct, is_active, route_data, process_rx_data, infrastructure, rx_frame,
}
use airport_rtw.Air.Relay.{forward, received, read_back}

-- Where the address filter lets a frame of the access point through.
abbrev pub window_route : (qos : Bool) (tid sn : ℕ) → Windows → Routed
window_route qos tid sn windows =
    if qos && (ltb (tid % 16) num_tid && is_active (windows (tid % 16)))
    then ordered (tid % 16) (sn % 4096)
    else direct

filtered :
    (e : Engine) (f : List ℕ)
    → on_link e ≡ true
    → has_fromds (le16 f) ≡ true
    → addr1 f ≡ e.mac
    → addr2 f ≡ e.target.bssid
    → process_rx_data e f ≡ route_data e.windows f
unfolding process_rx_data
filtered e f on from us ap_addr =
    let mine : same_bytes (addr1 f) e.mac ≡ true =
      ap (λ (x : List ℕ). same_bytes x e.mac) us ∙ same_bytes_refl e.mac in
    let its : same_bytes (addr2 f) e.target.bssid ≡ true =
      ap (λ (x : List ℕ). same_bytes x e.target.bssid) ap_addr ∙ same_bytes_refl e.target.bssid in
    rw (on, from, mine, its) refl

not_awdl :
    (given : ℕ → Bool) (f : List ℕ)
    → has_fromds (le16 f) ≡ true
    → try_deliver_awdl_data_frame given f ≡ none
unfolding try_deliver_awdl_data_frame
not_awdl given f from = ground arith

data-rx_frame :
    (given : ℕ → Bool) (e : Engine) (f : List ℕ)
    → 24 ≤ length f
    → is_mgmt (le16 f) ≡ false
    → is_data (le16 f) ≡ true
    → has_fromds (le16 f) ≡ true
    → rx_frame given e f ≡ infrastructure (process_rx_data e f)
unfolding rx_frame
data-rx_frame given e f long m d from =
    rw (ltb-of_le (length f) 24 long, m, d, not_awdl given f from) refl

-- The bytes of the QoS field and of the sequence number, read back.
tid_back : (tid : ℕ) → bit_and (tid % 16) 0x0f ≡ tid % 16
tid_back tid = (bit_and-ones_lem (tid % 16)).0 ∙ omega arith

sn_back :
    (sn : ℕ)
    → bit_and (sn % 4096 * 16 % 256 + sn % 4096 * 16 / 256 % 256 * 2 ^ 8) 0xfff0 / 2 ^ 4 ≡ sn % 4096
sn_back sn =
    let whole : sn % 4096 * 16 % 256 + sn % 4096 * 16 / 256 % 256 * 2 ^ 8 ≡ sn % 4096 * 16 =
      omega arith in
    ap (λ x. bit_and x 0xfff0 / 2 ^ 4) whole
    ∙ ap (λ x. x / 2 ^ 4) (bit_and-above (sn % 4096) (omega arith))
    ∙ omega arith

qos-route :
    (windows : Windows) (f : List ℕ) (tid sn : ℕ)
    → get_hdrlen (le16 f) ≤ length f
    → is_data_qos (le16 f) ≡ true
    → bit_and (get_or f (get_hdrlen (le16 f) - 2) 0) 0x0f ≡ tid
    → bit_and (le16 (drop 22 f)) 0xfff0 / 2 ^ 4 ≡ sn
    → route_data windows f
      ≡ (if ltb tid num_tid && is_active (windows tid) then ordered tid sn else direct)
unfolding route_data
qos-route windows f tid sn long q t n =
    rw (q, leb-of_le (length f) (get_hdrlen (le16 f)) long, t, n) refl

plain-route :
    (windows : Windows) (f : List ℕ) → is_data_qos (le16 f) ≡ false → route_data windows f ≡ direct
unfolding route_data
plain-route windows f q = rw q refl

module _ (windows : Windows) (high low : ℕ) (payload : List ℕ) where
  numbered :
      (qos protected : Bool) (keyidx seq tid sn : ℕ) {bssid mac da : List ℕ} (pn : List ℕ)
      → Six bssid
      → Six mac
      → Six da
      → route_data windows (
          forward sn (
            data_frame qos protected keyidx seq tid bssid mac pn
              (ethernet da mac (high ∷ low ∷ []) payload)))
        ≡ window_route qos tid sn windows
  unfolding data_frame forward get_hdrlen is_data_qos
  numbered false false keyidx seq tid sn pn (six _ _ _ _ _ _) (six _ _ _ _ _ _) (six _ _ _ _ _ _) =
      plain-route windows _ refl
  numbered false true keyidx seq tid sn pn (six _ _ _ _ _ _) (six _ _ _ _ _ _) (six _ _ _ _ _ _) =
      plain-route windows _ refl
  numbered true false keyidx seq tid sn pn (six _ _ _ _ _ _) (six _ _ _ _ _ _) (six _ _ _ _ _ _) =
      qos-route windows _ (tid % 16) (sn % 4096) (omega arith) refl (tid_back tid) (sn_back sn)
  numbered true true keyidx seq tid sn pn (six _ _ _ _ _ _) (six _ _ _ _ _ _) (six _ _ _ _ _ _) =
      qos-route windows _ (tid % 16) (sn % 4096) (omega arith) refl (tid_back tid) (sn_back sn)

  pub headed :
      (qos protected : Bool) (keyidx seq tid sn : ℕ) {bssid mac da : List ℕ} (pn : List ℕ)
      → Six bssid
      → Six mac
      → Six da
      → let f = forward sn (
          data_frame qos protected keyidx seq tid bssid mac pn
            (ethernet da mac (high ∷ low ∷ []) payload)) in
        (24 ≤ length f)
        × (is_mgmt (le16 f) ≡ false)
        × (is_data (le16 f) ≡ true)
        × (has_fromds (le16 f) ≡ true)
        × (addr1 f ≡ da)
        × (addr2 f ≡ bssid)
  unfolding data_frame forward is_mgmt is_data has_fromds
  headed false false keyidx seq tid sn pn (six _ _ _ _ _ _) (six _ _ _ _ _ _) (six _ _ _ _ _ _) =
      (omega arith, refl, refl, refl, refl, refl)
  headed false true keyidx seq tid sn pn (six _ _ _ _ _ _) (six _ _ _ _ _ _) (six _ _ _ _ _ _) =
      (omega arith, refl, refl, refl, refl, refl)
  headed true false keyidx seq tid sn pn (six _ _ _ _ _ _) (six _ _ _ _ _ _) (six _ _ _ _ _ _) =
      (omega arith, refl, refl, refl, refl, refl)
  headed true true keyidx seq tid sn pn (six _ _ _ _ _ _) (six _ _ _ _ _ _) (six _ _ _ _ _ _) =
      (omega arith, refl, refl, refl, refl, refl)

module _ (given : ℕ → Bool) (reads_eapol : Bool) (high low : ℕ) (payload : List ℕ) (h : high < 256)
    (l : low < 256) (room : given (14 + length payload) ≡ true) where
  -- An Ethernet frame of one station, of at most 2048 bytes, is sent if the driver, a station
  -- entry and memory are there. The access point relays it under its own sequence number, with or
  -- without QoS and the CCMP header. A station with the destination's address that has a link
  -- to the same access point takes it as an infrastructure frame: with an active window for its
  -- TID it is put into that window under the access point's number, and else handed on at once. What is
  -- handed on is the same Ethernet frame, if the stack has a packet; or the payload, to the
  -- station's own handshake, if it leads one and the frame is an EAPOL frame.
  pub relayed :
      (s : Sender) (e : Engine) (sn : ℕ)
      → s.attached ≡ true
      → s.sta ≡ true
      → length e.mac ≡ 6
      → length s.mac ≡ 6
      → length s.target.bssid ≡ 6
      → length payload ≤ 2034
      → on_link e ≡ true
      → e.target.bssid ≡ s.target.bssid
      → (sent : Sent) × ((tx_data_frame true s (ethernet e.mac s.mac (high ∷ low ∷ []) payload)).0
          ≡ some sent)
        × (rx_frame given e (forward sn sent.frame)
            ≡ infrastructure (window_route (ht_allowed s.target) s.ba_tid sn e.windows))
        × (deliver_data_frame given reads_eapol (forward sn sent.frame)
            ≡ received reads_eapol e.mac s.mac high low payload)
  unfolding data_sent
  relayed s e sn a t d m b small on same =
      let frame : List ℕ = ethernet e.mac s.mac (high ∷ low ∷ []) payload in
      let size : length frame ≡ 14 + length payload = omega (
        arith,
        length-append e.mac (s.mac ++ high ∷ low ∷ payload),
        length-append s.mac (high ∷ low ∷ payload),
      ) in
      let qos = ht_allowed s.target in
      let keyidx = keyidx_of s.ptk_conf in
      let seq = if ht_allowed s.target then s.data_seq else s.tx_seq in
      let six_b = length-Six _ b in
      let six_m = length-Six _ m in
      let six_d = length-Six _ d in
      let (long, mg, dt, from, us, its) =
        headed e.windows high low payload qos (protects s frame) keyidx seq s.ba_tid sn
          (next_pn s frame) six_b six_m six_d in
      (
        data_sent s frame,
        ap (λ (r : Option Sent × Sender). r.0)
            (tx_data_frame-accepts s frame a t (omega arith) (omega arith)),
        data-rx_frame given e (forward sn (data_sent s frame).frame) long mg dt from
            ∙ ap infrastructure (
                filtered e (forward sn (data_sent s frame).frame) on from us (its ∙ sym same)
                ∙ numbered e.windows high low payload qos (protects s frame) keyidx seq s.ba_tid sn
                    (next_pn s frame) six_b six_m six_d),
        read_back given reads_eapol high low payload h l room qos (protects s frame) keyidx seq
            s.ba_tid sn (next_pn s frame) six_b six_m six_d,
      )
