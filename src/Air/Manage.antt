-- ===== src/Air/Manage.antt =====
-- The management frames that src/kext/RTW88IEEE80211.cpp builds: authentication and association
-- requests, block acknowledgement, Null Function frames and probe requests.
use Prim.Native.Nat.{bit_and}
use airport_rtw.Base.{
  ℕ, ◌+◌, ◌*◌, ◌/◌, ◌%◌, ◌^◌, Bool, false, not, ◌&&◌, ◌||◌, Option, none, some, List, [], ◌∷◌, ◌++◌,
  ◌==◌, ltb, leb, if◌then◌else◌, length, get_or, take, replicate,
}
use airport_rtw.Wpa.{le16, build_selected_rsn_ie}
use airport_rtw.Mlme.{Bss, Result, success, bad_argument, ht_allowed}
use airport_rtw.Air.Bytes.{le_word, seq_ctrl}
use airport_rtw.Air.Elements.{element, find_element}

-- The header of 24 bytes.
abbrev pub header : (fc : ℕ) → (addr1 addr2 addr3 : List ℕ) → (seq : ℕ) → List ℕ
header fc addr1 addr2 addr3 seq =
    le_word fc ++ (0 ∷ 0 ∷ addr1 ++ (addr2 ++ (addr3 ++ seq_ctrl seq)))

-- The element of HT capabilities: `ieee80211_sta_ht_cap` of the band.
pub record HtCap : Type 0 where
  pub cap : ℕ
  pub ampdu_factor : ℕ
  pub ampdu_density : ℕ
  pub rx_mask : List ℕ
  pub rx_highest : ℕ
  pub tx_params : ℕ

-- `ieee80211_sta_vht_cap`
pub record VhtCap : Type 0 where
  pub cap : ℕ
  pub rx_mcs_map : ℕ
  pub rx_highest : ℕ
  pub tx_mcs_map : ℕ
  pub tx_highest : ℕ

-- What the frames are built from. `ht` and `vht` are the capabilities of the target's band, if the
-- band is there and supports them; `conn_chan_width` is the operating width in MHz. The element
-- of the external supplicant is as long as `_assocRsnIELen`.
pub record Station : Type 0 where
  pub mac : List ℕ
  pub target : Bss
  pub tx_seq : ℕ
  pub data_seq : ℕ
  pub wpa2 : Bool
  pub external : Bool
  pub assoc_rsn_ie : List ℕ
  pub conn_chan_width : ℕ
  pub ht : Option HtCap
  pub vht : Option VhtCap
  pub ba_buf_size : ℕ
  pub ba_dialog : ℕ

-- `buildAuthReq`
unfoldable pub build_auth_req : Station → List ℕ
build_auth_req s =
    header 0x00b0 s.target.bssid s.mac s.target.bssid s.tx_seq ++ (0 ∷ 0 ∷ 1 ∷ 0 ∷ 0 ∷ 0 ∷ [])

abbrev pub rates_2g : List ℕ
rates_2g = 0x82 ∷ 0x84 ∷ 0x8b ∷ 0x96 ∷ 0x0c ∷ 0x12 ∷ 0x18 ∷ 0x24 ∷ []

abbrev pub rates_5g : List ℕ
rates_5g = 0x8c ∷ 0x12 ∷ 0x98 ∷ 0x24 ∷ 0x30 ∷ 0x48 ∷ 0x60 ∷ 0x6c ∷ []

abbrev pub ext_rates_2g : List ℕ
ext_rates_2g = 0x30 ∷ 0x48 ∷ 0x60 ∷ 0x6c ∷ []

abbrev pub wme_info : List ℕ
wme_info = 0xdd ∷ 0x07 ∷ 0x00 ∷ 0x50 ∷ 0xf2 ∷ 0x02 ∷ 0x00 ∷ 0x01 ∷ 0x00 ∷ []

-- Bits 1, 6 and 12 are the width of 40 MHz, which a channel of 20 MHz does not offer. The array
-- `rx_mask` has ten bytes.
unfoldable pub ht_body : (width : ℕ) → HtCap → List ℕ
ht_body width h =
    le_word (if ltb width 40 then bit_and h.cap 0xefbd else h.cap)
    ++ ((h.ampdu_factor % 4 + h.ampdu_density % 8 * 4) ∷ h.rx_mask
        ++ (le_word h.rx_highest ++ (h.tx_params % 256 ∷ replicate 10 0)))

unfoldable pub vht_body : VhtCap → List ℕ
vht_body v =
    le_word v.cap
    ++ (le_word (v.cap / 2 ^ 16)
        ++ (le_word v.rx_mcs_map
            ++ (le_word v.rx_highest ++ (le_word v.tx_mcs_map ++ le_word v.tx_highest))))

abbrev pub ht_element : (allowed : Bool) → (width : ℕ) → Option HtCap → List ℕ
ht_element allowed width none = []
ht_element allowed width (some h) = if allowed then element 45 (ht_body width h) else []

abbrev pub vht_element : (allowed : Bool) → Option VhtCap → List ℕ
vht_element allowed none = []
vht_element allowed (some v) = if allowed then element 191 (vht_body v) else []

-- The test of `buildAssocReq` on the external supplicant's element. The array has 257 bytes.
abbrev pub has_external_ie : Station → Bool
has_external_ie s =
    s.external
    && ((leb 2 (length s.assoc_rsn_ie) && leb (length s.assoc_rsn_ie) 257)
        && ((get_or s.assoc_rsn_ie 0 0 == 48)
            && (get_or s.assoc_rsn_ie 1 0 + 2 == length s.assoc_rsn_ie)))

abbrev pub rsn_element : Station → List ℕ
rsn_element s =
    if has_external_ie s then s.assoc_rsn_ie else build_selected_rsn_ie s.target.group_cipher

-- The elements in their order.
unfoldable pub assoc_elements : Station → List ℕ
unfolding element ht_body vht_body
assoc_elements s =
    let high = ltb 14 s.target.channel in
    element 0 s.target.ssid
    ++ (element 1 (if high then rates_5g else rates_2g)
        ++ ((if high then [] else element 50 ext_rates_2g)
            ++ (ht_element (ht_allowed s.target) s.conn_chan_width s.ht
                ++ (vht_element (ht_allowed s.target && high) s.vht
                    ++ (wme_info ++ (if s.wpa2 then rsn_element s else []))))))

-- `buildAssocReq`. The capability field has the bit of an encrypted network in any case.
unfoldable pub build_assoc_req : Station → List ℕ
unfolding assoc_elements
build_assoc_req s =
    header 0x0000 s.target.bssid s.mac s.target.bssid s.tx_seq
    ++ (le_word 0x0431 ++ (10 ∷ 0 ∷ assoc_elements s))

-- `cmdSetAssocRsnIE`
unfoldable pub cmd_set_assoc_rsn_ie : (ie : List ℕ) → Station → Result × Station
cmd_set_assoc_rsn_ie ie s =
    if (ltb (length ie) 2 || ltb 257 (length ie))
      || (not (get_or ie 0 0 == 48) || not (get_or ie 1 0 + 2 == length ie))
    then (bad_argument, s)
    else (success, record s { assoc_rsn_ie = ie })

-- What a call that copies an element out answers.
pub data Copied : Type 0 where
  copied : (bytes : List ℕ) → Copied
  no_space : Copied
  not_found : Copied

abbrev pub within : (capacity : ℕ) → Option (List ℕ) → Copied
within capacity none = not_found
within capacity (some ie) = if ltb capacity (length ie) then no_space else copied ie

-- `copyTargetRsnIE`, for buffers that are there. `ies` are the elements of the target's beacon, of
-- which 512 bytes are kept.
unfoldable pub copy_target_rsn_ie : (capacity : ℕ) → Station → (ies : List ℕ) → Copied
unfolding find_element
copy_target_rsn_ie capacity s ies =
    if leb 2 (length s.assoc_rsn_ie)
    then within capacity (some s.assoc_rsn_ie)
    else within capacity (find_element 48 (take 512 ies))

-- `txRawManagementFrame` lets management frames of 24 to 4096 bytes through to `txMgmtFrame`.
unfoldable pub tx_raw_management_frame : (attached granted : Bool) → (frame : List ℕ) → Bool
tx_raw_management_frame attached granted frame =
    if ltb (length frame) 24 || ltb 4096 (length frame)
    then false
    else if not (bit_and (le16 frame) 0x000c == 0)
    then false
    else attached && granted

-- The fields of a block acknowledgement frame.
abbrev pub ba_param : (amsdu tid size : ℕ) → ℕ
ba_param amsdu tid size = amsdu % 2 + 2 + tid % 16 * 4 + size % 1024 * 64

abbrev pub next_dialog : ℕ → ℕ
next_dialog d = if (d + 1) % 256 == 0 then 1 else (d + 1) % 256

-- `sendAddbaRequest`: the frame, and the station after it.
unfoldable pub send_addba_request : (tid : ℕ) → Station → List ℕ × Station
send_addba_request tid s =
    let dialog = next_dialog s.ba_dialog in
    (
      header 0x00d0 s.target.bssid s.mac s.target.bssid s.tx_seq
          ++ (3 ∷ 0 ∷ dialog ∷ le_word (ba_param 0 tid s.ba_buf_size)
              ++ (0 ∷ 0 ∷ le_word (s.data_seq % 4096 * 16))),
      record s { tx_seq = (s.tx_seq + 1) % 2 ^ 16; ba_dialog = dialog },
    )

-- `sendAddbaResponse`
unfoldable pub send_addba_response :
    (tid dialog req_param ba_timeout : ℕ) → Station → List ℕ × Station
send_addba_response tid dialog req_param ba_timeout s = (
  header 0x00d0 s.target.bssid s.mac s.target.bssid s.tx_seq
      ++ (3 ∷ 1 ∷ dialog ∷ 0 ∷ 0 ∷ le_word (ba_param req_param tid s.ba_buf_size)
          ++ le_word ba_timeout),
  record s { tx_seq = (s.tx_seq + 1) % 2 ^ 16 },
)

-- The frame of `txNullFunc`. The power management bit is bit 12.
unfoldable pub null_func : (power_save : Bool) → Station → List ℕ
null_func power_save s =
    header (0x0148 + (if power_save then 0x1000 else 0)) s.target.bssid s.mac s.target.bssid
      s.tx_seq

-- The frame of `txProbeRequest`, for the band that the radio is on.
unfoldable pub probe_request : (high_band : Bool) → Station → List ℕ
unfolding element
probe_request high_band s =
    let everyone = replicate 6 0xff in
    header 0x0040 everyone s.mac everyone s.tx_seq
    ++ (element 0 [] ++ element 1 (if high_band then rates_5g else rates_2g))
