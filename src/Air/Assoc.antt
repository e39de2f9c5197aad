-- ===== src/Air/Assoc.antt =====
-- The association request of `buildAssocReq` of src/kext/RTW88IEEE80211.cpp: how long it is, and
-- what its elements say.
use airport_rtw.Base.{
  ℕ, ◌+◌, ◌/◌, ◌%◌, ◌≤◌, ◌<◌, ◌≡◌, refl, ap, ◌∙◌, Bool, true, false, ◌&&◌, Option, none, some, List,
  [], ◌∷◌, ◌++◌, ltb, if◌then◌else◌, arith, length, length-append, replicate,
}
use airport_rtw.Wpa.{build_selected_rsn_ie}
use airport_rtw.Mlme.{ht_allowed}
use airport_rtw.Air.Bytes.{seq_ctrl, le_word}
use airport_rtw.Air.Elements.{element}
use airport_rtw.Air.Manage.{
  Station, HtCap, VhtCap, ht_body, vht_body, ht_element, vht_element, rates_2g, rates_5g,
  ext_rates_2g, wme_info, has_external_ie, rsn_element, assoc_elements, build_assoc_req, header,
}

-- The array of the capabilities has ten bytes.
abbrev pub IsTen : Option HtCap → Type 0
IsTen none = Unit
IsTen (some h) = length h.rx_mask ≡ 10

-- The address and array lengths, and the bound on a network name.
pub record IsStation (s : Station) : Type 0 where
  pub mac_six : length s.mac ≡ 6
  pub bssid_six : length s.target.bssid ≡ 6
  pub ssid_short : length s.target.ssid ≤ 32
  pub mask_ten : IsTen s.ht

-- The room of `doAssociate` for the frame.
abbrev pub assoc_room : ℕ
assoc_room = 256

pub length-ht_body : (width : ℕ) (h : HtCap) → length h.rx_mask ≡ 10 → length (ht_body width h) ≡ 26
unfolding ht_body
length-ht_body width h ten = omega (
  arith,
  ten,
  length-append h.rx_mask
      (h.rx_highest % 256 ∷ h.rx_highest / 256 % 256 ∷ h.tx_params % 256 ∷ replicate 10 0),
)

ht_element-le :
    (allowed : Bool) (width : ℕ) (o : Option HtCap)
    → IsTen o
    → length (ht_element allowed width o) ≤ 28
unfolding element
ht_element-le allowed width none ten = omega arith
ht_element-le false width (some h) ten = omega arith
ht_element-le true width (some h) ten = omega (arith, length-ht_body width h ten)

vht_element-le : (allowed : Bool) (o : Option VhtCap) → length (vht_element allowed o) ≤ 14
unfolding element vht_body
vht_element-le allowed none = omega arith
vht_element-le false (some v) = omega arith
vht_element-le true (some v) = omega arith

vht_element-low :
    (allowed : Bool) (o : Option VhtCap) → length (vht_element (allowed && false) o) ≡ 0
vht_element-low allowed none = refl
vht_element-low false (some v) = refl
vht_element-low true (some v) = refl

-- The elements of the band.
abbrev band_parts : (high allowed : Bool) → Station → ℕ
band_parts high allowed s =
    length {A = ℕ} (if high then [] else element 50 ext_rates_2g)
    + (length (ht_element allowed s.conn_chan_width s.ht)
        + length (vht_element (allowed && high) s.vht))

band_parts-le : (high allowed : Bool) (s : Station) → IsStation s → band_parts high allowed s ≤ 42
unfolding element
band_parts-le true allowed s v = omega (
  arith,
  ht_element-le allowed s.conn_chan_width s.ht v.mask_ten,
  vht_element-le (allowed && true) s.vht,
)
band_parts-le false allowed s v =
    omega (
      arith,
      ht_element-le allowed s.conn_chan_width s.ht v.mask_ten,
      vht_element-low allowed s.vht,
    )

abbrev pub rsn_part : Station → List ℕ
rsn_part s = if s.wpa2 then rsn_element s else []

module _ (a b c d e f : List ℕ) where
  length-append6 :
      length (a ++ (b ++ (c ++ (d ++ (e ++ f)))))
      ≡ length a + length b + length c + length d + length e + length f
  length-append6 = omega (
    arith,
    length-append a (b ++ (c ++ (d ++ (e ++ f)))),
    length-append b (c ++ (d ++ (e ++ f))),
    length-append c (d ++ (e ++ f)),
    length-append d (e ++ f),
    length-append e f,
  )

length-rates : (high : Bool) → length (element 1 (if high then rates_5g else rates_2g)) ≡ 10
unfolding element
length-rates false = refl
length-rates true = refl

length-element : (id : ℕ) (body : List ℕ) → length (element id body) ≡ 2 + length body
unfolding element
length-element id body = omega arith

length-assoc_elements :
    (s : Station)
    → length (assoc_elements s)
      ≡ 21
        + length s.target.ssid
        + band_parts (ltb 14 s.target.channel) (ht_allowed s.target) s
        + length (rsn_part s)
unfolding assoc_elements
length-assoc_elements s =
    let high = ltb 14 s.target.channel in
    omega (
      arith,
      length-append6 (element 0 s.target.ssid) (element 1 (if high then rates_5g else rates_2g))
          (if high then [] else element 50 ext_rates_2g)
          (ht_element (ht_allowed s.target) s.conn_chan_width s.ht)
          (vht_element (ht_allowed s.target && high) s.vht) (wme_info ++ rsn_part s),
      length-element 0 s.target.ssid,
      length-rates high,
    )

pub length-header :
    (fc seq : ℕ) (x y z : List ℕ)
    → length x ≡ 6
    → length y ≡ 6
    → length z ≡ 6
    → length (header fc x y z seq) ≡ 24
length-header fc seq x y z a b c = omega (
  arith,
  length-append x (y ++ (z ++ seq_ctrl seq)),
  length-append y (z ++ seq_ctrl seq),
  length-append z (seq_ctrl seq),
)

-- What the frame has but for the element of the encryption.
length-assoc_req :
    (s : Station)
    → IsStation s
    → length (build_assoc_req s)
      ≡ 49
        + length s.target.ssid
        + band_parts (ltb 14 s.target.channel) (ht_allowed s.target) s
        + length (rsn_part s)
unfolding build_assoc_req
length-assoc_req s v = omega (
  arith,
  length-append (header 0x0000 s.target.bssid s.mac s.target.bssid s.tx_seq)
      (le_word 0x0431 ++ (10 ∷ 0 ∷ assoc_elements s)),
  length-header 0x0000 s.tx_seq s.target.bssid s.mac s.target.bssid v.bssid_six v.mac_six
      v.bssid_six,
  length-assoc_elements s,
)

length-own : (group_cipher : ℕ) → length (build_selected_rsn_ie group_cipher) ≡ 22
unfolding build_selected_rsn_ie
length-own group_cipher = refl

own_part :
    (w x : Bool) (ie own : List ℕ)
    → (w && x) ≡ false
    → length own ≡ 22
    → length (if w then (if x then ie else own) else []) ≤ 22
own_part false x ie own h e = omega arith
own_part true false ie own h e = omega (arith, e)
own_part true true ie own h e = cc

-- The element of the external supplicant is in the frame.
pub external-rsn_part :
    (s : Station) → s.wpa2 ≡ true → has_external_ie s ≡ true → rsn_part s ≡ s.assoc_rsn_ie
external-rsn_part s w x =
    ap (λ (b : Bool). if b then rsn_element s else []) w
    ∙ ap (λ (b : Bool). if b then s.assoc_rsn_ie else build_selected_rsn_ie s.target.group_cipher) x

-- With the element that the station makes for the encryption itself, or with none, the association
-- request fits the 256 bytes that `doAssociate` has for it, with more than a hundred to spare. With
-- the element of an external supplicant, of which `cmdSetAssocRsnIE` takes up to 257 bytes, the
-- request is longer than that room as soon as the element has 208 bytes, whatever the band and
-- the network's name are.
pub assoc_req_bounds :
    (s : Station)
    → IsStation s
    → ((s.wpa2 && has_external_ie s) ≡ false → length (build_assoc_req s) ≤ 145)
      × (s.wpa2 ≡ true
          → has_external_ie s ≡ true
          → 208 ≤ length s.assoc_rsn_ie
          → assoc_room < length (build_assoc_req s))
assoc_req_bounds s v =
    let high = ltb 14 s.target.channel in
    let size = length-assoc_req s v in
    let band = band_parts-le high (ht_allowed s.target) s v in
    let own = build_selected_rsn_ie s.target.group_cipher in
    (
      λ none_given.
          let part =
            own_part s.wpa2 (has_external_ie s) s.assoc_rsn_ie own none_given
              (length-own s.target.group_cipher) in
          omega (arith, size, band, part, v.ssid_short),
      λ encrypted given long.
          omega (arith, size, ap (λ (l : List ℕ). length l) (external-rsn_part s encrypted given)),
    )
