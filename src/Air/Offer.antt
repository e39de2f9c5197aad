-- ===== src/Air/Offer.antt =====
-- What an access point finds in the association request of `buildAssocReq` of src/kext/
-- RTW88IEEE80211.cpp, and the element that `cmdSetAssocRsnIE` sets.
use airport_rtw.Base.{
  ℕ, ◌+◌, ◌≤◌, ◌<◌, ◌≡◌, refl, ap, ap₂, sym, ◌∙◌, Bool, true, false, ◌&&◌, Option, none, some, List,
  [], ◌∷◌, ◌++◌, append_assoc, append-nil, length-drop, ◌==◌, ltb, leb, if◌then◌else◌, arith,
  length, length-append, get_or, drop,
}
use mathlib.Core.Path.{subst}
use airport_rtw.Wpa.{build_selected_rsn_ie}
use airport_rtw.Wpa.Unwrap.{drop-append}
use airport_rtw.Mlme.{ht_allowed}
use airport_rtw.Air.Bytes.{le_word}
use airport_rtw.Air.Elements.{
  element, elements, first, AreShort, find_element, find_element-elements,
}
use airport_rtw.Air.Manage.{
  Station, HtCap, VhtCap, ht_body, vht_body, ht_element, vht_element, rates_2g, rates_5g,
  ext_rates_2g, wme_info, has_external_ie, rsn_element, assoc_elements, build_assoc_req, header,
}
use airport_rtw.Air.Assoc.{IsStation, IsTen, length-header, length-ht_body}

abbrev Parts : Type 0
Parts = List (ℕ × List ℕ)

elements-append : (a b : Parts) → elements (a ++ b) ≡ elements a ++ elements b
unfolding elements
elements-append [] b = refl
elements-append ((i, body) ∷ a) b =
    ap (λ t. element i body ++ t) (elements-append a b)
    ∙ sym (append_assoc (element i body) (elements a) (elements b))

AreShort-append : (a b : Parts) → AreShort a → AreShort b → AreShort (a ++ b)
unfolding AreShort
AreShort-append [] b v w = w
AreShort-append ((i, body) ∷ a) b v w = (v.0, AreShort-append a b v.1 w)

first-append : (id : ℕ) (a b : Parts) → first id a ≡ none → first id (a ++ b) ≡ first id b
unfolding first
first-append id [] b e = refl
first-append id ((i, body) ∷ a) b e = ground (arith, first-append id a b)

-- Bytes that are elements, and the RSN element among them.
record Shows (bytes : List ℕ) (rsn : Option (List ℕ)) : Type 0 where
  parts : Parts
  spelled : bytes ≡ elements parts
  short : AreShort parts
  found : first 48 parts ≡ rsn

Shows-append :
    {x y : List ℕ} {rsn : Option (List ℕ)} → Shows x none → Shows y rsn → Shows (x ++ y) rsn
Shows-append v w = record {
  parts = v.parts ++ w.parts;
  spelled = ap₂ (λ s t. s ++ t) v.spelled w.spelled ∙ sym (elements-append v.parts w.parts);
  short = AreShort-append v.parts w.parts v.short w.short;
  found = first-append 48 v.parts w.parts v.found ∙ w.found;
}

Shows-element :
    (i : ℕ) (body : List ℕ)
    → length body < 256
    → Shows (element i body) (if i == 48 then some (element i body) else none)
unfolding elements AreShort first
Shows-element i body small = record {
  parts = (i, body) ∷ [];
  spelled = sym (append-nil (element i body));
  short = (small, tt);
  found = refl;
}

Shows-nothing : Shows [] none
unfolding elements AreShort first
Shows-nothing = record { parts = []; spelled = refl; short = tt; found = refl }

Shows-ht :
    (allowed : Bool) (width : ℕ) (o : Option HtCap)
    → IsTen o
    → Shows (ht_element allowed width o) none
Shows-ht allowed width none ten = Shows-nothing
Shows-ht false width (some h) ten = Shows-nothing
Shows-ht true width (some h) ten =
    Shows-element 45 (ht_body width h) (omega (arith, length-ht_body width h ten))

Shows-vht : (allowed : Bool) (o : Option VhtCap) → Shows (vht_element allowed o) none
unfolding vht_body
Shows-vht allowed none = Shows-nothing
Shows-vht false (some v) = Shows-nothing
Shows-vht true (some v) = Shows-element 191 (vht_body v) (omega arith)

Shows-rates : (high : Bool) → Shows (element 1 (if high then rates_5g else rates_2g)) none
Shows-rates true = Shows-element 1 rates_5g (omega arith)
Shows-rates false = Shows-element 1 rates_2g (omega arith)

Shows-ext : (high : Bool) → Shows (if high then [] else element 50 ext_rates_2g) none
Shows-ext true = Shows-nothing
Shows-ext false = Shows-element 50 ext_rates_2g (omega arith)

Shows-wme : Shows wme_info none
unfolding element
Shows-wme = Shows-element 0xdd (drop 2 wme_info) (omega arith)

-- An element of an external supplicant that passes the test is one element.
one_element :
    (ie : List ℕ)
    → 2 ≤ length ie
    → length ie ≤ 257
    → get_or ie 0 0 ≡ 48
    → get_or ie 1 0 + 2 ≡ length ie
    → ie ≡ element 48 (drop 2 ie)
unfolding element
one_element [] two top id size = absurd (omega arith)
one_element (x ∷ []) two top id size = absurd (omega arith)
one_element (x ∷ y ∷ body) two top id size = ap₂ (λ a b. a ∷ b ∷ body) id (omega arith)

external_facts :
    (b : Bool) (n first_byte second : ℕ)
    → (b && ((leb 2 n && leb n 257) && ((first_byte == 48) && (second + 2 == n)))) ≡ true
    → (2 ≤ n) × (n ≤ 257) × (first_byte ≡ 48) × (second + 2 ≡ n)
external_facts b n first_byte second h = ground arith

Shows-external :
    (s : Station) → has_external_ie s ≡ true → Shows s.assoc_rsn_ie (some s.assoc_rsn_ie)
Shows-external s h =
    let ie = s.assoc_rsn_ie in
    let (two, top, id, size) =
      external_facts s.external (length ie) (get_or ie 0 0) (get_or ie 1 0) h in
    let e = one_element ie two top id size in
    subst (λ t. Shows t (some t)) (sym e)
      (Shows-element 48 (drop 2 ie) (omega (arith, length-drop 2 ie)))

Shows-own :
    (group_cipher : ℕ)
    → Shows (build_selected_rsn_ie group_cipher) (some (build_selected_rsn_ie group_cipher))
unfolding build_selected_rsn_ie element
Shows-own group_cipher =
    Shows-element 48 (drop 2 (build_selected_rsn_ie group_cipher)) (omega arith)

Shows-choice :
    (s : Station) (x w : Bool)
    → (x ≡ true → Shows s.assoc_rsn_ie (some s.assoc_rsn_ie))
    → let rsn = if x then s.assoc_rsn_ie else build_selected_rsn_ie s.target.group_cipher in
      Shows (if w then rsn else []) (if w then some rsn else none)
Shows-choice s x false given = Shows-nothing
Shows-choice s true true given = given refl
Shows-choice s false true given = Shows-own s.target.group_cipher

found_in :
    (ssid : List ℕ) (parts : Parts)
    → length ssid < 256
    → AreShort parts
    → (find_element 0 (element 0 ssid ++ elements parts) ≡ some (element 0 ssid))
      × (find_element 48 (element 0 ssid ++ elements parts) ≡ first 48 parts)
unfolding elements first AreShort
found_in ssid parts short v = (
  find_element-elements ((0, ssid) ∷ parts) 0 (short, v),
  find_element-elements ((0, ssid) ∷ parts) 48 (short, v),
)

assoc_body : (s : Station) → IsStation s → drop 28 (build_assoc_req s) ≡ assoc_elements s
unfolding build_assoc_req
assoc_body s v =
    let front = header 0x0000 s.target.bssid s.mac s.target.bssid s.tx_seq in
    let fixed : List ℕ = le_word 0x0431 ++ 10 ∷ 0 ∷ [] in
    let size =
      length-header 0x0000 s.tx_seq s.target.bssid s.mac s.target.bssid v.bssid_six v.mac_six
        v.bssid_six in
    ap (drop 28) (sym (append_assoc front fixed (assoc_elements s)))
    ∙ drop-append (front ++ fixed) (assoc_elements s) 28
        (omega (arith, length-append front fixed, size))

-- An access point that walks over the elements of the association request finds the network's
-- name, and the RSN element that the station chose, exactly if the network is encrypted: that of
-- the external supplicant, if it is well-formed, and else the station's own.
pub assoc_req_found :
    (s : Station)
    → IsStation s
    → let ies = drop 28 (build_assoc_req s) in
      (find_element 0 ies ≡ some (element 0 s.target.ssid))
      × (find_element 48 ies ≡ (if s.wpa2 then some (rsn_element s) else none))
unfolding assoc_elements
assoc_req_found s v =
    let high = ltb 14 s.target.channel in
    let allowed = ht_allowed s.target in
    let rest = Shows-append (Shows-rates high) (
      Shows-append (Shows-ext high) (
        Shows-append (Shows-ht allowed s.conn_chan_width s.ht v.mask_ten) (
          Shows-append (Shows-vht (allowed && high) s.vht) (
            Shows-append Shows-wme
              (Shows-choice s (has_external_ie s) s.wpa2 (Shows-external s)))))) in
    let spelled = assoc_body s v ∙ ap (λ t. element 0 s.target.ssid ++ t) rest.spelled in
    let found = found_in s.target.ssid rest.parts (omega (arith, v.ssid_short)) rest.short in
    (ap (find_element 0) spelled ∙ found.0, ap (find_element 48) spelled ∙ found.1 ∙ rest.found)
