-- ===== src/Air/Supplicant.antt =====
-- The element of an external supplicant: `cmdSetAssocRsnIE`, `copyTargetRsnIE` and the association
-- request of src/kext/RTW88IEEE80211.cpp.
use airport_rtw.Base.{
  ℕ, ◌+◌, ◌≡◌, refl, ◌∙◌, Bool, true, false, not, ◌&&◌, ◌||◌, none, some, List, ◌==◌, ltb, leb,
  if◌then◌else◌, arith, length, get_or, drop,
}
use airport_rtw.Mlme.{Result, success, bad_argument}
use airport_rtw.Air.Elements.{find_element}
use airport_rtw.Air.Manage.{
  Station, rsn_element, build_assoc_req, cmd_set_assoc_rsn_ie, copied, copy_target_rsn_ie,
}
use airport_rtw.Air.Assoc.{IsStation}
use airport_rtw.Air.Offer.{assoc_req_found}

abbrev with_ie : Station → List ℕ → Station
with_ie s ie = record s { assoc_rsn_ie = ie }

accepted_sizes :
    (n first_byte second : ℕ)
    → ((ltb n 2 || ltb 257 n) || (not (first_byte == 48) || not (second + 2 == n))) ≡ false
    → (leb 2 n ≡ true)
      × (ltb 257 n ≡ false)
      × (((leb 2 n && leb n 257) && ((first_byte == 48) && (second + 2 == n))) ≡ true)
accepted_sizes n first_byte second h = (ground arith, ground arith, ground arith)

refuses : List ℕ → Bool
refuses ie =
    (ltb (length ie) 2 || ltb 257 (length ie))
    || (not (get_or ie 0 0 == 48) || not (get_or ie 1 0 + 2 == length ie))

abbrev answered : Bool → Station → Station → Result × Station
answered b s t = if b then (bad_argument, s) else (success, t)

choice :
    (b : Bool) (s t : Station)
    → (answered b s t).0 ≡ success
    → ((answered b s t).1 ≡ t) × (b ≡ false)
choice true s t h = cc
choice false s t h = (refl, refl)

kept : (b : Bool) (s t : Station) → (answered b s t).0 ≡ bad_argument → (answered b s t).1 ≡ s
kept true s t h = refl
kept false s t h = cc

accepted :
    (ie : List ℕ) (s : Station)
    → (cmd_set_assoc_rsn_ie ie s).0 ≡ success
    → ((cmd_set_assoc_rsn_ie ie s).1 ≡ with_ie s ie) × (refuses ie ≡ false)
unfolding cmd_set_assoc_rsn_ie refuses
accepted ie s h = choice (refuses ie) s (with_ie s ie) h

with_ie-IsStation : (s : Station) (ie : List ℕ) → IsStation s → IsStation (with_ie s ie)
with_ie-IsStation s ie v = record {
  mac_six = v.mac_six;
  bssid_six = v.bssid_six;
  ssid_short = v.ssid_short;
  mask_ten = v.mask_ten;
}

copied_back :
    (ie ies : List ℕ) (s : Station)
    → refuses ie ≡ false
    → copy_target_rsn_ie 257 (with_ie s ie) ies ≡ copied ie
unfolding copy_target_rsn_ie refuses
copied_back ie ies s fine =
    let (two, top, _) = accepted_sizes (length ie) (get_or ie 0 0) (get_or ie 1 0) fine in
    rw (two, top) refl

rsn_chosen :
    (ie : List ℕ) (s : Station)
    → refuses ie ≡ false
    → s.external ≡ true
    → s.wpa2 ≡ true
    → (if s.wpa2 then some (rsn_element (with_ie s ie)) else none) ≡ some ie
unfolding refuses
rsn_chosen ie s fine outside encrypted =
    let (_, _, all) = accepted_sizes (length ie) (get_or ie 0 0) (get_or ie 1 0) fine in
    rw (encrypted, outside, all) refl

unchanged :
    (ie : List ℕ) (s : Station)
    → (cmd_set_assoc_rsn_ie ie s).0 ≡ bad_argument
    → (cmd_set_assoc_rsn_ie ie s).1 ≡ s
unfolding cmd_set_assoc_rsn_ie refuses
unchanged ie s h = kept (refuses ie) s (with_ie s ie) h

-- An element that `cmdSetAssocRsnIE` accepts is the one that `copyTargetRsnIE` then gives back to a
-- caller with room for 257 bytes, whatever the target's beacon holds. If the supplicant is external
-- and the network is encrypted, it is also the RSN element that an access point finds in the
-- association request. One that it refuses changes nothing.
pub set_rsn_ie :
    (ie ies : List ℕ) (s : Station)
    → IsStation s
    → let (answer, s') = cmd_set_assoc_rsn_ie ie s in
      (answer ≡ success
        → (copy_target_rsn_ie 257 s' ies ≡ copied ie)
          × (s.external ≡ true
              → s.wpa2 ≡ true
              → find_element 48 (drop 28 (build_assoc_req s')) ≡ some ie))
      × (answer ≡ bad_argument → s' ≡ s)
set_rsn_ie ie ies s v = (
  λ taken.
      let (e, fine) = accepted ie s taken in
      let found = (assoc_req_found (with_ie s ie) (with_ie-IsStation s ie v)).1 in
      rw e (
        copied_back ie ies s fine,
        λ outside encrypted. found ∙ rsn_chosen ie s fine outside encrypted,
      ),
  λ refused. unchanged ie s refused,
)
