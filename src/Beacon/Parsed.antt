-- ===== src/Beacon/Parsed.antt =====
-- What `processScanResult` of src/kext/RTW88IEEE80211.cpp reads of a frame, within its arrays.
use airport_rtw.Base.{
  ℕ, zero, suc, ◌+◌, ◌≤◌, ◌<◌, ◌≡◌, refl, ap, Bool, true, false, not, ◌&&◌, ◌==◌, Option, none,
  some, List, [], ◌∷◌, ltb, leb, if◌then◌else◌, arith, lt-of_ltb, length, length-append,
  length-take, length-drop, take, drop, get_or,
}
use airport_rtw.Wpa.{rsn_select_ccmp_psk}
use airport_rtw.Beacon.{
  Network, selected_by, is_wpa, take_element, keep_element, walk, channel_of, fixed_fields, parse,
}

-- The arrays of the structure hold what is written.
pub record Fits (n : Network) : Type 0 where
  pub name : length n.ssid ≤ 32
  pub address : length n.bssid ≡ 6
  pub elements : length n.ies < 512

if-Fits :
    (b : Bool) (x y : Network)
    → (b ≡ true → Fits x)
    → (b ≡ false → Fits y)
    → Fits (if b then x else y)
if-Fits true x y f g = f refl
if-Fits false x y f g = g refl

with_name : (n : Network) (p : List ℕ) → length p ≤ 32 → Fits n → Fits (record n { ssid = p })
with_name n p h v = record { name = h; address = v.address; elements = v.elements }

with_radio : (n : Network) (c : ℕ) → Fits n → Fits (record n { channel = c })
with_radio n c v = record { name = v.name; address = v.address; elements = v.elements }

with_cipher :
    (n : Network) (c g a : ℕ) → Fits n → Fits (record n { cipher = c; group_cipher = g; akm = a })
with_cipher n c g a v = record { name = v.name; address = v.address; elements = v.elements }

selected_by-Fits : (o : Option (ℕ × ℕ)) (n : Network) → Fits n → Fits (selected_by o n)
selected_by-Fits none n v = v
selected_by-Fits (some (pairwise, group)) n v = with_cipher n pairwise group _ v

short_name : (b : Bool) (k : ℕ) → (b && (ltb 0 k && leb k 32)) ≡ true → k ≤ 32
short_name b k h = ground arith

take_element-Fits : (id : ℕ) (p : List ℕ) (n : Network) → Fits n → Fits (take_element id p n)
unfolding take_element
take_element-Fits id p n v =
    if-Fits ((id == 0) && (ltb 0 (length p) && leb (length p) 32)) _ _
      (λ h. with_name n p (short_name (id == 0) (length p) h) v)
      λ _.
        if-Fits ((id == 3) && leb 1 (length p)) _ _ (λ _. with_radio n (get_or p 0 0) v)
          λ _.
            if-Fits ((id == 61) && (leb 1 (length p) && (n.channel == 0))) _ _
              (λ _. with_radio n (get_or p 0 0) v)
              λ _.
                if-Fits (id == 48) _ _ (λ _. selected_by-Fits (rsn_select_ccmp_psk p) n v)
                  λ _.
                    if-Fits ((id == 221) && (is_wpa p && (n.cipher == 0))) _ _
                      (λ _. with_cipher n _ _ _ v) (λ _. v)

keep_element-Fits : (raw : List ℕ) (n : Network) → Fits n → Fits (keep_element raw n)
keep_element-Fits raw n v =
    if-Fits (ltb (length n.ies + length raw) 512) _ n
      (λ h. record {
        name = v.name;
        address = v.address;
        elements =
            omega (arith, length-append n.ies raw, lt-of_ltb (length n.ies + length raw) 512 h);
      })
      (λ _. v)

walk-Fits : (fuel : ℕ) (left : List ℕ) (n : Network) → Fits n → Fits (walk fuel left n)
unfolding walk
walk-Fits zero left n v = v
walk-Fits (suc fuel) left n v =
    let len = get_or left 1 0 in
    let read = take_element (get_or left 0 0) (take len (drop 2 left)) n in
    if-Fits (ltb (length left) 2) n _ (λ _. v)
      λ _.
        if-Fits (ltb (length left) (2 + len)) n _ (λ _. v)
          λ _. walk-Fits fuel (drop (2 + len) left) (keep_element (take (2 + len) left) read) (
            keep_element-Fits (take (2 + len) left) read
              (take_element-Fits (get_or left 0 0) (take len (drop 2 left)) n v))

-- Whatever a beacon of at least 36 bytes holds, what is read of it fits the arrays of the
-- structure: the name has at most 32 bytes, the address six, and the elements that are kept less
-- than 512.
pub parse-Fits :
    (f : List ℕ) (rssi freq generation : ℕ) → 36 ≤ length f → Fits (parse f rssi freq generation)
unfolding parse
parse-Fits f rssi freq generation long =
    let start : Fits (fixed_fields f) = record {
      name = omega arith;
      address = omega (arith, length-take 6 (drop 16 f), length-drop 16 f);
      elements = omega arith;
    } in
    let n = walk (length f) (drop 36 f) (fixed_fields f) in
    let v = walk-Fits (length f) (drop 36 f) (fixed_fields f) start in
    let seen : Network = record n { rssi = rssi; freq = freq; last_seen_scan = generation } in
    let w : Fits seen = record { name = v.name; address = v.address; elements = v.elements } in
    if-Fits ((seen.channel == 0) && not (seen.freq == 0)) _ seen
      (λ _. with_radio seen (channel_of seen.freq) w) (λ _. w)

-- Fuel beyond the length changes nothing.
walk_fuel :
    (f g : ℕ) (left : List ℕ) (n : Network)
    → length left ≤ f
    → length left ≤ g
    → walk f left n ≡ walk g left n
unfolding walk
walk_fuel zero zero left n h k = refl
walk_fuel zero (suc g) [] n h k = refl
walk_fuel zero (suc g) (x ∷ left) n h k = absurd (omega arith)
walk_fuel (suc f) zero [] n h k = refl
walk_fuel (suc f) zero (x ∷ left) n h k = absurd (omega arith)
walk_fuel (suc f) (suc g) left n h k =
    let len = get_or left 1 0 in
    let read = take_element (get_or left 0 0) (take len (drop 2 left)) n in
    let less = length-drop (2 + len) left in
    ap
      (λ (later : Network).
        if ltb (length left) 2 then n else if ltb (length left) (2 + len) then n else later)
      (walk_fuel f g (drop (2 + len) left) (keep_element (take (2 + len) left) read)
        (omega (arith, less)) (omega (arith, less)))
