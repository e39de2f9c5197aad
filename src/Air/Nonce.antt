-- ===== src/Air/Nonce.antt =====
-- The packet number of CCMP, which `txDataFrame` of src/kext/RTW88IEEE80211.cpp counts up.
use airport_rtw.Base.{
  ℕ, zero, suc, ◌+◌, ◌*◌, ◌%◌, ◌^◌, ◌≤◌, ◌<◌, ◌≡◌, ◌⊎◌, refl, sym, ap, ◌∙◌, inl, inr, Bool, true,
  false, not, ◌&&◌, ◌||◌, Option, none, some, List, [], ◌∷◌, ◌++◌, ◌==◌, ltb, if◌then◌else◌, arith,
  length, length-take, take-append-drop, take, drop, Bool-cases,
}
use mathlib.Core.Path.{subst}
use airport_rtw.Wpa.{le16}
use airport_rtw.Mlme.{ht_allowed}
use airport_rtw.Frames.Control.{get_hdrlen, has_protected}
use airport_rtw.Air.Bytes.{Six, six, length-Six}
use airport_rtw.Air.Send.{
  Sender, Sent, count_up, data_frame, protects, next_pn, keyidx_of, data_sent, after_data,
  tx_data_frame,
}

-- The number that six bytes stand for, the lowest first.
unfoldable pub value : List ℕ → ℕ
value [] = 0
value (b ∷ pn) = b + 256 * value pn

abbrev pub AreBytes : List ℕ → Type 0
AreBytes [] = Unit
AreBytes (b ∷ pn) = (b < 256) × AreBytes pn

abbrev range : ℕ → ℕ
range zero = 1
range (suc n) = 256 * range n

value-lt-range : (pn : List ℕ) → AreBytes pn → value pn < range (length pn)
unfolding value
value-lt-range [] v = omega arith
value-lt-range (b ∷ pn) (low, v) = omega (arith, value-lt-range pn v)

full-byte : (b : ℕ) → b < 256 → ((b + 1) % 256 == 0) ≡ true → b ≡ 255
full-byte b low h = ground arith

part-byte : (b : ℕ) → b < 256 → ((b + 1) % 256 == 0) ≡ false → b < 255
part-byte b low h = ground arith

-- The loop adds one, or wraps when every byte is full.
count_up-value :
    (pn : List ℕ)
    → AreBytes pn
    → AreBytes (count_up pn)
      × (length (count_up pn) ≡ length pn)
      × (value pn + 1 < range (length pn) → value (count_up pn) ≡ value pn + 1)
      × (range (length pn) ≤ value pn + 1 → value (count_up pn) ≡ 0)
unfolding value count_up
count_up-value [] v = (tt, refl, λ h. omega arith, λ h. refl)
count_up-value (b ∷ pn) (low, v) =
    let (bytes, size, up, wrap) = count_up-value pn v in
    elim (Bool-cases ((b + 1) % 256 == 0)) [
      | inl full ↦
          (let top : b ≡ 255 = full-byte b low full in
            rw full (
              (omega arith, bytes),
              ap (λ k. suc k) size,
              λ h. omega (arith, top, up (omega (arith, h))),
              λ h. omega (arith, wrap (omega (arith, h))),
            ))
      | inr room ↦
          (let less = part-byte b low room in
            rw room (
              (omega arith, v),
              refl,
              λ h. omega (arith, less),
              λ h. absurd (omega (arith, less, h, value-lt-range pn v)),
            ))
    ]

-- The packet number in a frame, if its header says that there is one.
pub number_in : List ℕ → Option ℕ
number_in frame =
    let body = drop (get_hdrlen (le16 frame)) frame in
    if has_protected (le16 frame) then some (value (take 2 body ++ take 4 (drop 4 body))) else none

number_in-data_frame :
    (qos protected : Bool) (keyidx seq tid : ℕ) {bssid mac da pn : List ℕ} (rest : List ℕ)
    → Six bssid
    → Six mac
    → Six da
    → Six pn
    → number_in (data_frame qos protected keyidx seq tid bssid mac pn (da ++ rest))
      ≡ (if protected then some (value pn) else none)
unfolding number_in data_frame get_hdrlen has_protected
number_in-data_frame false false keyidx seq tid rest (six _ _ _ _ _ _) (six _ _ _ _ _ _)
      (six _ _ _ _ _ _) (six _ _ _ _ _ _) =
    refl
number_in-data_frame false true keyidx seq tid rest (six _ _ _ _ _ _) (six _ _ _ _ _ _)
      (six _ _ _ _ _ _) (six _ _ _ _ _ _) =
    refl
number_in-data_frame true false keyidx seq tid rest (six _ _ _ _ _ _) (six _ _ _ _ _ _)
      (six _ _ _ _ _ _) (six _ _ _ _ _ _) =
    refl
number_in-data_frame true true keyidx seq tid rest (six _ _ _ _ _ _) (six _ _ _ _ _ _)
      (six _ _ _ _ _ _) (six _ _ _ _ _ _) =
    refl

-- The frames that are sent one after the other, and the packet numbers in them.
abbrev pub with_frame : Option Sent → List (List ℕ) → List (List ℕ)
with_frame none later = later
with_frame (some sent) later = sent.frame ∷ later

pub send_all : Sender → List (List ℕ) → List (List ℕ)
send_all s [] = []
send_all s (m ∷ ms) = with_frame (tx_data_frame true s m).0 (send_all (tx_data_frame true s m).1 ms)

send_all-step :
    (s : Sender) (m : List ℕ) (ms : List (List ℕ)) (r : Option Sent × Sender)
    → tx_data_frame true s m ≡ r
    → send_all s (m ∷ ms) ≡ with_frame r.0 (send_all r.1 ms)
unfolding send_all
send_all-step s m ms r e = ap (λ (x : Option Sent × Sender). with_frame x.0 (send_all x.1 ms)) e

abbrev pub or_skip : Option ℕ → List ℕ → List ℕ
or_skip none later = later
or_skip (some n) later = n ∷ later

pub numbers : List (List ℕ) → List ℕ
numbers [] = []
numbers (f ∷ fs) = or_skip (number_in f) (numbers fs)

pub counting : (from n : ℕ) → List ℕ
counting from zero = []
counting from (suc n) = from ∷ counting (from + 1) n

pub record IsSender (s : Sender) : Type 0 where
  pub mac_six : length s.mac ≡ 6
  pub bssid_six : length s.target.bssid ≡ 6
  pub pn_six : length s.pn ≡ 6
  pub pn_bytes : AreBytes s.pn

pn_IsSender :
    (b : Bool) (pn : List ℕ)
    → AreBytes pn
    → length pn ≡ 6
    → value pn + 1 < 2 ^ 48
    → let next = if b then count_up pn else pn in
      AreBytes next × (length next ≡ 6) × (value next ≡ (if b then value pn + 1 else value pn))
pn_IsSender false pn v six_bytes room = (v, six_bytes, refl)
pn_IsSender true pn v six_bytes room =
    let (bytes, size, up, _) = count_up-value pn v in
    let wide : range (length pn) ≡ 2 ^ 48 = ap range six_bytes in
    (bytes, size ∙ six_bytes, up (omega (arith, wide)))

module _ (s : Sender) (m : List ℕ) (v : IsSender s) (room : value s.pn + 1 < 2 ^ 48) where
  after_data-IsSender :
      IsSender (after_data s m)
      × (value (after_data s m).pn ≡ (if protects s m then value s.pn + 1 else value s.pn))
  unfolding after_data
  after_data-IsSender =
      let next = pn_IsSender (protects s m) s.pn v.pn_bytes v.pn_six room in
      (
        record { mac_six = v.mac_six; bssid_six = v.bssid_six; pn_six = next.1; pn_bytes = next.0 },
        next.2,
      )

  number_in-data_sent :
      14 ≤ length m
      → number_in (data_sent s m).frame ≡ (
          if protects s m then some (if protects s m then value s.pn + 1 else value s.pn) else none)
  unfolding data_sent
  number_in-data_sent long =
      let next = pn_IsSender (protects s m) s.pn v.pn_bytes v.pn_six room in
      let seq = if ht_allowed s.target then s.data_seq else s.tx_seq in
      ap
        (λ (t : List ℕ). number_in (
          data_frame (ht_allowed s.target) (protects s m) (keyidx_of s.ptk_conf) seq s.ba_tid
            s.target.bssid s.mac (next_pn s m) t))
        (sym (take-append-drop 6 m))
      ∙ number_in-data_frame (ht_allowed s.target) (protects s m) (keyidx_of s.ptk_conf) seq
          s.ba_tid (drop 6 m) (length-Six _ v.bssid_six) (length-Six _ v.mac_six)
          (length-Six _ (omega (arith, length-take 6 m))) (length-Six _ next.1)
      ∙ ap (λ n. if protects s m then some n else none) next.2

-- The numbers behind one that is sent go on from it.
extend :
    (b : Bool) (n : ℕ) (later : List ℕ)
    → later ≡ counting ((if b then n + 1 else n) + 1) (length later)
    → let all = or_skip (if b then some (if b then n + 1 else n) else none) later in
      all ≡ counting (n + 1) (length all)
unfolding counting
extend true n later e = ap (λ t. (n + 1) ∷ t) e
extend false n later e = e

whole-size : (n : ℕ) → (ltb n 14 || ltb 2048 n) ≡ false → 14 ≤ n
whole-size n h = ground arith

still_room :
    (b : Bool) (n more top : ℕ) → n + suc more < top → (if b then n + 1 else n) + more < top
still_room true n more top h = omega arith
still_room false n more top h = omega arith

either_sent :
    (s : Sender) (m : List ℕ)
    → (tx_data_frame true s m ≡ (none, s))
      ⊎ ((14 ≤ length m) × (tx_data_frame true s m ≡ (some (data_sent s m), after_data s m)))
unfolding tx_data_frame
either_sent s m = elim (Bool-cases (not (s.attached && s.sta))) [
  | inl off ↦ inl (rw off refl)
  | inr on ↦ elim (Bool-cases (ltb (length m) 14 || ltb 2048 (length m))) [
    | inl odd ↦ inl (rw (on, odd) refl)
    | inr even ↦ inr (whole-size (length m) even, rw (on, even) refl)
  ]
]

-- All packet numbers, from one on.
abbrev Counts : ℕ → List ℕ → Type 0
Counts n found = found ≡ counting (n + 1) (length found)

number-step :
    (b : Bool) (n : ℕ) (frame : List ℕ) (fs : List (List ℕ))
    → number_in frame ≡ (if b then some (if b then n + 1 else n) else none)
    → Counts (if b then n + 1 else n) (numbers fs)
    → Counts n (numbers (frame ∷ fs))
unfolding numbers
number-step b n frame fs e later = rw e (extend b n (numbers fs) later)

-- From a valid sender on, whatever Ethernet frames it is given and whichever of them it refuses or
-- sends in the clear, the packet numbers in the frames that it protects are the numbers behind
-- its last one, each once and in order, as long as 48 bits hold them.
pub numbers-counting :
    (ms : List (List ℕ)) (s : Sender)
    → IsSender s
    → value s.pn + length ms < 2 ^ 48
    → numbers (send_all s ms) ≡ counting (value s.pn + 1) (length (numbers (send_all s ms)))
unfolding numbers send_all counting
numbers-counting [] s v room = refl
numbers-counting (m ∷ ms) s v room = elim (either_sent s m) [
  | inl e ↦
      subst (λ fs. Counts (value s.pn) (numbers fs)) (sym (send_all-step s m ms (none, s) e))
        (numbers-counting ms s v (omega arith))
  | inr (long, e) ↦
      (let (v', next) = after_data-IsSender s m v (omega arith) in
        let room' = still_room (protects s m) (value s.pn) (length ms) (2 ^ 48) room in
        subst (λ fs. Counts (value s.pn) (numbers fs))
          (sym (send_all-step s m ms (some (data_sent s m), after_data s m) e))
          (number-step (protects s m) (value s.pn) (data_sent s m).frame
            (send_all (after_data s m) ms) (number_in-data_sent s m v (omega arith) long)
            (subst (λ n. Counts n (numbers (send_all (after_data s m) ms))) next
              (numbers-counting ms (after_data s m) v' (rw next room')))))
]
