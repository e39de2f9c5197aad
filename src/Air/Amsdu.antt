-- ===== src/Air/Amsdu.antt =====
-- The A-MSDU that `deAmsdu` of src/kext/RTW88IEEE80211.cpp splits, against the sender's side of
-- IEEE 802.11.
use airport_rtw.Base.{
  ℕ, zero, suc, ◌+◌, ◌-◌, ◌*◌, ◌/◌, ◌≤◌, ◌<◌, ◌≡◌, refl, ap, Bool, true, false, not, ◌||◌, Option,
  some, List, [], ◌∷◌, ◌++◌, ltb, leb, if◌then◌else◌, arith, length, length-append, length-take,
  length-drop, take, drop,
}
use airport_rtw.Air.Bytes.{be_word, be16, ethernet}
use airport_rtw.Air.Receive.{
  is_snap, deliver_ethernet, deliver_subframe, after_frames, de_amsdu_from, de_amsdu, or_nothing,
}

pub total : List (List ℕ) → ℕ
total [] = 0
total (f ∷ fs) = length f + total fs

total-append : (fs gs : List (List ℕ)) → total (fs ++ gs) ≡ total fs + total gs
unfolding total
total-append [] gs = omega arith
total-append (f ∷ fs) gs = omega (arith, total-append fs gs)

-- With the eight bytes of its SNAP header, a frame fits the subframe that it comes from.
abbrev pub Fits : List (List ℕ) → ℕ → Type 0
Fits fs room = total fs + 8 * length fs ≤ room

if-Fits :
    (b : Bool) (fs : List (List ℕ)) (room : ℕ) → Fits fs room → Fits (if b then fs else []) room
unfolding total
if-Fits true fs room h = h
if-Fits false fs room h = omega arith

ethernet-Fits :
    (da sa : List ℕ) (t : ℕ) (p : List ℕ) (room : ℕ)
    → length da ≤ 6
    → length sa ≤ 6
    → 22 + length p ≤ room
    → Fits (ethernet da sa (be_word t) p ∷ []) room
unfolding total
ethernet-Fits da sa t p room d s h =
    omega (arith, length-append da (sa ++ (be_word t ++ p)), length-append sa (be_word t ++ p))

Fits-append :
    (fs gs : List (List ℕ)) (n k room : ℕ)
    → Fits fs n
    → Fits gs k
    → n + k ≤ room
    → Fits (fs ++ gs) room
Fits-append fs gs n k room f g h = omega (arith, total-append fs gs, length-append fs gs)

whole-room : (n len : ℕ) → (ltb n 8 || ltb len (14 + n)) ≡ false → (8 ≤ n) × (14 + n ≤ len)
whole-room n len h = ground arith

-- A round takes the subframe and its padding.
step-room :
    (n len : ℕ)
    → 8 ≤ n
    → 14 + n ≤ len
    → (len - (14 + n + 3) / 4 * 4 < len) × (14 + n + (len - (14 + n + 3) / 4 * 4) ≤ len)
step-room n len low high = (omega arith, omega arith)

module _ (given : ℕ → Bool) where
  deliver_subframe-Fits :
      (sf : List ℕ) (n : ℕ)
      → be16 (drop 12 sf) ≡ n
      → 8 ≤ n
      → 14 + n ≤ length sf
      → Fits (deliver_subframe given sf) (14 + n)
  unfolding deliver_subframe deliver_ethernet
  deliver_subframe-Fits sf n e low high =
      let msdu = drop 14 sf in
      let payload = take (be16 (drop 12 sf) - 8) (drop 8 msdu) in
      let short : length payload ≤ n - 8 =
        omega (arith, e, length-take (be16 (drop 12 sf) - 8) (drop 8 msdu)) in
      if-Fits (is_snap msdu) _ (14 + n) (
        if-Fits (given (14 + length payload)) _ (14 + n) (
          ethernet-Fits (take 6 sf) (take 6 (drop 6 sf)) (be16 (drop 6 msdu)) payload (14 + n)
            (omega (arith, length-take 6 sf)) (omega (arith, length-take 6 (drop 6 sf)))
            (omega arith)))

  -- A result, and what bounds it.
  Bounded : Option (List (List ℕ)) → ℕ → Type 0
  Bounded r room = (fs : List (List ℕ)) × (r ≡ some fs) × Fits fs room

  nothing-Bounded : (room : ℕ) → Bounded (some []) room
  unfolding Bounded total
  nothing-Bounded room = ([], refl, omega arith)

  after_frames-Bounded :
      (here : List (List ℕ)) (later : Option (List (List ℕ))) (n k room : ℕ)
      → Fits here n
      → Bounded later k
      → n + k ≤ room
      → Bounded (after_frames here later) room
  unfolding Bounded
  after_frames-Bounded here later n k room f (gs, e, g) h =
      (here ++ gs, ap (after_frames here) e, Fits-append here gs n k room f g h)

  if-Bounded :
      (b : Bool) (x y : Option (List (List ℕ))) (room : ℕ)
      → (b ≡ true → Bounded x room)
      → (b ≡ false → Bounded y room)
      → Bounded (if b then x else y) room
  if-Bounded true x y room f g = f refl
  if-Bounded false x y room f g = g refl

  rounds-Bounded :
      (fuel : ℕ) (left : List ℕ)
      → length left < fuel
      → Bounded (de_amsdu_from given fuel left) (length left)
  unfolding de_amsdu_from
  rounds-Bounded zero left h = absurd (omega arith)
  rounds-Bounded (suc fuel) left h =
      let n = be16 (drop 12 left) in
      let step = (14 + n + 3) / 4 * 4 in
      let shorter = length-drop step left in
      if-Bounded (not (leb 14 (length left))) _ _ (length left) (λ _. nothing-Bounded (length left))
        (λ long.
          if-Bounded (ltb n 8 || ltb (length left) (14 + n)) _ _ (length left)
            (λ _. nothing-Bounded (length left))
            (λ whole.
              let room = whole-room n (length left) whole in
              let less = step-room n (length left) room.0 room.1 in
              after_frames-Bounded (deliver_subframe given left)
                (de_amsdu_from given fuel (drop step left)) (14 + n) (length (drop step left))
                (length left) (deliver_subframe-Fits left n refl room.0 room.1)
                (rounds-Bounded fuel (drop step left) (rw shorter (omega (arith, less.0))))
                (rw shorter less.1)))

  -- Whatever the payload of an A-MSDU holds, its length is fuel enough for the loop, and the
  -- Ethernet frames that come of it, with eight bytes more for each, are together no longer than
  -- the payload.
  pub de_amsdu_bounds :
      (payload : List ℕ)
      → (fs : List (List ℕ)) × (de_amsdu_from given (suc (length payload)) payload ≡ some fs)
        × (de_amsdu given payload ≡ fs)
        × (total fs + 8 * length fs ≤ length payload)
  unfolding de_amsdu Bounded
  de_amsdu_bounds payload =
      let (fs, e, small) = rounds-Bounded (suc (length payload)) payload (omega arith) in
      (fs, e, ap or_nothing e, small)
