-- ===== src/Air/Aggregate.antt =====
-- The A-MSDU that a sender builds by IEEE 802.11, and what `deAmsdu` of src/kext/
-- RTW88IEEE80211.cpp makes of it.
use airport_rtw.Base.{
  ℕ, zero, suc, ◌+◌, ◌-◌, ◌*◌, ◌/◌, ◌%◌, ◌≤◌, ◌<◌, ◌≡◌, refl, sym, ap, ap₂, ◌∙◌, Bool, true, some,
  List, [], ◌∷◌, ◌++◌, append_assoc, append-nil, arith, length, length-append, drop, replicate,
}
use airport_rtw.Wpa.Unwrap.{take-append, drop-append}
use airport_rtw.Air.Bytes.{Six, six, length-Six, be_word, be16, ethernet, word-be}
use airport_rtw.Air.Send.{snap_header}
use airport_rtw.Air.Receive.{
  deliver_ethernet, deliver_subframe, after_frames, de_amsdu_from, de_amsdu, or_nothing,
}

-- One of the frames that are put together.
pub record Msdu : Type 0 where
  pub da : List ℕ
  pub sa : List ℕ
  pub high : ℕ
  pub low : ℕ
  pub payload : List ℕ

pub record IsMsdu (m : Msdu) : Type 0 where
  pub da_six : length m.da ≡ 6
  pub sa_six : length m.sa ≡ 6
  pub high_byte : m.high < 256
  pub low_byte : m.low < 256
  pub fits_word : 8 + length m.payload < 65536

abbrev pub IsMsdus : List Msdu → Type 0
IsMsdus [] = Unit
IsMsdus (m ∷ ms) = IsMsdu m × IsMsdus ms

pub subframe : Msdu → List ℕ
subframe m =
    m.da ++ (m.sa ++ (be_word (8 + length m.payload) ++ (snap_header m.high m.low ++ m.payload)))

abbrev pub padding : ℕ → List ℕ
padding n = replicate ((n + 3) / 4 * 4 - n) 0

-- Each subframe but the last is filled up to a multiple of four bytes.
pub aggregate : List Msdu → List ℕ
aggregate [] = []
aggregate (m ∷ []) = subframe m
aggregate (m ∷ k ∷ ms) = subframe m ++ (padding (22 + length m.payload) ++ aggregate (k ∷ ms))

pub ethernets : List Msdu → List (List ℕ)
ethernets [] = []
ethernets (m ∷ ms) = ethernet m.da m.sa (m.high ∷ m.low ∷ []) m.payload ∷ ethernets ms

module _ (given : ℕ → Bool) where
  round-step :
      (fuel : ℕ) (left : List ℕ) (n : ℕ)
      → be16 (drop 12 left) ≡ n
      → 8 ≤ n
      → 14 + n ≤ length left
      → de_amsdu_from given (suc fuel) left
        ≡ after_frames
            (deliver_subframe given left)
            (de_amsdu_from given fuel (drop ((14 + n + 3) / 4 * 4) left))
  unfolding de_amsdu_from
  round-step fuel left n e low high = ground arith

  deliver_subframe-ethernet :
      (high low : ℕ) (p rest : List ℕ) {da sa : List ℕ}
      → Six da
      → Six sa
      → high < 256
      → low < 256
      → 8 + length p < 65536
      → given (14 + length p) ≡ true
      → deliver_subframe given
          (da ++ (sa ++ (be_word (8 + length p) ++ (snap_header high low ++ (p ++ rest)))))
        ≡ ethernet da sa (high ∷ low ∷ []) p ∷ []
  unfolding deliver_subframe deliver_ethernet
  deliver_subframe-ethernet high low p rest (six a b c d e f) (six a' b' c' d' e' f') h l fits
        room =
      rw
        (take-append p rest ((8 + length p) / 256 % 256 * 256 + (8 + length p) % 256 - 8)
          (omega arith))
        (rw room (
          ap
            (λ (kind : List ℕ).
              ethernet (a ∷ b ∷ c ∷ d ∷ e ∷ f ∷ []) (a' ∷ b' ∷ c' ∷ d' ∷ e' ∷ f' ∷ []) kind p ∷ [])
            (word-be high low h l)))

  -- One subframe, with what stands behind it.
  subframe-round :
      (fuel high low : ℕ) (p rest : List ℕ) {da sa : List ℕ}
      → Six da
      → Six sa
      → high < 256
      → low < 256
      → 8 + length p < 65536
      → given (14 + length p) ≡ true
      → let sub = da ++ (sa ++ (be_word (8 + length p) ++ (snap_header high low ++ p))) in
        de_amsdu_from given (suc fuel) (sub ++ rest)
        ≡ after_frames
            (ethernet da sa (high ∷ low ∷ []) p ∷ [])
            (de_amsdu_from given fuel (drop ((22 + length p + 3) / 4 * 4) (sub ++ rest)))
  subframe-round fuel high low p rest (six a b c d e f) (six a' b' c' d' e' f') h l fits room =
      let da : List ℕ = a ∷ b ∷ c ∷ d ∷ e ∷ f ∷ [] in
      let sa : List ℕ = a' ∷ b' ∷ c' ∷ d' ∷ e' ∷ f' ∷ [] in
      let left : List ℕ =
        da ++ (sa ++ (be_word (8 + length p) ++ (snap_header high low ++ (p ++ rest)))) in
      let size : 14 + (8 + length p) + 3 ≡ 22 + length p + 3 = omega arith in
      round-step fuel left (8 + length p) (omega arith) (omega arith)
        (omega (arith, length-append p rest))
      ∙ ap₂ (λ fs k. after_frames fs (de_amsdu_from given fuel (drop (k / 4 * 4) left)))
          (deliver_subframe-ethernet high low p rest (six a b c d e f) (six a' b' c' d' e' f') h l
            fits room)
          size

length-subframe : (m : Msdu) → IsMsdu m → length (subframe m) ≡ 22 + length m.payload
unfolding subframe
length-subframe m v = omega (
  arith,
  length-append m.da
      (m.sa ++ (be_word (8 + length m.payload) ++ (snap_header m.high m.low ++ m.payload))),
  length-append m.sa (be_word (8 + length m.payload) ++ (snap_header m.high m.low ++ m.payload)),
  v.da_six,
  v.sa_six,
)

length-replicate : (n : ℕ) → length (replicate {A = ℕ} n 0) ≡ n
length-replicate zero = refl
length-replicate (suc n) = ap (λ k. suc k) (length-replicate n)

-- The step of the loop is over the subframe and its padding, or past the end.
drop-padded :
    (sub rest : List ℕ) (n : ℕ)
    → length sub ≡ n
    → drop ((n + 3) / 4 * 4) (sub ++ (padding n ++ rest)) ≡ rest
drop-padded sub rest n e =
    ap (drop ((n + 3) / 4 * 4)) (sym (append_assoc sub (padding n) rest))
    ∙ drop-append (sub ++ padding n) rest ((n + 3) / 4 * 4)
        (omega (arith, length-append sub (padding n), length-replicate ((n + 3) / 4 * 4 - n), e))

drop-all : (xs : List ℕ) (n : ℕ) → length xs ≤ n → drop n xs ≡ []
drop-all [] zero h = refl
drop-all [] (suc n) h = refl
drop-all (x ∷ xs) zero h = absurd (omega arith)
drop-all (x ∷ xs) (suc n) h = drop-all xs n (omega arith)

rounds : List Msdu → ℕ
rounds [] = 0
rounds (m ∷ ms) = suc (rounds ms)

module _ (given : ℕ → Bool) (room : (n : ℕ) → given n ≡ true) where
  no-rounds : (fuel : ℕ) → 0 < fuel → de_amsdu_from given fuel [] ≡ some []
  unfolding de_amsdu_from
  no-rounds zero h = absurd (omega arith)
  no-rounds (suc fuel) h = refl

  msdu-round :
      (fuel : ℕ) (m : Msdu) (rest : List ℕ)
      → IsMsdu m
      → de_amsdu_from given (suc fuel) (subframe m ++ rest)
        ≡ after_frames (ethernet m.da m.sa (m.high ∷ m.low ∷ []) m.payload ∷ []) (
            de_amsdu_from given fuel
              (drop ((22 + length m.payload + 3) / 4 * 4) (subframe m ++ rest)))
  unfolding subframe
  msdu-round fuel m rest v =
      subframe-round given fuel m.high m.low m.payload rest (length-Six m.da v.da_six)
        (length-Six m.sa v.sa_six) v.high_byte v.low_byte v.fits_word (room (14 + length m.payload))

  aggregate-rounds :
      (ms : List Msdu) (fuel : ℕ)
      → IsMsdus ms
      → rounds ms < fuel
      → de_amsdu_from given fuel (aggregate ms) ≡ some (ethernets ms)
  unfolding aggregate ethernets rounds
  aggregate-rounds ms zero v h = absurd (omega arith)
  aggregate-rounds [] (suc fuel) v h = no-rounds (suc fuel) h
  aggregate-rounds (m ∷ []) (suc fuel) v h =
      let step : ℕ = (22 + length m.payload + 3) / 4 * 4 in
      let over : drop step (subframe m ++ []) ≡ [] =
        drop-all (subframe m ++ []) step
          (omega (arith, length-append (subframe m) [], length-subframe m v.0)) in
      ap (de_amsdu_from given (suc fuel)) (sym (append-nil (subframe m)))
      ∙ msdu-round fuel m [] v.0
      ∙ rw over (rw (no-rounds fuel (omega arith)) refl)
  aggregate-rounds (m ∷ k ∷ ms) (suc fuel) v h =
      let rest : List ℕ = aggregate (k ∷ ms) in
      let n : ℕ = 22 + length m.payload in
      msdu-round fuel m (padding n ++ rest) v.0
      ∙ ap
          (λ left.
            after_frames (ethernet m.da m.sa (m.high ∷ m.low ∷ []) m.payload ∷ [])
              (de_amsdu_from given fuel left))
          (drop-padded (subframe m) rest n (length-subframe m v.0))
      ∙ ap (after_frames (ethernet m.da m.sa (m.high ∷ m.low ∷ []) m.payload ∷ []))
          (aggregate-rounds (k ∷ ms) fuel v.1 (omega arith))

  rounds-le : (ms : List Msdu) → IsMsdus ms → rounds ms ≤ length (aggregate ms)
  unfolding aggregate rounds
  rounds-le [] v = omega arith
  rounds-le (m ∷ []) v = omega (arith, length-subframe m v.0)
  rounds-le (m ∷ k ∷ ms) v = omega (
    arith,
    rounds-le (k ∷ ms) v.1,
    length-subframe m v.0,
    length-append (subframe m) (padding (22 + length m.payload) ++ aggregate (k ∷ ms)),
    length-append (padding (22 + length m.payload)) (aggregate (k ∷ ms)),
  )

  -- If the stack has packets, then the frames that were put together by the standard are split
  -- into the same Ethernet frames in the same order. Each has addresses of six bytes and a length
  -- that its field can hold.
  pub de_amsdu-aggregate :
      (ms : List Msdu) → IsMsdus ms → de_amsdu given (aggregate ms) ≡ ethernets ms
  unfolding de_amsdu
  de_amsdu-aggregate ms v =
      ap or_nothing
        (aggregate-rounds ms (suc (length (aggregate ms))) v (omega (arith, rounds-le ms v)))
