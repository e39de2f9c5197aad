-- ===== src/Aes/Schedule.antt =====
-- The key schedule of src/kext/RTW88IEEE80211.cpp, `aes128_key_expand`: its length, and that it
-- holds bytes.
use Prim.Native.Nat.{bit_and}
use airport_rtw.Base.{
  ℕ, zero, suc, ◌+◌, ◌-◌, ◌*◌, ◌/◌, ◌<◌, Bool, true, false, arith, List, [], ◌∷◌, ◌++◌, ◌==◌,
  if◌then◌else◌, take, drop, get_or,
}
use airport_rtw.Aes.{sbox_at, rcon, next_word, expand_from, aes128_key_expand, round_key_at}
use airport_rtw.Aes.Table.{rsbox-sbox, sbox-fips, xtime-xor}
use airport_rtw.Aes.Block.{AreBytes, xor_bytes-AreBytes}

pub AreBytes-take : (n : ℕ) (s : List ℕ) → AreBytes s → AreBytes (take n s)
AreBytes-take zero s v = tt
AreBytes-take (suc n) [] v = tt
AreBytes-take (suc n) (x ∷ s) (h, v) = (h, AreBytes-take n s v)

pub AreBytes-drop : (n : ℕ) (s : List ℕ) → AreBytes s → AreBytes (drop n s)
AreBytes-drop zero s v = v
AreBytes-drop (suc n) [] v = tt
AreBytes-drop (suc n) (x ∷ s) (h, v) = AreBytes-drop n s v

pub AreBytes-append : (s t : List ℕ) → AreBytes s → AreBytes t → AreBytes (s ++ t)
AreBytes-append [] t v w = w
AreBytes-append (x ∷ s) t (h, v) w = (h, AreBytes-append s t v w)

pub get_or-lt : (s : List ℕ) (i : ℕ) → AreBytes s → get_or s i 0 < 256
get_or-lt [] i v = omega arith
get_or-lt (x ∷ s) zero (h, v) = h
get_or-lt (x ∷ s) (suc i) (h, v) = get_or-lt s i v

rcon-AreBytes : AreBytes rcon
rcon-AreBytes = omega arith

either-AreBytes :
    (b : Bool) (s t : List ℕ) → AreBytes s → AreBytes t → AreBytes (if b then s else t)
either-AreBytes true s t v w = v
either-AreBytes false s t v w = w

next_word-AreBytes : (bytes : ℕ) (rk : List ℕ) → AreBytes rk → AreBytes (next_word bytes rk)
unfolding next_word
next_word-AreBytes bytes rk v =
    let t = take 4 (drop (bytes - 4) rk) in
    let w : AreBytes t = AreBytes-take 4 _ (AreBytes-drop (bytes - 4) rk v) in
    let boxed : (i : ℕ) → sbox_at (get_or t i 0) < 256 = λ i.
      (let at = get_or-lt t i w in
        ground (arith, sbox-fips (get_or t i 0) at, (rsbox-sbox (get_or t i 0) at).1)) in
    let const = get_or-lt rcon ((bytes - 16) / 16) rcon-AreBytes in
    xor_bytes-AreBytes (take 4 (drop (bytes - 16) rk)) _
      (AreBytes-take 4 _ (AreBytes-drop (bytes - 16) rk v))
      (either-AreBytes (bit_and bytes 15 == 0) _ t
        ((xtime-xor _ _ (boxed 1) const).1, (boxed 2, (boxed 3, (boxed 0, tt)))) w)

expand_from-AreBytes :
    (words bytes : ℕ) (rk : List ℕ) → AreBytes rk → AreBytes (expand_from words bytes rk)
unfolding expand_from
expand_from-AreBytes zero bytes rk v = v
expand_from-AreBytes (suc words) bytes rk v =
    expand_from-AreBytes words (bytes + 4) (rk ++ next_word bytes rk)
      (AreBytes-append rk (next_word bytes rk) v (next_word-AreBytes bytes rk v))

-- Every round has a key of bytes.
pub round_key-AreBytes :
    (key : List ℕ) (round : ℕ)
    → AreBytes key
    → AreBytes (round_key_at round (aes128_key_expand key))
unfolding aes128_key_expand
round_key-AreBytes key round v = AreBytes-take 16 _ (
    AreBytes-drop (round * 16) _
      (expand_from-AreBytes 40 16 (take 16 key) (AreBytes-take 16 key v)))
