-- ===== src/Aes/Expand.antt =====
-- `aes128_key_expand` of src/kext/RTW88IEEE80211.cpp against the key expansion of FIPS 197.
use Prim.Native.Nat.{bit_and, bit_xor}
use mathlib.Core.Path.{subst}
use airport_rtw.Base.{
  ℕ, zero, suc, ◌+◌, ◌-◌, ◌*◌, ◌/◌, ◌%◌, ◌<◌, ◌≤◌, ◌≡◌, refl, ap, sym, ◌∙◌, Bool, true, not, List,
  [], ◌∷◌, ◌++◌, ◌==◌, if◌then◌else◌, length, take, drop, get_or, arith, append_assoc,
  length-append, length-take, take-all,
}
use airport_rtw.Bits.Table.{holds_from, table_entry}
use airport_rtw.Wpa.{xor_bytes}
use airport_rtw.Aes.{sbox_at, rcon, next_word, expand_from, aes128_key_expand, round_key_at}
use airport_rtw.Aes.Fips.{
  fips_sbox, round_constant, word, turned, summed, next_round, fips_round_key,
}
use airport_rtw.Aes.Table.{sbox-fips, rcon-fips}
use airport_rtw.Aes.Block.{AreBytes, IsBlock, Sixteen, sixteen, length-Sixteen}
use airport_rtw.Aes.Schedule.{AreBytes-take, AreBytes-drop, get_or-lt, round_key-AreBytes}
use airport_rtw.Wpa.Unwrap.{take-append}

drop-past : (pre x : List ℕ) (n m : ℕ) → length pre ≡ n → drop (n + m) (pre ++ x) ≡ drop m x
drop-past [] x zero m e = ap (λ k. drop k x) {x = 0 + m} {y = m} (omega arith)
drop-past [] x (suc n) m e = absurd (omega (arith, e))
drop-past (p ∷ pre) x zero m e = absurd (omega (arith, e))
drop-past (p ∷ pre) x (suc n) m e =
    ap (λ k. drop k (p ∷ (pre ++ x))) {x = suc n + m} {y = suc (n + m)} (omega arith)
    ∙ drop-past pre x n m (omega (arith, e))

-- A word from the one four places before it and the one before it.
abbrev word_from : (old t : List ℕ) → (first : Bool) → (const : ℕ) → List ℕ
word_from old t first const = xor_bytes old (
    if first
    then bit_xor (sbox_at (get_or t 1 0)) const
      ∷ sbox_at (get_or t 2 0)
      ∷ sbox_at (get_or t 3 0)
      ∷ sbox_at (get_or t 0 0)
      ∷ []
    else t)

abbrev aligned : ℕ → Bool
aligned i = if i % 4 == 0 then bit_and (16 + 4 * i) 15 == 0 else not (bit_and (16 + 4 * i) 15 == 0)

aligned_table : holds_from aligned 0 39 ≡ true
unfolding holds_from
aligned_table = refl

first_word : (r j : ℕ) → r < 10 → j < 4 → (bit_and (16 + 16 * r + 4 * j) 15 == 0) ≡ (j == 0)
first_word r j h g =
    let at = table_entry aligned 0 39 (4 * r + j) aligned_table (omega arith) (omega arith) in
    let same : 16 + 16 * r + 4 * j ≡ 16 + 4 * (4 * r + j) = omega arith in
    ap (λ n. bit_and n 15 == 0) same ∙ ground (arith, at)

next_word_lem :
    (r j : ℕ) (pre x : List ℕ)
    → length pre ≡ 16 * r
    → r < 10
    → j < 4
    → next_word (16 + 16 * r + 4 * j) (pre ++ x)
      ≡ word_from
          (take 4 (drop (4 * j) x))
          (take 4 (drop (12 + 4 * j) x))
          (j == 0)
          (get_or rcon r 0)
unfolding next_word
next_word_lem r j pre x e h g =
    let n = 16 + 16 * r + 4 * j in
    let old : drop (n - 16) (pre ++ x) ≡ drop (4 * j) x =
      ap (λ k. drop k (pre ++ x)) {x = n - 16} {y = 16 * r + 4 * j} (omega arith)
      ∙ drop-past pre x (16 * r) (4 * j) e in
    let last : drop (n - 4) (pre ++ x) ≡ drop (12 + 4 * j) x =
      ap (λ k. drop k (pre ++ x)) {x = n - 4} {y = 16 * r + (12 + 4 * j)} (omega arith)
      ∙ drop-past pre x (16 * r) (12 + 4 * j) e in
    let const : (n - 16) / 16 ≡ r = omega arith in
    λ i.
      word_from (take 4 (old i)) (take 4 (last i)) (first_word r j h g i) (get_or rcon (const i) 0)

one_word :
    (k b : ℕ) (pre x n : List ℕ)
    → next_word b (pre ++ x) ≡ n
    → expand_from (suc k) b (pre ++ x) ≡ expand_from k (b + 4) (pre ++ (x ++ n))
unfolding expand_from
one_word k b pre x n e =
    ap (λ w. expand_from k (b + 4) ((pre ++ x) ++ w)) e
    ∙ ap (expand_from k (b + 4)) (append_assoc pre x n)

abbrev coded : (r : ℕ) → List ℕ → List ℕ
coded r w = next_round sbox_at (get_or rcon r 0) w

-- One round of the program: four words.
one_round :
    (k r : ℕ) (pre w : List ℕ)
    → Sixteen w
    → length pre ≡ 16 * r
    → r < 10
    → expand_from (suc (suc (suc (suc k)))) (16 + 16 * r) (pre ++ w)
      ≡ expand_from k (16 + 16 * r + 4 + 4 + 4 + 4) (pre ++ (w ++ coded r w))
unfolding next_round summed xor_bytes
one_round k r pre _ (sixteen a0 a1 a2 a3 a4 a5 a6 a7 a8 a9 a10 a11 a12 a13 a14 a15) e h =
    let w : List ℕ =
      a0 ∷ a1 ∷ a2 ∷ a3 ∷ a4 ∷ a5 ∷ a6 ∷ a7 ∷ a8 ∷ a9 ∷ a10 ∷ a11 ∷ a12 ∷ a13 ∷ a14 ∷ a15 ∷ [] in
    let n0 : List ℕ = take 4 (coded r w) in
    let n1 : List ℕ = take 4 (drop 4 (coded r w)) in
    let n2 : List ℕ = take 4 (drop 8 (coded r w)) in
    let n3 : List ℕ = take 4 (drop 12 (coded r w)) in
    let b = 16 + 16 * r in
    let at = λ (x : List ℕ) (c d : ℕ) (same : c ≡ d). ap (λ m. next_word m (pre ++ x)) same in
    one_word (suc (suc (suc k))) b pre w n0
      (at w b (b + 4 * 0) (omega arith) ∙ next_word_lem r 0 pre w e h (omega arith))
    ∙ one_word (suc (suc k)) (b + 4) pre (w ++ n0) n1
        (next_word_lem r 1 pre (w ++ n0) e h (omega arith))
    ∙ one_word (suc k) (b + 4 + 4) pre (w ++ (n0 ++ n1)) n2 (
        at (w ++ (n0 ++ n1)) (b + 4 + 4) (b + 4 * 2) (omega arith)
        ∙ next_word_lem r 2 pre (w ++ (n0 ++ n1)) e h (omega arith))
    ∙ one_word k (b + 4 + 4 + 4) pre (w ++ (n0 ++ (n1 ++ n2))) n3 (
        at (w ++ (n0 ++ (n1 ++ n2))) (b + 4 + 4 + 4) (b + 4 * 3) (omega arith)
        ∙ next_word_lem r 3 pre (w ++ (n0 ++ (n1 ++ n2))) e h (omega arith))

length-next_round :
    (sbox : ℕ → ℕ) (const : ℕ) (w : List ℕ) → Sixteen w → length (next_round sbox const w) ≡ 16
unfolding next_round summed xor_bytes
length-next_round sbox const _ (sixteen _ _ _ _ _ _ _ _ _ _ _ _ _ _ _ _) = refl

-- The keys of the rounds from `r` on, one behind the other.
keys_from : (rounds r : ℕ) → List ℕ → List ℕ
keys_from zero r w = w
keys_from (suc rounds) r w = w ++ keys_from rounds (r + 1) (coded r w)

words_for : (rounds : ℕ) → ℕ
words_for zero = 0
words_for (suc rounds) = suc (suc (suc (suc (words_for rounds))))

expand-keys_from :
    (rounds r : ℕ) (pre w : List ℕ)
    → length w ≡ 16
    → length pre ≡ 16 * r
    → r + rounds ≤ 10
    → expand_from (words_for rounds) (16 + 16 * r) (pre ++ w) ≡ pre ++ keys_from rounds r w
unfolding expand_from keys_from words_for
expand-keys_from zero r pre w size e h = refl
expand-keys_from (suc rounds) r pre w size e h =
    let s = length-Sixteen w size in
    one_round (words_for rounds) r pre w s e (omega arith)
    ∙ ap (λ b. expand_from (words_for rounds) b (pre ++ (w ++ coded r w)))
        {x = 16 + 16 * r + 4 + 4 + 4 + 4} {y = 16 + 16 * (r + 1)} (omega arith)
    ∙ ap (expand_from (words_for rounds) (16 + 16 * (r + 1))) (sym (append_assoc pre w (coded r w)))
    ∙ expand-keys_from rounds (r + 1) (pre ++ w) (coded r w)
        (length-next_round sbox_at (get_or rcon r 0) w s)
        (omega (arith, length-append pre w, e, size)) (omega arith)
    ∙ append_assoc pre w (keys_from rounds (r + 1) (coded r w))

later : (i r : ℕ) → List ℕ → List ℕ
later zero r w = w
later (suc i) r w = later i (r + 1) (coded r w)

keys_from-later :
    (i rounds r : ℕ) (w : List ℕ)
    → length w ≡ 16
    → i ≤ rounds
    → take 16 (drop (i * 16) (keys_from rounds r w)) ≡ later i r w
unfolding keys_from later
keys_from-later zero zero r w size h = take-all 16 w (omega (arith, size))
keys_from-later zero (suc rounds) r w size h =
    take-append w (keys_from rounds (r + 1) (coded r w)) 16 size
keys_from-later (suc i) zero r w size h = absurd (omega (arith, h))
keys_from-later (suc i) (suc rounds) r w size h =
    let more : List ℕ = keys_from rounds (r + 1) (coded r w) in
    ap (λ n. take 16 (drop n (w ++ more))) {x = suc i * 16} {y = 16 + i * 16} (omega arith)
    ∙ ap (take 16) (drop-past w more 16 (i * 16) size)
    ∙ keys_from-later i rounds (r + 1) (coded r w)
        (length-next_round sbox_at (get_or rcon r 0) w (length-Sixteen w size)) (omega (arith, h))

later-suc : (i r : ℕ) (w : List ℕ) → later (suc i) r w ≡ coded (r + i) (later i r w)
unfolding later
later-suc zero r w = ap (λ n. coded n w) {x = r} {y = r + 0} (omega arith)
later-suc (suc i) r w =
    later-suc i (r + 1) (coded r w)
    ∙ ap (λ n. coded n (later i (r + 1) (coded r w))) {x = r + 1 + i} {y = r + suc i} (omega arith)

turned-fips :
    (r : ℕ) (t : List ℕ)
    → AreBytes t
    → r < 10
    → turned sbox_at (get_or rcon r 0) t ≡ turned fips_sbox (round_constant r) t
turned-fips r t v h =
    let box = λ (i : ℕ). sbox-fips (get_or t i 0) (get_or-lt t i v) in
    λ i. bit_xor (box 1 i) (rcon-fips r h i) ∷ box 2 i ∷ box 3 i ∷ box 0 i ∷ []

coded-fips :
    (r : ℕ) (w : List ℕ)
    → AreBytes w
    → r < 10
    → coded r w ≡ next_round fips_sbox (round_constant r) w
unfolding next_round
coded-fips r w v h =
    ap (λ t. summed t w)
      (turned-fips r (word 3 w) (AreBytes-take 4 (drop 12 w) (AreBytes-drop 12 w v)) h)

expanded :
    (key : List ℕ) (i : ℕ)
    → length key ≡ 16
    → i ≤ 10
    → round_key_at i (aes128_key_expand key) ≡ later i 0 (take 16 key)
unfolding aes128_key_expand keys_from words_for
expanded key i e h =
    let size : length (take 16 key) ≡ 16 = omega (arith, length-take 16 key, e) in
    ap (λ rk. take 16 (drop (i * 16) rk))
      (expand-keys_from 10 0 [] (take 16 key) size refl (omega arith))
    ∙ keys_from-later i 10 0 (take 16 key) size h

later-fips :
    (key : List ℕ) (i : ℕ) → IsBlock key → i ≤ 10 → later i 0 (take 16 key) ≡ fips_round_key key i
unfolding later fips_round_key
later-fips key zero b h = refl
later-fips key (suc i) b h =
    let k = later i 0 (take 16 key) in
    let bytes =
      subst AreBytes (expanded key i b.0 (omega (arith, h))) (round_key-AreBytes key i b.1) in
    later-suc i 0 (take 16 key)
    ∙ ap (λ n. coded n k) {x = 0 + i} {y = i} (omega arith)
    ∙ coded-fips i k bytes (omega (arith, h))
    ∙ ap (next_round fips_sbox (round_constant i)) (later-fips key i b (omega (arith, h)))

-- Each round key of the program is the one of FIPS 197.
pub round_key-fips :
    (key : List ℕ) (round : ℕ)
    → IsBlock key
    → round ≤ 10
    → round_key_at round (aes128_key_expand key) ≡ fips_round_key key round
round_key-fips key round b h = expanded key round b.0 h ∙ later-fips key round b h
