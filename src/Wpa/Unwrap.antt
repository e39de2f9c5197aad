-- ===== src/Wpa/Unwrap.antt =====
-- The key wrapping of RFC 3394 and `aes_unwrap_128` of src/kext/RTW88IEEE80211.cpp.
use airport_rtw.Base.{
  ℕ, zero, suc, ◌+◌, ◌-◌, ◌*◌, ◌/◌, ◌≤◌, ◌<◌, ◌≡◌, refl, ap, ap₂, ◌∙◌, arith, List, [], ◌∷◌, ◌++◌,
  length, take, drop, some, Bool, true, false, ◌==◌, ltb, ◌||◌, not, length-append, length-take,
  length-drop, take-append-drop,
}
use airport_rtw.Wpa.{
  Cipher, xor_bytes, be64, unstep, unpass, unwrap_rounds, wrap_iv, same_bytes, words, joined,
  aes_unwrap_128,
}
use airport_rtw.Bits.Table.{holds_from, table_entry}
use Prim.Native.Nat.{bit_and}
use airport_rtw.Aes.Block.{AreBytes, IsBlock, xor_bytes-AreBytes}
use airport_rtw.Aes.Schedule.{AreBytes-take, AreBytes-drop, AreBytes-append}
use airport_rtw.Wpa.Xor.{xor_bytes-twice, length-xor_bytes}

pub take-append : (xs ys : List ℕ) (n : ℕ) → length xs ≡ n → take n (xs ++ ys) ≡ xs
take-append [] ys zero e = refl
take-append [] ys (suc n) e = absurd (omega (arith, e))
take-append (x ∷ xs) ys zero e = absurd (omega (arith, e))
take-append (x ∷ xs) ys (suc n) e = ap (λ t. x ∷ t) (take-append xs ys n (omega (arith, e)))

pub drop-append : (xs ys : List ℕ) (n : ℕ) → length xs ≡ n → drop n (xs ++ ys) ≡ ys
drop-append [] ys zero e = refl
drop-append [] ys (suc n) e = absurd (omega (arith, e))
drop-append (x ∷ xs) ys zero e = absurd (omega (arith, e))
drop-append (x ∷ xs) ys (suc n) e = drop-append xs ys n (omega (arith, e))

-- Words of eight numbers, and bytes in all of them.
pub Eights : List (List ℕ) → Type 0
Eights [] = Unit
Eights (r ∷ rs) = (length r ≡ 8) × Eights rs

pub AllBytes : List (List ℕ) → Type 0
AllBytes [] = Unit
AllBytes (r ∷ rs) = AreBytes r × AllBytes rs

be64-AreBytes : (n : ℕ) → AreBytes (be64 n)
be64-AreBytes n = omega arith

-- The wrapping, as the RFC describes it, with an encryption of blocks.
module _ (encrypt : (key block : List ℕ) → List ℕ) where
  abbrev pub wrap_step : (kek : List ℕ) → (t : ℕ) → (a r : List ℕ) → List ℕ × List ℕ
  wrap_step kek t a r =
      let block = encrypt kek (a ++ r) in (xor_bytes (take 8 block) (be64 t), drop 8 block)

  unfoldable pub wrap_pass :
      (kek : List ℕ) → (t : ℕ) → (a : List ℕ) → List (List ℕ) → List ℕ × List (List ℕ)
  wrap_pass kek t a [] = (a, [])
  wrap_pass kek t a (r ∷ rs) =
      let (a1, word) = wrap_step kek t a r in
      let (a2, rest) = wrap_pass kek (t + 1) a1 rs in (a2, word ∷ rest)

  unfoldable pub wrap_rounds :
      (more n : ℕ) → (kek a : List ℕ) → List (List ℕ) → List ℕ × List (List ℕ)
  unfolding wrap_pass
  wrap_rounds zero n kek a rs = (a, rs)
  wrap_rounds (suc more) n kek a rs =
      let (a1, words) = wrap_rounds more n kek a rs in wrap_pass kek (n * more + 1) a1 words

  unfoldable pub wrap : (kek plain : List ℕ) → List ℕ
  unfolding wrap_rounds
  wrap kek plain =
      let n = length plain / 8 in
      let (a, rs) = wrap_rounds 6 n kek wrap_iv (words n plain) in a ++ joined rs

module _ (c : Cipher) (encrypt : (key block : List ℕ) → List ℕ)
    (decrypts : (key block : List ℕ)
      → IsBlock key
      → IsBlock block
      → c.aes128_decrypt_block key (encrypt key block) ≡ block)
    (sized : (key block : List ℕ) → IsBlock key → IsBlock block → IsBlock (encrypt key block))
    (kek : List ℕ) (is_key : IsBlock kek) where
  unstep-wrap_step :
      (t : ℕ) (a r : List ℕ)
      → length a ≡ 8
      → length r ≡ 8
      → AreBytes a
      → AreBytes r
      → (unstep c kek t (wrap_step encrypt kek t a r).0 (wrap_step encrypt kek t a r).1 ≡ (a, r))
        × (length (wrap_step encrypt kek t a r).0 ≡ 8)
        × (length (wrap_step encrypt kek t a r).1 ≡ 8)
        × AreBytes (wrap_step encrypt kek t a r).0
        × AreBytes (wrap_step encrypt kek t a r).1
  unstep-wrap_step t a r e f v w =
      let block : List ℕ = encrypt kek (a ++ r) in
      let whole : IsBlock (a ++ r) =
        (omega (arith, length-append a r, e, f), AreBytes-append a r v w) in
      let made : IsBlock block = sized kek (a ++ r) is_key whole in
      let plain : c.aes128_decrypt_block kek
            (xor_bytes (xor_bytes (take 8 block) (be64 t)) (be64 t) ++ drop 8 block)
          ≡ a ++ r =
        ap (λ p. c.aes128_decrypt_block kek (p ++ drop 8 block))
          (xor_bytes-twice (take 8 block) (be64 t))
        ∙ ap (c.aes128_decrypt_block kek) (take-append-drop 8 block)
        ∙ decrypts kek (a ++ r) is_key whole in
      (
        ap (λ p. (take 8 p, drop 8 p)) plain
            ∙ ap₂ (λ x y. (x, y)) (take-append a r 8 e) (drop-append a r 8 e),
        omega (arith, length-xor_bytes (take 8 block) (be64 t), length-take 8 block, made.0),
        omega (arith, length-drop 8 block, made.0),
        xor_bytes-AreBytes (take 8 block) (be64 t) (AreBytes-take 8 block made.1) (be64-AreBytes t),
        AreBytes-drop 8 block made.1,
      )

  unpass-wrap_pass :
      (t : ℕ) (a : List ℕ) (rs : List (List ℕ))
      → length a ≡ 8
      → Eights rs
      → AreBytes a
      → AllBytes rs
      → (unpass c kek t (wrap_pass encrypt kek t a rs).0 (wrap_pass encrypt kek t a rs).1 ≡ (a, rs))
        × (length (wrap_pass encrypt kek t a rs).0 ≡ 8)
        × Eights (wrap_pass encrypt kek t a rs).1
        × (length (wrap_pass encrypt kek t a rs).1 ≡ length rs)
        × AreBytes (wrap_pass encrypt kek t a rs).0
        × AllBytes (wrap_pass encrypt kek t a rs).1
  unfolding unpass wrap_pass Eights AllBytes
  unpass-wrap_pass t a [] e f v w = (refl, e, tt, refl, v, tt)
  unpass-wrap_pass t a (r ∷ rs) e (f, fs) v (w, ws) =
      let (back, e1, f1, v1, w1) = unstep-wrap_step t a r e f v w in
      let (all, e2, fs2, n2, v2, ws2) =
        unpass-wrap_pass (t + 1) (wrap_step encrypt kek t a r).0 rs e1 fs v1 ws in
      (
        ap (λ s. let (a2, w) = unstep c kek t s.0 (wrap_step encrypt kek t a r).1 in (a2, w ∷ s.1))
              all
            ∙ ap (λ s. (s.0, s.1 ∷ rs)) back,
        e2,
        (f1, fs2),
        omega (arith, n2),
        v2,
        (w1, ws2),
      )

  pub unwrap-wrap_rounds :
      (more n : ℕ) (a : List ℕ) (rs : List (List ℕ))
      → length a ≡ 8
      → Eights rs
      → length rs ≡ n
      → AreBytes a
      → AllBytes rs
      → let s = wrap_rounds encrypt more n kek a rs in
        (unwrap_rounds more c kek s.0 s.1 ≡ (a, rs))
        × (length s.0 ≡ 8)
        × Eights s.1
        × (length s.1 ≡ n)
        × AreBytes s.0
        × AllBytes s.1
  unfolding unwrap_rounds wrap_rounds
  unwrap-wrap_rounds zero n a rs e f m v w = (refl, e, f, m, v, w)
  unwrap-wrap_rounds (suc more) n a rs e f m v w =
      let (ih, e1, f1, m1, v1, w1) = unwrap-wrap_rounds more n a rs e f m v w in
      let s = wrap_rounds encrypt more n kek a rs in
      let (back, e2, f2, m2, v2, w2) = unpass-wrap_pass (n * more + 1) s.0 s.1 e1 f1 v1 w1 in
      let last = wrap_pass encrypt kek (n * more + 1) s.0 s.1 in
      (
        ap
              (λ k.
                unwrap_rounds more c kek (unpass c kek (k * more + 1) last.0 last.1).0
                  (unpass c kek (k * more + 1) last.0 last.1).1)
              {x = length last.1} {y = n} (omega (arith, m1, m2))
            ∙ ap (λ p. unwrap_rounds more c kek p.0 p.1) back
            ∙ ih,
        e2,
        f2,
        omega (arith, m1, m2),
        v2,
        w2,
      )

pub same_bytes_refl : (xs : List ℕ) → same_bytes xs xs ≡ true
same_bytes_refl [] = refl
same_bytes_refl (x ∷ xs) = ground (arith, same_bytes_refl xs)

words-Eights :
    (n : ℕ) (p : List ℕ) → length p ≡ 8 * n → Eights (words n p) × (length (words n p) ≡ n)
unfolding Eights
words-Eights zero p e = (tt, refl)
words-Eights (suc n) p e =
    let (eights, count) = words-Eights n (drop 8 p) (omega (arith, e, length-drop 8 p)) in
    ((omega (arith, length-take 8 p, e), eights), omega (arith, count))

words-AllBytes : (n : ℕ) (p : List ℕ) → AreBytes p → AllBytes (words n p)
unfolding AllBytes
words-AllBytes zero p v = tt
words-AllBytes (suc n) p v =
    (AreBytes-take 8 p v, words-AllBytes n (drop 8 p) (AreBytes-drop 8 p v))

joined-words : (n : ℕ) (p : List ℕ) → length p ≡ 8 * n → joined (words n p) ≡ p
joined-words zero [] e = refl
joined-words zero (x ∷ p) e = absurd (omega (arith, e))
joined-words (suc n) p e =
    ap (λ ys. take 8 p ++ ys) (joined-words n (drop 8 p) (omega (arith, e, length-drop 8 p)))
    ∙ take-append-drop 8 p

words-joined : (rs : List (List ℕ)) (n : ℕ) → Eights rs → length rs ≡ n → words n (joined rs) ≡ rs
unfolding Eights
words-joined [] zero f e = refl
words-joined [] (suc n) f e = absurd (omega (arith, e))
words-joined (r ∷ rs) zero f e = absurd (omega (arith, e))
words-joined (r ∷ rs) (suc n) (size, f) e =
    ap₂ (λ w ws. w ∷ ws) (take-append r (joined rs) 8 size)
      (ap (words n) (drop-append r (joined rs) 8 size) ∙ words-joined rs n f (omega (arith, e)))

length-joined : (rs : List (List ℕ)) → Eights rs → length (joined rs) ≡ 8 * length rs
unfolding Eights
length-joined [] f = refl
length-joined (r ∷ rs) (size, f) =
    omega (arith, length-append r (joined rs), size, length-joined rs f)

abbrev in_eights : ℕ → Bool
in_eights n = bit_and (8 + 8 * n) 7 == 0

eights_table : holds_from in_eights 0 32 ≡ true
unfolding holds_from
eights_table = refl

eight_times : (n k : ℕ) → n ≤ 32 → k ≡ 8 + 8 * n → (bit_and k 7 == 0) ≡ true
eight_times n k h e =
    ap (λ j. bit_and j 7 == 0) e
    ∙ table_entry in_eights 0 32 n eights_table (omega arith) (omega arith)

wrap-parts :
    (encrypt : (key block : List ℕ) → List ℕ) (kek plain : List ℕ) (n : ℕ)
    → length plain ≡ 8 * n
    → let s = wrap_rounds encrypt 6 n kek wrap_iv (words n plain) in
      wrap encrypt kek plain ≡ s.0 ++ joined s.1
unfolding wrap
wrap-parts encrypt kek plain n e =
    ap (λ m. (let s = wrap_rounds encrypt 6 m kek wrap_iv (words m plain) in s.0 ++ joined s.1))
      {x = length plain / 8} {y = n} (omega (arith, e))

unwrap-parts :
    (c : Cipher) (kek input a : List ℕ) (rs plain : List (List ℕ)) (n : ℕ)
    → length input ≡ 8 + 8 * n
    → 0 < n
    → n ≤ 32
    → take 8 input ≡ a
    → words n (drop 8 input) ≡ rs
    → unwrap_rounds 6 c kek a rs ≡ (wrap_iv, plain)
    → aes_unwrap_128 c kek input ≡ some (joined plain)
unfolding aes_unwrap_128
unwrap-parts c kek input a rs plain n e pos small first others done =
    let long : (ltb (length input) 16 || not (bit_and (length input) 7 == 0)) ≡ false =
      ground (arith, eight_times n (length input) small e) in
    let count : length input / 8 - 1 ≡ n = omega (arith, e) in
    let fits : (n == 0 || ltb 32 n) ≡ false = ground arith in
    let all : unwrap_rounds 6 c kek (take 8 input) (words n (drop 8 input)) ≡ (wrap_iv, plain) =
      ap₂ (unwrap_rounds 6 c kek) first others ∙ done in
    rw long (rw count (rw fits (rw all refl)))

-- Unwrapping undoes the wrapping with any encryption of blocks of bytes that the program's cipher
-- undoes.
pub unwrap-wrap :
    (c : Cipher) (encrypt : (key block : List ℕ) → List ℕ) (kek plain : List ℕ) (n : ℕ)
    → ((key block : List ℕ)
        → IsBlock key
        → IsBlock block
        → c.aes128_decrypt_block key (encrypt key block) ≡ block)
    → ((key block : List ℕ) → IsBlock key → IsBlock block → IsBlock (encrypt key block))
    → IsBlock kek
    → AreBytes plain
    → length plain ≡ 8 * n
    → 0 < n
    → n ≤ 32
    → aes_unwrap_128 c kek (wrap encrypt kek plain) ≡ some plain
unwrap-wrap c encrypt kek plain n decrypts sized k v e pos small =
    let (eights, count) = words-Eights n plain e in
    let (back, size, out, many, _, _) =
      unwrap-wrap_rounds c encrypt decrypts sized kek k 6 n wrap_iv (words n plain) refl eights
        count (omega arith) (words-AllBytes n plain v) in
    let a : List ℕ = (wrap_rounds encrypt 6 n kek wrap_iv (words n plain)).0 in
    let rs : List (List ℕ) = (wrap_rounds encrypt 6 n kek wrap_iv (words n plain)).1 in
    ap (aes_unwrap_128 c kek) (wrap-parts encrypt kek plain n e)
    ∙ unwrap-parts c kek (a ++ joined rs) a rs (words n plain) n
        (omega (arith, length-append a (joined rs), length-joined rs out, size, many)) pos small
        (take-append a (joined rs) 8 size)
        (ap (words n) (drop-append a (joined rs) 8 size) ∙ words-joined rs n out many) back
    ∙ ap some (joined-words n plain e)
