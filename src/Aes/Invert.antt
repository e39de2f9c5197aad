-- ===== src/Aes/Invert.antt =====
-- `aes128_decrypt_block` of src/kext/RTW88IEEE80211.cpp against the cipher of FIPS 197.
use airport_rtw.Base.{ℕ, zero, suc, ◌≤◌, ◌≡◌, refl, ap, ap₂, sym, ◌∙◌, arith, List, take, take-all}
use airport_rtw.Wpa.{xor_bytes}
use airport_rtw.Wpa.Xor.{xor_bytes-twice, length-xor_bytes}
use airport_rtw.Aes.{
  aes_inv_shift_rows, aes_inv_sub_bytes, aes_inv_mix_columns, round_key_at, decrypt_rounds,
  decrypt_under, aes128_key_expand, aes128_decrypt_block,
}
use airport_rtw.Aes.Block.{
  AreBytes, IsBlock, shift_rows, sub_bytes, mix_columns, inv_shift_rows-shift_rows,
  inv_sub_bytes-sub_bytes, sub_bytes-IsBlock, xor_bytes-AreBytes, shift_rows-IsBlock,
  mix_columns-IsBlock, inv_mix_columns-mix_columns,
}
use airport_rtw.Aes.Fips.{fips_round_key}
use airport_rtw.Aes.Schedule.{round_key-AreBytes}
use airport_rtw.Aes.Expand.{round_key-fips}

-- FIPS 197: the state after so many full rounds, and the cipher, with the keys of the rounds.
unfoldable pub encrypt_rounds : (keys : ℕ → List ℕ) → (round : ℕ) → (block : List ℕ) → List ℕ
unfolding shift_rows sub_bytes mix_columns xor_bytes
encrypt_rounds keys zero block = xor_bytes block (keys 0)
encrypt_rounds keys (suc round) block =
    xor_bytes (mix_columns (shift_rows (sub_bytes (encrypt_rounds keys round block))))
      (keys (suc round))

unfoldable pub encrypt_with : (keys : ℕ → List ℕ) → (block : List ℕ) → List ℕ
unfolding encrypt_rounds shift_rows sub_bytes xor_bytes
encrypt_with keys block = xor_bytes (shift_rows (sub_bytes (encrypt_rounds keys 9 block))) (keys 10)

unfoldable pub aes128_encrypt_block : (key block : List ℕ) → List ℕ
unfolding encrypt_with fips_round_key
aes128_encrypt_block key block = encrypt_with (fips_round_key key) block

-- Only the keys up to the last round matter.
encrypt_rounds-keys :
    (k l : ℕ → List ℕ) (n : ℕ) (block : List ℕ)
    → ((i : ℕ) → i ≤ n → k i ≡ l i)
    → encrypt_rounds k n block ≡ encrypt_rounds l n block
unfolding encrypt_rounds
encrypt_rounds-keys k l zero block same = ap (xor_bytes block) (same 0 (omega arith))
encrypt_rounds-keys k l (suc n) block same =
    ap₂ (λ s key. xor_bytes (mix_columns (shift_rows (sub_bytes s))) key)
      (encrypt_rounds-keys k l n block (λ i h. same i (omega (arith, h))))
      (same (suc n) (omega arith))

encrypt_with-keys :
    (k l : ℕ → List ℕ) (block : List ℕ)
    → ((i : ℕ) → i ≤ 10 → k i ≡ l i)
    → encrypt_with k block ≡ encrypt_with l block
unfolding encrypt_with
encrypt_with-keys k l block same =
    ap₂ (λ s key. xor_bytes (shift_rows (sub_bytes s)) key)
      (encrypt_rounds-keys k l 9 block (λ i h. same i (omega (arith, h)))) (same 10 (omega arith))

module _ (rk : List ℕ) (keys : (round : ℕ) → AreBytes (round_key_at round rk)) where
  abbrev keys_of : ℕ → List ℕ
  keys_of round = round_key_at round rk

  added-IsBlock :
      (s : List ℕ) (round : ℕ) → IsBlock s → IsBlock (xor_bytes s (round_key_at round rk))
  added-IsBlock s round (e, v) = (
    length-xor_bytes s (round_key_at round rk) ∙ e,
    xor_bytes-AreBytes s (round_key_at round rk) v (keys round),
  )

  boxed-IsBlock : (s : List ℕ) → IsBlock s → IsBlock (sub_bytes s)
  boxed-IsBlock s (e, v) = let (w, f) = sub_bytes-IsBlock s v in (f ∙ e, w)

  encrypt_rounds-IsBlock :
      (round : ℕ) (block : List ℕ) → IsBlock block → IsBlock (encrypt_rounds keys_of round block)
  unfolding encrypt_rounds
  encrypt_rounds-IsBlock zero block b = added-IsBlock block 0 b
  encrypt_rounds-IsBlock (suc round) block b =
      let s = encrypt_rounds keys_of round block in
      let turned =
        shift_rows-IsBlock (sub_bytes s) (boxed-IsBlock s (encrypt_rounds-IsBlock round block b)) in
      added-IsBlock (mix_columns (shift_rows (sub_bytes s))) (suc round)
        (mix_columns-IsBlock (shift_rows (sub_bytes s)) turned)

  -- The rows and the bytes, undone.
  unturned :
      (s : List ℕ)
      → IsBlock s
      → aes_inv_sub_bytes (aes_inv_shift_rows (shift_rows (sub_bytes s))) ≡ s
  unturned s (e, v) =
      ap aes_inv_sub_bytes (inv_shift_rows-shift_rows (sub_bytes s) ((boxed-IsBlock s (e, v)).0))
      ∙ inv_sub_bytes-sub_bytes s v

  rounds_back :
      (round : ℕ) (block : List ℕ)
      → IsBlock block
      → decrypt_rounds round rk (shift_rows (sub_bytes (encrypt_rounds keys_of round block)))
        ≡ shift_rows (sub_bytes (encrypt_rounds keys_of 0 block))
  unfolding decrypt_rounds encrypt_rounds
  rounds_back zero block b = refl
  rounds_back (suc round) block b =
      let s = encrypt_rounds keys_of round block in
      let c = shift_rows (sub_bytes s) in
      let k = round_key_at (suc round) rk in
      let whole = encrypt_rounds-IsBlock round block b in
      let turned = shift_rows-IsBlock (sub_bytes s) (boxed-IsBlock s whole) in
      let mixes = mix_columns-IsBlock c turned in
      ap (λ t. decrypt_rounds round rk (aes_inv_mix_columns (xor_bytes t k)))
        (unturned (xor_bytes (mix_columns c) k) (added-IsBlock (mix_columns c) (suc round) mixes))
      ∙ ap (λ t. decrypt_rounds round rk (aes_inv_mix_columns t))
          (xor_bytes-twice (mix_columns c) k)
      ∙ ap (decrypt_rounds round rk) (inv_mix_columns-mix_columns c turned)
      ∙ rounds_back round block b

  decrypt_back :
      (block : List ℕ) → IsBlock block → decrypt_under rk (encrypt_with keys_of block) ≡ block
  unfolding decrypt_under encrypt_with encrypt_rounds
  decrypt_back block b =
      let s9 = encrypt_rounds keys_of 9 block in
      let c = shift_rows (sub_bytes s9) in
      let turned =
        shift_rows-IsBlock (sub_bytes s9) (boxed-IsBlock s9 (encrypt_rounds-IsBlock 9 block b)) in
      let cut : take 16 (xor_bytes c (round_key_at 10 rk)) ≡ xor_bytes c (round_key_at 10 rk) =
        take-all 16 (xor_bytes c (round_key_at 10 rk))
          (omega (arith, (added-IsBlock c 10 turned).0)) in
      let last = λ (t : List ℕ).
        xor_bytes
          (aes_inv_sub_bytes
            (aes_inv_shift_rows (decrypt_rounds 9 rk (xor_bytes t (round_key_at 10 rk)))))
          (round_key_at 0 rk) in
      ap last cut
      ∙ ap
          (λ t.
            xor_bytes (aes_inv_sub_bytes (aes_inv_shift_rows (decrypt_rounds 9 rk t)))
              (round_key_at 0 rk))
          (xor_bytes-twice c (round_key_at 10 rk))
      ∙ ap (λ t. xor_bytes (aes_inv_sub_bytes (aes_inv_shift_rows t)) (round_key_at 0 rk))
          (rounds_back 9 block b)
      ∙ ap (λ t. xor_bytes t (round_key_at 0 rk))
          (unturned (xor_bytes block (round_key_at 0 rk)) (added-IsBlock block 0 b))
      ∙ xor_bytes-twice block (round_key_at 0 rk)

  encrypt_with-IsBlock : (block : List ℕ) → IsBlock block → IsBlock (encrypt_with keys_of block)
  unfolding encrypt_with
  encrypt_with-IsBlock block b =
      let s9 = encrypt_rounds keys_of 9 block in
      added-IsBlock (shift_rows (sub_bytes s9)) 10
        (shift_rows-IsBlock (sub_bytes s9) (boxed-IsBlock s9 (encrypt_rounds-IsBlock 9 block b)))

-- The cipher with the program's round keys.
encrypt-expanded :
    (key block : List ℕ)
    → IsBlock key
    → aes128_encrypt_block key block
      ≡ encrypt_with (λ round. round_key_at round (aes128_key_expand key)) block
unfolding aes128_encrypt_block
encrypt-expanded key block k =
    encrypt_with-keys (fips_round_key key) (λ round. round_key_at round (aes128_key_expand key))
      block (λ i h. sym (round_key-fips key i k h))

pub encrypt-IsBlock :
    (key block : List ℕ) → IsBlock key → IsBlock block → IsBlock (aes128_encrypt_block key block)
encrypt-IsBlock key block k b = rw (encrypt-expanded key block k) (
    encrypt_with-IsBlock (aes128_key_expand key) (λ round. round_key-AreBytes key round k.1) block
      b)

-- Decrypting a block that the cipher of FIPS 197 has made, with the key expansion, the S-box and
-- the field of that standard, gives it back, for every key and every block of sixteen bytes.
pub decrypt-encrypt :
    (key block : List ℕ)
    → IsBlock key
    → IsBlock block
    → aes128_decrypt_block key (aes128_encrypt_block key block) ≡ block
unfolding aes128_decrypt_block
decrypt-encrypt key block k b =
    ap (aes128_decrypt_block key) (encrypt-expanded key block k)
    ∙ decrypt_back (aes128_key_expand key) (λ round. round_key-AreBytes key round k.1) block b
