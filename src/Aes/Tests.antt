-- ===== src/Aes/Tests.antt =====
-- The block cipher of src/kext/RTW88IEEE80211.cpp at the example of FIPS 197.
use airport_rtw.Base.{ℕ, ◌≡◌, refl, arith, List, [], ◌∷◌, ◌++◌, some}
use airport_rtw.Aes.{aes128_decrypt_block}
use airport_rtw.Aes.Fips.{fips_sbox, round_constant}
use airport_rtw.Wpa.{Cipher, aes_unwrap_128}
use airport_rtw.Wpa.Unwrap.{wrap}
use airport_rtw.Aes.Wrapped.{with_aes, aes_unwrap_128-wrap}
use airport_rtw.Aes.Invert.{aes128_encrypt_block, decrypt-encrypt}

abbrev counted : List ℕ
counted =
    0x00 ∷ 0x01 ∷ 0x02 ∷ 0x03 ∷ 0x04 ∷ 0x05 ∷ 0x06 ∷ 0x07 ∷ 0x08 ∷ 0x09 ∷ 0x0a ∷ 0x0b ∷ 0x0c ∷ 0x0d
    ∷ 0x0e ∷ 0x0f ∷ []

abbrev plain : List ℕ
plain =
    0x00 ∷ 0x11 ∷ 0x22 ∷ 0x33 ∷ 0x44 ∷ 0x55 ∷ 0x66 ∷ 0x77 ∷ 0x88 ∷ 0x99 ∷ 0xaa ∷ 0xbb ∷ 0xcc ∷ 0xdd
    ∷ 0xee ∷ 0xff ∷ []

abbrev secret : List ℕ
secret =
    0x69 ∷ 0xc4 ∷ 0xe0 ∷ 0xd8 ∷ 0x6a ∷ 0x7b ∷ 0x04 ∷ 0x30 ∷ 0xd8 ∷ 0xcd ∷ 0xb7 ∷ 0x80 ∷ 0x70 ∷ 0xb4
    ∷ 0xc5 ∷ 0x5a ∷ []

fips_example : aes128_decrypt_block counted secret ≡ plain
unfolding aes128_decrypt_block
fips_example = refl

fips_encrypted : aes128_encrypt_block counted plain ≡ secret
unfolding aes128_encrypt_block fips_sbox round_constant
fips_encrypted = refl

decrypt-encrypt_example : aes128_decrypt_block counted (aes128_encrypt_block counted plain) ≡ plain
decrypt-encrypt_example = decrypt-encrypt counted plain (refl, omega arith) (refl, omega arith)

abbrev no_hmac : Cipher
no_hmac = record { hmac_sha1 = λ key text. []; aes128_decrypt_block = λ key block. [] }

aes_unwrap_128-wrap_example :
    aes_unwrap_128 (with_aes no_hmac) counted (wrap aes128_encrypt_block counted (plain ++ plain))
    ≡ some (plain ++ plain)
aes_unwrap_128-wrap_example =
    aes_unwrap_128-wrap no_hmac counted (plain ++ plain) 4 (refl, omega arith) (omega arith) refl
      (omega arith) (omega arith)
