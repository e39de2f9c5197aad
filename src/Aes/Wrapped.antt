-- ===== src/Aes/Wrapped.antt =====
-- `aes_unwrap_128` of src/kext/RTW88IEEE80211.cpp with the block cipher of the same file.
use airport_rtw.Base.{ℕ, ◌*◌, ◌<◌, ◌≤◌, ◌≡◌, List, length, some}
use airport_rtw.Wpa.{Cipher, aes_unwrap_128}
use airport_rtw.Wpa.Unwrap.{wrap, unwrap-wrap}
use airport_rtw.Aes.{aes128_decrypt_block as decrypt_block}
use airport_rtw.Aes.Block.{AreBytes, IsBlock}
use airport_rtw.Aes.Invert.{aes128_encrypt_block, encrypt-IsBlock, decrypt-encrypt}

-- The program's own block cipher.
abbrev pub with_aes : Cipher → Cipher
with_aes c = record c { aes128_decrypt_block = decrypt_block }

-- Unwrapping, with the program's own block cipher, a key that the other side wrapped by RFC 3394
-- with the cipher of FIPS 197 gives it back, for a wrapping key of sixteen bytes and a key of 1 to 32
-- words of eight bytes.
pub aes_unwrap_128-wrap :
    (c : Cipher) (kek plain : List ℕ) (n : ℕ)
    → IsBlock kek
    → AreBytes plain
    → length plain ≡ 8 * n
    → 0 < n
    → n ≤ 32
    → aes_unwrap_128 (with_aes c) kek (wrap aes128_encrypt_block kek plain) ≡ some plain
aes_unwrap_128-wrap c kek plain n k v e pos small =
    unwrap-wrap (with_aes c) aes128_encrypt_block kek plain n decrypt-encrypt encrypt-IsBlock k v e
      pos small
