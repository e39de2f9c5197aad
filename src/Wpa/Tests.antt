-- ===== src/Wpa/Tests.antt =====
-- The theorems on WPA2 keys with a toy cipher: the code repeats the key, and a block is its own
-- encryption.
use airport_rtw.Base.{◌≡◌, refl, [], ◌∷◌, ◌++◌, length, replicate, drop, true, false, some, arith}
use airport_rtw.Wpa.{Cipher, eapol_mic_ok, eapol_key_frame, extract_gtk_from_kde, tkip}
use airport_rtw.Wpa.Frame.{eapol_mic_ok-key_frame}
use airport_rtw.Wpa.Kde.{Kde, all_bytes, kde_bytes, gtk_kde, extract-gtk_kde}

abbrev flat : Cipher
flat = record {
  hmac_sha1 = λ key text. replicate 20 (length text);
  aes128_decrypt_block = λ key block. block;
}

eapol_mic_ok-key_frame_example :
    eapol_mic_ok flat true (replicate 16 4) (
      drop 14 (
        eapol_key_frame flat 2 false false true
          (replicate 8 1)
          (replicate 32 2)
          (replicate 16 4)
          (replicate 6 3)
          (replicate 6 5)
          tkip))
    ≡ true
eapol_mic_ok-key_frame_example =
    eapol_mic_ok-key_frame flat 2 false false (replicate 8 1) (replicate 32 2) (replicate 16 4)
      (replicate 6 3) (replicate 6 5) tkip (λ key text. refl) refl refl refl refl

abbrev other_kde : Kde
other_kde = record { id = 0xdd; body = 0x00 ∷ 0x50 ∷ 0xf2 ∷ 0x01 ∷ 9 ∷ 9 ∷ [] }

extract-gtk_kde_example :
    extract_gtk_from_kde
      (all_bytes (other_kde ∷ []) ++ (kde_bytes (gtk_kde 5 (replicate 16 6)) ++ (0xdd ∷ 0 ∷ [])))
    ≡ some (record { idx = 1; bytes = replicate 16 6 })
extract-gtk_kde_example =
    extract-gtk_kde (other_kde ∷ []) 5 (replicate 16 6) (0xdd ∷ 0 ∷ []) (refl, tt) (omega arith)
