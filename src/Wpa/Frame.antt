-- ===== src/Wpa/Frame.antt =====
-- The integrity code of the EAPOL-Key frames that `sendEAPOLKey` of
-- src/kext/RTW88IEEE80211.cpp builds.
use airport_rtw.Base.{
  ℕ, ◌≡◌, refl, ap, ap₂, sym, ◌∙◌, arith, List, [], ◌∷◌, ◌++◌, length, take, drop, replicate, Bool,
  true, false, length-append, length-take, append_assoc, ltb, ◌||◌, not,
}
use airport_rtw.Wpa.{
  Cipher, eapol_key_frame, eapol_mic_ok, eapol_head, eapol_with, eapol_tail, key_info, key_data_of,
  same_bytes,
}
use airport_rtw.Wpa.Unwrap.{take-append, drop-append, same_bytes_refl}

length-eapol_head :
    (info data_len : ℕ) (replay snonce : List ℕ)
    → length replay ≡ 8
    → length snonce ≡ 32
    → length (eapol_head info data_len replay snonce) ≡ 81
unfolding eapol_head
length-eapol_head info data_len replay snonce e f = omega (
  arith,
  length-append replay (snonce ++ replicate 32 0),
  length-append snonce (replicate 32 0),
  e,
  f,
)

-- A frame whose code is the one of the frame with zeros in its place passes the check.
mic_ok-with :
    (c : Cipher) (kck code head key_data : List ℕ)
    → length head ≡ 81
    → length code ≡ 16
    → code ≡ take 16 (c.hmac_sha1 kck (eapol_with (replicate 16 0) head key_data))
    → eapol_mic_ok c true kck (eapol_with code head key_data) ≡ true
unfolding eapol_mic_ok
mic_ok-with c kck code head key_data size width e =
    let tail : List ℕ = eapol_tail key_data in
    let frame : List ℕ = head ++ (code ++ tail) in
    let long : (ltb (length frame) 99 || not true) ≡ false =
      ground (arith, length-append head (code ++ tail), length-append code tail, size, width) in
    let front : take 81 frame ≡ head = take-append head (code ++ tail) 81 size in
    let rest : drop 81 frame ≡ code ++ tail = drop-append head (code ++ tail) 81 size in
    let received : take 16 (drop 81 frame) ≡ code =
      ap (take 16) rest ∙ take-append code tail 16 width in
    let last : drop 97 frame ≡ tail =
      ap (drop 97) (sym (append_assoc head code tail))
      ∙ drop-append (head ++ code) tail 97 (omega (arith, length-append head code, size, width)) in
    rw long (
      ap₂ same_bytes received
        (ap₂ (λ x y. take 16 (c.hmac_sha1 kck (x ++ (replicate 16 0 ++ y)))) front last ∙ sym e)
      ∙ same_bytes_refl code)

-- The frame that goes out with an integrity code passes the check that a received one must pass,
-- under the same key confirmation key, if memory is granted and HMAC-SHA1 gives 20 bytes, for a
-- replay counter of 8 bytes, a nonce of 32 and addresses of 6.
pub eapol_mic_ok-key_frame :
    (c : Cipher) (step : ℕ) (install ack : Bool) (replay snonce kck bssid mac : List ℕ)
    (group_cipher : ℕ)
    → ((key text : List ℕ) → length (c.hmac_sha1 key text) ≡ 20)
    → length replay ≡ 8
    → length snonce ≡ 32
    → length bssid ≡ 6
    → length mac ≡ 6
    → eapol_mic_ok c true kck
        (drop 14 (eapol_key_frame c step install ack true replay snonce kck bssid mac group_cipher))
      ≡ true
unfolding eapol_key_frame
eapol_mic_ok-key_frame c step install ack replay snonce kck bssid mac group_cipher sized e f g h =
    let key_data : List ℕ = key_data_of step group_cipher in
    let head : List ℕ =
      eapol_head (key_info step install ack true) (length key_data) replay snonce in
    let text : List ℕ = eapol_with (replicate 16 0) head key_data in
    let code : List ℕ = take 16 (c.hmac_sha1 kck text) in
    ap (eapol_mic_ok c true kck) (
      drop-append (bssid ++ (mac ++ (0x88 ∷ 0x8e ∷ []))) (eapol_with code head key_data) 14 (
        omega (
          arith,
          length-append bssid (mac ++ (0x88 ∷ 0x8e ∷ [])),
          length-append mac (0x88 ∷ 0x8e ∷ []),
          g,
          h,
        )))
    ∙ mic_ok-with c kck code head key_data
        (length-eapol_head (key_info step install ack true) (length key_data) replay snonce e f)
        (omega (arith, length-take 16 (c.hmac_sha1 kck text), sized kck text)) refl
