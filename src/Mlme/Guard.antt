-- ===== src/Mlme/Guard.antt =====
-- What an EAPOL frame must be to open the link.
use airport_rtw.Base.{
  ℕ, ◌+◌, Bool, true, false, not, ◌&&◌, ◌||◌, List, ◌≡◌, ◌≢◌, refl, ◌∙◌, sym, arith, ◌==◌, ltb,
  length, take, get_or,
}
use airport_rtw.Wpa.{Cipher, eapol_mic_ok}
use airport_rtw.Mlme.{handshaking, connected, is, Engine}
use airport_rtw.Mlme.Handshake.{EapolHw, be16_at, is_m1, is_m3, handle_m1, handle_m3, handle_eapol}
use airport_rtw.Mlme.Rx.{rx_eapol}
use airport_rtw.Mlme.Keep.Link.{either, not-true}

module _ (c : Cipher) (hw : EapolHw) (text : List ℕ) where
  -- The frame is a message 3 with the code that the key confirmation key gives.
  abbrev pub IsProven : Engine → Type 0
  IsProven e =
      (is_m3 (be16_at 5 text) ≡ true)
      × (eapol_mic_ok c hw.granted (take 16 e.ptk) (take (4 + be16_at 2 text) text) ≡ true)

  Opens : Engine → Engine → Type 0
  Opens e x = x.state ≡ connected → IsProven e

  shut : (e x : Engine) → e.state ≢ connected → x.state ≡ e.state → Opens e x
  unfolding Opens
  shut e x off same = λ at. absurd (off (sym same ∙ at))

  proven : (e x : Engine) → IsProven e → Opens e x
  unfolding Opens
  proven e x p = λ at. p

  handle_m1-Opens : (e : Engine) → e.state ≢ connected → Opens e (handle_m1 c hw text e)
  unfolding handle_m1
  handle_m1-Opens e off =
      shut e _ off (either (λ (x : Engine). x.state ≡ e.state) hw.sends _ _ (λ _. refl) (λ _. refl))

  handle_m3-Opens :
      (e : Engine)
      → e.state ≢ connected
      → is_m3 (be16_at 5 text) ≡ true
      → Opens e (handle_m3 c hw (be16_at 5 text) (4 + be16_at 2 text) text e)
  unfolding handle_m3
  handle_m3-Opens e off m3 =
      either (Opens e)
        (not (eapol_mic_ok c hw.granted (take 16 e.ptk) (take (4 + be16_at 2 text) text))) _ _
        (λ _. shut e e off refl) (λ ok. proven e _ (m3, not-true _ ok))

  handle_eapol-Opens : (e : Engine) → e.state ≢ connected → Opens e (handle_eapol c hw text e)
  unfolding handle_eapol
  handle_eapol-Opens e off =
      either (Opens e) (ltb (length text) 99 || not (get_or text 1 0 == 3)) _ _
        (λ _. shut e e off refl)
        (λ _.
          either (Opens e) (ltb (length text) (4 + be16_at 2 text) || ltb (4 + be16_at 2 text) 99) _
            _ (λ _. shut e e off refl)
            (λ _.
              either (Opens e) (is_m1 (be16_at 5 text)) _ _ (λ _. handle_m1-Opens e off)
                (λ _.
                  either (Opens e) (is_m3 (be16_at 5 text)) _ _ (λ m3. handle_m3-Opens e off m3)
                    (λ _. shut e e off refl))))

  both : (a b : Bool) → (a && not b) ≡ true → (a ≡ true) × (b ≡ false)
  both a b h = (ground (arith, h), ground (arith, h))

  -- What the frame and the station must be for the link to open.
  Lets : Engine → Engine → Type 0
  Lets e x =
      x.state ≡ connected → (is e.state handshaking ≡ true) × (e.external ≡ false) × IsProven e

  opened_by :
      (e x : Engine) → (is e.state handshaking && not e.external) ≡ true → Opens e x → Lets e x
  unfolding Lets Opens
  opened_by e x may o = λ at.
      (let (own, none_other) = both (is e.state handshaking) e.external may in
        (own, none_other, o at))

  keeps : (e : Engine) → e.state ≢ connected → Lets e e
  unfolding Lets
  keeps e off = λ at. absurd (off at)

  Lets-rx_eapol : (e : Engine) → e.state ≢ connected → Lets e (rx_eapol c hw text e)
  unfolding rx_eapol
  Lets-rx_eapol e off =
      either (Lets e) (is e.state handshaking && not e.external) _ _
        (λ may. opened_by e _ may (handle_eapol-Opens e off)) (λ _. keeps e off)

  -- An EAPOL frame makes a station connected that was not, only if the station shakes hands itself,
  -- and only if the frame is a message 3 whose integrity code is the one under the station's key
  -- confirmation key.
  pub rx_eapol-IsProven :
      (e : Engine)
      → e.state ≢ connected
      → (rx_eapol c hw text e).state ≡ connected
      → (is e.state handshaking ≡ true) × (e.external ≡ false) × IsProven e
  unfolding Lets
  rx_eapol-IsProven e off at = Lets-rx_eapol e off at
