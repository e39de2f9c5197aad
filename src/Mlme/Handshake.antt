-- ===== src/Mlme/Handshake.antt =====
-- The 4-way handshake of WPA2, as the station does it.
use Prim.Native.Nat.{bit_and}
use airport_rtw.Base.{
  ℕ, ◌+◌, ◌*◌, ◌^◌, Bool, true, false, not, ◌&&◌, ◌||◌, Option, none, some, List, [], ◌∷◌, ◌==◌,
  ltb, if◌then◌else◌, length, take, drop, get_or,
}
use airport_rtw.Wpa.{
  Cipher, Gtk, ccmp, tkip, derive_ptk, eapol_mic_ok, aes_unwrap_128, extract_gtk_from_kde,
  eapol_key_frame,
}
use airport_rtw.Mlme.{connected, send_eapol, link_status, Engine, emit, start_tx_aggregation}
use airport_rtw.Mlme.Link.{KeyHw, install_key}

-- What the handler meets: the random nonce, memory for the check of the integrity code, memory for
-- the mbuf of the answer, and the two keys.
pub record EapolHw : Type 0 where
  pub random : List ℕ
  pub granted : Bool
  pub sends : Bool
  pub pairwise : KeyHw
  pub group : KeyHw

abbrev pub be16_at : ℕ → List ℕ → ℕ
be16_at i p = get_or p i 0 * 2 ^ 8 + get_or p (i + 1) 0

abbrev pub has_bits : (info bits value : ℕ) → Bool
has_bits info bits value = bit_and info bits == value

abbrev pub is_m1 : ℕ → Bool
is_m1 info = has_bits info 0x0088 0x0088 && has_bits info 0x0100 0

abbrev pub is_m3 : ℕ → Bool
is_m3 info = has_bits info 0x01c8 0x01c8

-- `sendEAPOLKey`, with an integrity code.
abbrev pub send_eapol_key : Cipher → (sends : Bool) → (step : ℕ) → Engine → Engine
send_eapol_key c sends step e =
    if sends
    then emit
        (send_eapol (
          eapol_key_frame c step false false true e.replay e.snonce (take 16 e.ptk) e.target.bssid
            e.mac e.target.group_cipher))
        e
    else e

-- Message 1.
unfoldable pub handle_m1 : Cipher → EapolHw → (text : List ℕ) → Engine → Engine
handle_m1 c hw text e =
    let anonce = take 32 (drop 17 text) in
    let e1 = record e {
      anonce = anonce;
      snonce = hw.random;
      ptk = derive_ptk c e.pmk anonce hw.random e.mac e.target.bssid;
      replay = take 8 (drop 9 text);
    } in
    record (send_eapol_key c hw.sends 2 e1) { timer = true }

-- The key data of message 3, unwrapped where it is wrapped. `none` where that fails.
abbrev pub plain_key_data : Cipher → (info : ℕ) → (ptk key_data : List ℕ) → Option (List ℕ)
plain_key_data c info ptk key_data =
    if has_bits info 0x1000 0
    then some key_data
    else aes_unwrap_128 c (take 16 (drop 16 ptk)) key_data

abbrev pub gtk_in : Option (List ℕ) → Option (Option Gtk)
gtk_in none = none
gtk_in (some []) = some none
gtk_in (some (x ∷ p)) = some (extract_gtk_from_kde (x ∷ p))

abbrev pub group_key_cipher : ℕ → ℕ
group_key_cipher suite = if suite == tkip then tkip else ccmp

abbrev pub install_gtk : KeyHw → Option Gtk → Engine → Bool × Engine
install_gtk hw none e = (true, e)
install_gtk hw (some g) e =
    if length g.bytes == 0
    then (true, e)
    else install_key hw false g.idx (group_key_cipher e.target.group_cipher) g.bytes e

-- Message 3 from the keys on.
unfoldable pub install_keys : Cipher → EapolHw → (text : List ℕ) → Option Gtk → Engine → Engine
install_keys c hw text gtk e =
    let e1 = record e { replay = take 8 (drop 9 text) } in
    let (paired, e2) = install_key hw.pairwise true 0 ccmp (take 16 (drop 32 e1.ptk)) e1 in
    if not paired
    then e2
    else let (grouped, e3) = install_gtk hw.group gtk e2 in
      if not grouped
      then e3
      else let e4 = record (send_eapol_key c hw.sends 4 e3) { state = connected; timer = false } in
        start_tx_aggregation (emit (link_status true) e4)

abbrev pub installed : Cipher → EapolHw → (text : List ℕ) → Option (Option Gtk) → Engine → Engine
installed c hw text none e = e
installed c hw text (some gtk) e = install_keys c hw text gtk e

-- Message 3.
unfoldable pub handle_m3 :
    Cipher → EapolHw → (info eapol_len : ℕ) → (text : List ℕ) → Engine → Engine
unfolding install_keys
handle_m3 c hw info eapol_len text e =
    let key_data_len = be16_at 97 text in
    if not (eapol_mic_ok c hw.granted (take 16 e.ptk) (take eapol_len text))
    then e
    else if ltb eapol_len (99 + key_data_len)
    then e
    else let key_data = take key_data_len (drop 99 text) in
      let plain = if key_data_len == 0 then some [] else plain_key_data c info e.ptk key_data in
      installed c hw text (gtk_in plain) e

-- `handleEAPOL`
unfoldable pub handle_eapol : Cipher → EapolHw → (text : List ℕ) → Engine → Engine
unfolding handle_m1 handle_m3
handle_eapol c hw text e =
    let eapol_len = 4 + be16_at 2 text in
    let info = be16_at 5 text in
    if ltb (length text) 99 || not (get_or text 1 0 == 3)
    then e
    else if ltb (length text) eapol_len || ltb eapol_len 99
    then e
    else if is_m1 info
    then handle_m1 c hw text e
    else if is_m3 info
    then handle_m3 c hw info eapol_len text e
    else e
