-- ===== src/Mlme/Keep/Rx.antt =====
-- What received frames and the timer do to the state.
use mathlib.Core.Path.{subst}
use airport_rtw.Base.{
  ℕ, ◌+◌, ◌-◌, ◌/◌, ◌^◌, Bool, true, false, not, ◌&&◌, ◌||◌, Option, none, some, List, ◌≡◌, refl,
  ap, sym, ◌∙◌, arith, ◌==◌, ltb, leb, if◌then◌else◌, length, take, drop, get_or,
}
use Prim.Native.Nat.{bit_and}
use airport_rtw.Wpa.{Cipher, Gtk, ccmp, derive_ptk, le16, same_bytes, eapol_mic_ok}
use airport_rtw.Mlme.{
  State, idle, scanning, authenticating, associating, handshaking, connected, disconnecting, is,
  Key, Engine, emit, inject_action, link_status, cancel_hw_scan,
}
use airport_rtw.Mlme.Link.{clear_keys, KeyHw, install_key}
use airport_rtw.Mlme.Join.{auth_response}
use airport_rtw.Mlme.Handshake.{
  EapolHw, be16_at, is_m1, is_m3, send_eapol_key, handle_m1, group_key_cipher, install_gtk,
  install_keys, installed, handle_m3, handle_eapol,
}
use airport_rtw.Mlme.Rx.{
  MgmtHw, handle_back_action, on_link, is_from_target, process_deauth, authenticated, process_auth,
  process_action, process_rx_mgmt, rx_eapol, timed_out, on_timer,
}
use airport_rtw.Mlme.Valid.{
  Core, core, Valid, IsValid, IsGroup, told_key, HasTk, uses_keys, unlinked, unlinked-Valid,
  idle-Valid, left-Valid, handshake-Valid, joined-Valid,
}
use airport_rtw.Mlme.Keep.Link.{
  either, core-if, Valid-from, core-clear_keys, do_disconnect-Valid, Holds, holds, not-true,
  Installs, install_key-Installs,
}
use airport_rtw.Mlme.Keep.Scan.{core-restore}
use airport_rtw.Mlme.Keep.Join.{
  do_associate-Valid, process_assoc_response-Holds, core-start_tx_aggregation,
}

handle_back_action-Holds :
    (granted : Bool) (b : List ℕ) (e : Engine) → IsValid e → Holds (handle_back_action granted b e)
unfolding handle_back_action
handle_back_action-Holds granted b e v =
    either Holds (ltb (length b) 2) _ _ (λ _. holds _ v)
      (λ _.
        either Holds (get_or b 1 0 == 0) _ _
          (λ _. either Holds (ltb (length b) 9) _ _ (λ _. holds _ v) (λ _. holds _ v))
          (λ _.
            either Holds (get_or b 1 0 == 1) _ _
              (λ _.
                either Holds (ltb (length b) 9) _ _ (λ _. holds _ v)
                  (λ _.
                    either Holds
                      ((le16 (drop 3 b) == 0) && (bit_and (le16 (drop 5 b) / 2 ^ 2) 0xf == 0)) _ _
                      (λ _. holds _ v) (λ _. holds _ v)))
              (λ _.
                either Holds (get_or b 1 0 == 2) _ _
                  (λ _. either Holds (ltb (length b) 6) _ _ (λ _. holds _ v) (λ _. holds _ v))
                  (λ _. holds _ v))))

process_deauth-Holds : (f : List ℕ) (e : Engine) → IsValid e → Holds (process_deauth f e)
unfolding process_deauth
process_deauth-Holds f e v =
    either Holds (on_link e && is_from_target f e) _ _
      (λ _. holds _ (
        let e0 : Engine = record e {
          deauth_reason = if ltb (length f) 26 then 0 else le16 (drop 24 f);
        } in
        let t = told_key (clear_keys e0).trace in
        Valid-from (unlinked (core e) t) _
          (ap (λ (k : Core). record k { state = idle; scan_return = idle }) (core-clear_keys e0))
          (unlinked-Valid (core e) t v.here)))
      (λ _. holds _ v)

keyless_authenticating : (s : State) → is s authenticating ≡ true → uses_keys s ≡ false
keyless_authenticating s at = ground (arith, at)

authenticated-Holds :
    (hw : MgmtHw) (o : Option ℕ) (e : Engine)
    → IsValid e
    → is e.state authenticating ≡ true
    → Holds (authenticated hw o e)
authenticated-Holds hw none e v at = holds _ v
authenticated-Holds hw (some status) e v at =
    either Holds (status == 0) _ _
      (λ _. holds _ (do_associate-Valid hw.built hw.sent hw.cancels e v at))
      (λ _. holds _ (idle-Valid (core e) v (keyless_authenticating e.state at)))

and-left : (a b : Bool) → (a && b) ≡ true → a ≡ true
and-left a b h = ground (arith, h)

process_auth-Holds :
    (hw : MgmtHw) (f : List ℕ) (e : Engine) → IsValid e → Holds (process_auth hw f e)
unfolding process_auth
process_auth-Holds hw f e v =
    either Holds (is e.state authenticating && not e.cancelled) _ _
      (λ at.
        authenticated-Holds hw (auth_response f e.mac e.target.bssid) e v
          (and-left (is e.state authenticating) (not e.cancelled) at))
      (λ _. holds _ v)

process_action-Holds :
    (hw : MgmtHw) (f : List ℕ) (e : Engine) → IsValid e → Holds (process_action hw f e)
unfolding process_action
process_action-Holds hw f e v =
    let e1 : Engine = emit (inject_action f) e in
    either Holds
      (is e1.state connected
        && (leb 2 (length f - 24)
            && ((get_or f 24 0 == 3) && same_bytes (take 6 (drop 16 f)) e1.target.bssid)))
      _ _ (λ _. handle_back_action-Holds hw.window (drop 24 f) e1 v) (λ _. holds e1 v)

pub process_rx_mgmt-Holds :
    (c : Cipher) (hw : MgmtHw) (f : List ℕ) (e : Engine)
    → IsValid e
    → Holds (process_rx_mgmt c hw f e)
unfolding process_rx_mgmt
process_rx_mgmt-Holds c hw f e v =
    let subtype = bit_and (get_or f 0 0) 0xf0 in
    either Holds (subtype == 0xb0) _ _ (λ _. process_auth-Holds hw f e v)
      (λ _.
        either Holds ((subtype == 0x10) || (subtype == 0x30)) _ _
          (λ _.
            either Holds (is e.state associating) _ _
              (λ at. process_assoc_response-Holds c hw.granted hw.ht f e v at) (λ _. holds _ v))
          (λ _.
            either Holds ((subtype == 0xa0) || (subtype == 0xc0)) _ _
              (λ _. process_deauth-Holds f e v)
              (λ _.
                either Holds (subtype == 0xd0) _ _ (λ _. process_action-Holds hw f e v)
                  (λ _. holds _ v))))

handle_m1-Holds :
    (c : Cipher) (hw : EapolHw) (text : List ℕ) (e : Engine)
    → IsValid e
    → is e.state handshaking ≡ true
    → Holds (handle_m1 c hw text e)
unfolding handle_m1
handle_m1-Holds c hw text e v at =
    let anonce = take 32 (drop 17 text) in
    let ptk = derive_ptk c e.pmk anonce hw.random e.mac e.target.bssid in
    let e1 : Engine = record e {
      anonce = anonce;
      snonce = hw.random;
      ptk = ptk;
      replay = take 8 (drop 9 text);
    } in
    let k : Core = record (core e) { ptk = ptk } in
    holds _ (
      Valid-from k _ (core-if k hw.sends _ e1 refl refl)
        (handshake-Valid (core e) e.ptk_conf e.gtk_conf (told_key e.trace) ptk v at v.grouped))

-- Whatever comes of the group key, the pairwise one stays with the driver.
core-install_gtk :
    (hw : KeyHw) (g : Option Gtk) (e : Engine)
    → IsGroup e.gtk_conf
    → (o : Option Key) × (core (install_gtk hw g e).1 ≡ record (core e) { gtk_conf = o })
      × IsGroup o
unfolding Installs
core-install_gtk hw none e group = (e.gtk_conf, refl, group)
core-install_gtk hw (some g) e group =
    either
      (λ (p : Bool × Engine).
        (o : Option Key) × (core p.1 ≡ record (core e) { gtk_conf = o }) × IsGroup o)
      (length g.bytes == 0) (true, e)
      (install_key hw false g.idx (group_key_cipher e.target.group_cipher) g.bytes e)
      (λ _. (e.gtk_conf, refl, group))
      (λ _.
        (let (o, t, same, new, keeps) =
            install_key-Installs hw false g.idx (group_key_cipher e.target.group_cipher) g.bytes
              e in
          let (told, stays) = keeps refl group in
          (o, same ∙ ap (λ x. record (core e) { gtk_conf = o; told = x }) told, stays)))

install_keys-Holds :
    (c : Cipher) (hw : EapolHw) (text : List ℕ) (gtk : Option Gtk) (e : Engine)
    → IsValid e
    → is e.state handshaking ≡ true
    → Holds (install_keys c hw text gtk e)
unfolding install_keys Installs
install_keys-Holds c hw text gtk e v at =
    let e1 : Engine = record e { replay = take 8 (drop 9 text) } in
    let tk : List ℕ = take 16 (drop 32 e.ptk) in
    let paired : Bool × Engine = install_key hw.pairwise true 0 ccmp tk e1 in
    let (p, t, same, new, _) = install_key-Installs hw.pairwise true 0 ccmp tk e1 in
    let still : IsGroup paired.1.gtk_conf =
      subst IsGroup (sym (ap (λ (k : Core). k.gtk_conf) same)) v.grouped in
    let grouped : Bool × Engine = install_gtk hw.group gtk paired.1 in
    let (g, same_too, group) = core-install_gtk hw.group gtk paired.1 still in
    let both : core grouped.1 ≡ record (core e) { ptk_conf = p; gtk_conf = g; told = t } =
      same_too ∙ ap (λ (k : Core). record k { gtk_conf = g }) same in
    let k : Core = record (core e) { ptk_conf = p; gtk_conf = g; told = t } in
    let vk : Valid k = handshake-Valid (core e) p g t e.ptk v at group in
    either Holds (not paired.0) _ _
      (λ _. holds _ (
        Valid-from (record (core e) { ptk_conf = p; told = t }) (core paired.1) same
          (handshake-Valid (core e) p e.gtk_conf t e.ptk v at v.grouped)))
      (λ ok.
        either Holds (not grouped.0) _ _ (λ _. holds _ (Valid-from k (core grouped.1) both vk))
          (λ _.
            (let done = new (not-true paired.0 ok) in
              let tk_in : HasTk k = (
                record { pairwise = true; keyidx = 0; cipher = ccmp; key = tk },
                done.0,
                refl,
                refl,
                done.1 refl,
              ) in
              let e4 : Engine = record (send_eapol_key c hw.sends 4 grouped.1) {
                state = connected;
                timer = false;
              } in
              holds _ (
                Valid-from (record k { state = connected }) _
                  (core-start_tx_aggregation (emit (link_status true) e4)
                    ∙ ap (λ (x : Core). record x { state = connected })
                        (core-if (core grouped.1) hw.sends _ grouped.1 refl refl ∙ both))
                  (joined-Valid k vk at tk_in)))))

installed-Holds :
    (c : Cipher) (hw : EapolHw) (text : List ℕ) (gtk : Option (Option Gtk)) (e : Engine)
    → IsValid e
    → is e.state handshaking ≡ true
    → Holds (installed c hw text gtk e)
installed-Holds c hw text none e v at = holds _ v
installed-Holds c hw text (some gtk) e v at = install_keys-Holds c hw text gtk e v at

handle_m3-Holds :
    (c : Cipher) (hw : EapolHw) (info eapol_len : ℕ) (text : List ℕ) (e : Engine)
    → IsValid e
    → is e.state handshaking ≡ true
    → Holds (handle_m3 c hw info eapol_len text e)
unfolding handle_m3
handle_m3-Holds c hw info eapol_len text e v at =
    either Holds (not (eapol_mic_ok c hw.granted (take 16 e.ptk) (take eapol_len text))) _ _
      (λ _. holds _ v)
      (λ _.
        either Holds (ltb eapol_len (99 + be16_at 97 text)) _ _ (λ _. holds _ v)
          (λ _. installed-Holds c hw text _ e v at))

handle_eapol-Holds :
    (c : Cipher) (hw : EapolHw) (text : List ℕ) (e : Engine)
    → IsValid e
    → is e.state handshaking ≡ true
    → Holds (handle_eapol c hw text e)
unfolding handle_eapol
handle_eapol-Holds c hw text e v at =
    either Holds (ltb (length text) 99 || not (get_or text 1 0 == 3)) _ _ (λ _. holds _ v)
      (λ _.
        either Holds (ltb (length text) (4 + be16_at 2 text) || ltb (4 + be16_at 2 text) 99) _ _
          (λ _. holds _ v)
          (λ _.
            either Holds (is_m1 (be16_at 5 text)) _ _ (λ _. handle_m1-Holds c hw text e v at)
              (λ _.
                either Holds (is_m3 (be16_at 5 text)) _ _
                  (λ _. handle_m3-Holds c hw (be16_at 5 text) (4 + be16_at 2 text) text e v at)
                  (λ _. holds _ v))))

pub rx_eapol-Holds :
    (c : Cipher) (hw : EapolHw) (text : List ℕ) (e : Engine)
    → IsValid e
    → Holds (rx_eapol c hw text e)
unfolding rx_eapol
rx_eapol-Holds c hw text e v =
    either Holds (is e.state handshaking && not e.external) _ _
      (λ at.
        handle_eapol-Holds c hw text e v (and-left (is e.state handshaking) (not e.external) at))
      (λ _. holds _ v)

timed_out-Holds : (s : State) (e : Engine) → IsValid e → e.state ≡ s → Holds (timed_out s e)
timed_out-Holds scanning e v at =
    either Holds (not (length e.manual_channels == 0)) _ _ (λ _. holds _ v)
      (λ _.
        (let e1 : Engine = if e.attached then emit cancel_hw_scan e else e in
          let same : core e1 ≡ core e = core-if (core e) e.attached _ e refl refl in
          holds _ (
            Valid-from (record (core e) { state = e.scan_return; scan_return = idle }) _
              (ap (λ (k : Core). record k { state = e.scan_return; scan_return = idle })
                (core-if (core e) (is e.scan_return connected) _ e1 (core-restore e1 ∙ same) same))
              (left-Valid (core e) v (ap (λ s. is s scanning) at)))))
timed_out-Holds authenticating e v at =
    either Holds (not e.cancelled) _ _ (λ _. holds _ v) (λ _. holds _ v)
timed_out-Holds associating e v at = holds _ (idle-Valid (core e) v (ap uses_keys at))
timed_out-Holds handshaking e v at = holds _ (do_disconnect-Valid e v.here)
timed_out-Holds idle e v at = holds _ v
timed_out-Holds connected e v at = holds _ v
timed_out-Holds disconnecting e v at = holds _ v

pub on_timer-Holds : (e : Engine) → IsValid e → Holds (on_timer e)
unfolding on_timer
on_timer-Holds e v = timed_out-Holds e.state (record e { timer = false }) v refl
