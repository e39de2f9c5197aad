-- ===== src/Mlme/Safety.antt =====
-- What holds of every state that the station reaches, by induction on the steps.
use airport_rtw.Base.{sym, ◌∙◌, true, false, none, some, ◌≡◌, ◌≢◌, refl, ap, arith, take, drop}
use airport_rtw.Wpa.{Cipher, ccmp}
use airport_rtw.Mlme.{
  State, idle, scanning, authenticating, associating, handshaking, connected, disconnecting, is,
  Key, Engine,
}
use airport_rtw.Mlme.Step.{
  Step, scan, manual_scan, scan_ends, connect, authenticate, mgmt_frame, eapol_frame, external_key,
  disconnect, turn_on, turn_off, command_on, command_off, timer_fires, IsStarted, Reach, started,
  next,
}
use airport_rtw.Mlme.Link.{power_on, power_off}
use airport_rtw.Mlme.Scan.{cmd_scan, cmd_power_off}
use airport_rtw.Mlme.Join.{cmd_connect, do_authenticate}
use airport_rtw.Mlme.Rx.{process_rx_mgmt, rx_eapol, on_timer}
use airport_rtw.Mlme.Valid.{told_key, core, IsValid, uses_keys}
use airport_rtw.Mlme.Keep.Link.{
  Valid-from, Holds-Valid, Answers-Valid, cmd_disconnect-Valid, cmd_install_external_key-Valid,
  core-power_on, core-power_off, cmd_power_on-Valid,
}
use airport_rtw.Mlme.Keep.Scan.{
  scan_done-Valid, run_manual_scan-Valid, cmd_scan-Answers, cmd_power_off-Answers,
}
use airport_rtw.Mlme.Keep.Join.{cmd_connect-Answers, do_authenticate-Holds}
use airport_rtw.Mlme.Keep.Rx.{process_rx_mgmt-Holds, rx_eapol-Holds, on_timer-Holds}

module _ (c : Cipher) where
  started-Valid : (e : Engine) → IsStarted c e → IsValid e
  started-Valid e (at, home, p, g, here) = record {
    here = here;
    scan_home = home;
    known = ground (arith, at);
    keyed = λ k _ _. absurd (ground (arith, at, k));
    unkeyed = λ _. (p, g);
    shaking = λ k. absurd (ground (arith, at, k));
    uncancelled = λ _. ground (arith, at);
    grouped = λ key e. absurd (let gone : none ≡ some key = sym g ∙ e in cc);
  }

  step-Valid : (e e' : Engine) → Step c e e' → IsValid e → IsValid e'
  step-Valid _ _ (scan h e) v = Answers-Valid (cmd_scan h e) (cmd_scan-Answers h e v)
  step-Valid _ _ (manual_scan stops aborted e) v = run_manual_scan-Valid stops aborted e v
  step-Valid _ _ (scan_ends aborted e) v = scan_done-Valid aborted e v
  step-Valid _ _ (connect ends r e) v =
      Answers-Valid (cmd_connect ends r e) (cmd_connect-Answers ends r e v)
  step-Valid _ _ (authenticate cancels scans e) v =
      Holds-Valid (do_authenticate cancels scans e) (do_authenticate-Holds cancels scans e v)
  step-Valid _ _ (mgmt_frame hw f e) v =
      Holds-Valid (process_rx_mgmt c hw f e) (process_rx_mgmt-Holds c hw f e v)
  step-Valid _ _ (eapol_frame hw text e) v =
      Holds-Valid (rx_eapol c hw text e) (rx_eapol-Holds c hw text e v)
  step-Valid _ _ (external_key hw pairwise keyidx cipher key e) v =
      cmd_install_external_key-Valid hw pairwise keyidx cipher key e v
  step-Valid _ _ (disconnect e) v = cmd_disconnect-Valid e v
  step-Valid _ _ (turn_on starts e) v =
      Valid-from (core e) (core (power_on starts e).1) (core-power_on starts e) v
  step-Valid _ _ (turn_off e) v = Valid-from (core e) (core (power_off e)) (core-power_off e) v
  step-Valid _ _ (command_on starts e) v = cmd_power_on-Valid starts e v
  step-Valid _ _ (command_off ends e) v =
      Answers-Valid (cmd_power_off ends e) (cmd_power_off-Answers ends e v)
  step-Valid _ _ (timer_fires e) v = Holds-Valid (on_timer e) (on_timer-Holds e v)

  pub Reach-Valid : (e : Engine) → Reach c e → IsValid e
  Reach-Valid _ (started e start) = started-Valid e start
  Reach-Valid _ (next e0 e r s) = step-Valid e0 e s (Reach-Valid e0 r)

  -- In every state that the station reaches by its steps, where it is connected by its own WPA2
  -- handshake its slot for the pairwise key holds a CCMP key, that key is the temporal key of the
  -- handshake, and it is the pairwise key that the chip driver was last told to enable and was not
  -- told to disable since.
  pub connected-keyed :
      (e : Engine)
      → Reach c e
      → e.state ≡ connected
      → e.wpa2 ≡ true
      → e.external ≡ false
      → (key : Key) × (e.ptk_conf ≡ some key)
        × (key.cipher ≡ ccmp)
        × (key.key ≡ take 16 (drop 32 e.ptk))
        × (told_key e.trace ≡ some key)
  connected-keyed e r at w x = (Reach-Valid e r).keyed (ap (λ s. is s connected) at) w x

  -- No key outlives the link: in every state that the station reaches, unless it shakes hands or is
  -- connected, it holds neither a pairwise nor a group key.
  pub unlinked-keyless :
      (e : Engine)
      → Reach c e
      → e.state ≢ handshaking
      → e.state ≢ connected
      → (e.ptk_conf ≡ none) × (e.gtk_conf ≡ none)
  unlinked-keyless e r h k = (Reach-Valid e r).unkeyed (off e.state h k)
    where
      off : (s : State) → s ≢ handshaking → s ≢ connected → uses_keys s ≡ false
      off idle h k = refl
      off scanning h k = refl
      off authenticating h k = refl
      off associating h k = refl
      off handshaking h k = absurd (h refl)
      off connected h k = absurd (k refl)
      off disconnecting h k = refl

  -- In every state that the station reaches, the state that a scan returns to is idle, and the
  -- station is never `disconnecting`.
  pub scans-from_idle :
      (e : Engine) → Reach c e → (e.scan_return ≡ idle) × (e.state ≢ disconnecting)
  scans-from_idle e r =
      let v : IsValid e = Reach-Valid e r in
      (v.scan_home, λ at. absurd (ground (arith, ap (λ s. is s disconnecting) at, v.known)))
