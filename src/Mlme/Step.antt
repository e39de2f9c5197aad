-- ===== src/Mlme/Step.antt =====
-- The steps of the station: each call of a handler, whatever its arguments, and what the states
-- are that they reach from the start.
use airport_rtw.Base.{ℕ, Bool, true, Option, none, List, ◌≡◌}
use airport_rtw.Wpa.{Cipher}
use airport_rtw.Mlme.{idle, Engine}
use airport_rtw.Mlme.Link.{
  KeyHw, cmd_install_external_key, cmd_disconnect, power_on, power_off, cmd_power_on,
}
use airport_rtw.Mlme.Scan.{ScanHw, scan_done, cmd_scan, run_manual_scan, cmd_power_off}
use airport_rtw.Mlme.Join.{Request, cmd_connect, do_authenticate}
use airport_rtw.Mlme.Handshake.{EapolHw}
use airport_rtw.Mlme.Rx.{MgmtHw, process_rx_mgmt, rx_eapol, on_timer}

module _ (c : Cipher) where
  pub data Step : Engine → Engine → Type 0 where
    scan : (h : ScanHw) (e : Engine) → Step e (cmd_scan h e).1
    manual_scan :
        (stops : ℕ → Bool) (aborted : Bool) (e : Engine) → Step e (run_manual_scan stops aborted e)
    scan_ends : (aborted : Bool) (e : Engine) → Step e (scan_done aborted e)
    connect : (ends : ℕ → Option Bool) (r : Request) (e : Engine) → Step e (cmd_connect ends r e).1
    authenticate :
        (cancels scans : ℕ → Bool) (e : Engine) → Step e (do_authenticate cancels scans e)
    mgmt_frame : (hw : MgmtHw) (f : List ℕ) (e : Engine) → Step e (process_rx_mgmt c hw f e)
    eapol_frame : (hw : EapolHw) (text : List ℕ) (e : Engine) → Step e (rx_eapol c hw text e)
    external_key :
        (hw : KeyHw) (pairwise : Bool) (keyidx cipher : ℕ) (key : List ℕ) (e : Engine)
        → Step e (cmd_install_external_key hw pairwise keyidx cipher key e).1
    disconnect : (e : Engine) → Step e (cmd_disconnect e).1
    turn_on : (starts : Bool) (e : Engine) → Step e (power_on starts e).1
    turn_off : (e : Engine) → Step e (power_off e)
    command_on : (starts : Bool) (e : Engine) → Step e (cmd_power_on starts e).1
    command_off : (ends : ℕ → Option Bool) (e : Engine) → Step e (cmd_power_off ends e).1
    timer_fires : (e : Engine) → Step e (on_timer e)

  -- The station once the driver is started: idle, with no keys.
  abbrev pub IsStarted : Engine → Type 0
  IsStarted e =
      (e.state ≡ idle)
      × (e.scan_return ≡ idle)
      × (e.ptk_conf ≡ none)
      × (e.gtk_conf ≡ none)
      × (e.attached ≡ true)

  pub data Reach : Engine → Type 0 where
    started : (e : Engine) → IsStarted e → Reach e
    next : (e e' : Engine) → Reach e → Step e e' → Reach e'
