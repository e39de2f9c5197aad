-- ===== src/Mlme/Keep/Scan.antt =====
-- What scanning and powering off do to the state.
use airport_rtw.Base.{
  sym, ℕ, zero, suc, ◌+◌, Bool, true, false, not, ◌&&◌, ◌||◌, Option, none, some, List, [], ◌∷◌,
  ◌≡◌, refl, ap, ◌∙◌, arith, ◌==◌, if◌then◌else◌, length, take,
}
use airport_rtw.Mlme.{
  State, idle, scanning, authenticating, associating, handshaking, connected, is, Channel, Engine,
  success, busy, emit, set_awdl_channel, tune, send_null, send_probe,
}
use airport_rtw.Mlme.Link.{clear_keys, release_sta, cancel_authentication, do_disconnect, power_off}
use airport_rtw.Mlme.Scan.{
  restore_connected_channel, leave_scan, aged, back_to_awdl, scan_done, wait_scan, asked,
  abort_active_scan, ScanHw, next_generation, enabled, cmd_scan, visit, sweep, swept,
  run_manual_scan, switched_off, cmd_power_off,
}
use airport_rtw.Mlme.Valid.{told_key, Core, core, Valid, IsValid, unlinked, left-Valid}
use airport_rtw.Mlme.Keep.Link.{
  either, core-if, Valid-from, keyless, Answers, answers, not-true, not-false, core-clear_keys,
  core-release_sta, core-do_disconnect, core-power_off,
}

pub core-restore : (e : Engine) → core (restore_connected_channel e) ≡ core e
core-restore e = core-if (core e) (is e.scan_return connected && e.attached) _ e refl refl

core-leave_scan :
    (e : Engine)
    → core (leave_scan e) ≡ record (core e) { state = e.scan_return; scan_return = idle }
core-leave_scan e =
    ap (λ (k : Core). record k { state = e.scan_return; scan_return = idle })
      (core-if (core e) (is e.scan_return connected) _ e (core-restore e) refl)

pub leave_scan-Valid :
    (e : Engine) → IsValid e → is e.state scanning ≡ true → IsValid (leave_scan e)
leave_scan-Valid e v at =
    Valid-from (record (core e) { state = e.scan_return; scan_return = idle }) (core (leave_scan e))
      (core-leave_scan e) (left-Valid (core e) v at)

awdl-Valid :
    (e : Engine)
    → IsValid e
    → is e.state scanning ≡ true
    → IsValid (back_to_awdl e.scan_return (leave_scan e))
awdl-Valid e v at =
    Valid-from (core (leave_scan e)) (core (back_to_awdl e.scan_return (leave_scan e)))
      (core-if (core (leave_scan e))
        (is e.scan_return idle && (e1.awdl_mode && not (e1.awdl_channel == 0)))
        (emit (set_awdl_channel e1.awdl_channel) e1) e1 refl refl)
      (leave_scan-Valid e v at)
  where
    e1 : Engine
    e1 = leave_scan e

pub scan_done-Valid : (aborted : Bool) (e : Engine) → IsValid e → IsValid (scan_done aborted e)
unfolding scan_done
scan_done-Valid true e v =
    either IsValid (is e.state scanning) (back_to_awdl e.scan_return (leave_scan e)) e
      (λ at. awdl-Valid e v at) (λ _. v)
scan_done-Valid false e v =
    let e1 : Engine = record e {
      bss_list =
          aged (if is e.state scanning then e.scan_return else e.state) e.target e.generation
            e.bss_list;
    } in
    either IsValid (is e.state scanning) (back_to_awdl e.scan_return (leave_scan e1)) e1
      (λ at. awdl-Valid e1 v at) (λ _. v)

wait_scan-Valid :
    (more : ℕ) (ends : ℕ → Option Bool) (e : Engine) → IsValid e → IsValid (wait_scan more ends e)
unfolding wait_scan
wait_scan-Valid zero ends e v = v
wait_scan-Valid (suc more) ends e v =
    wait_round (is e.state scanning) (ends more) e _ _ v (wait_scan-Valid more ends e v)
      (λ aborted. wait_scan-Valid more ends (scan_done aborted e) (scan_done-Valid aborted e v))
  where
    wait_round :
        (b : Bool) (o : Option Bool) (stop go : Engine) (ended : Bool → Engine)
        → IsValid stop
        → IsValid go
        → ((aborted : Bool) → IsValid (ended aborted))
        → IsValid
            (elim b [ false ↦ stop | true ↦ elim o [ none ↦ go | some aborted ↦ ended aborted ] ])
    wait_round false o stop go ended v w f = v
    wait_round true none stop go ended v w f = w
    wait_round true (some aborted) stop go ended v w f = f aborted

asked-Valid : (e : Engine) → IsValid e → IsValid (asked e)
asked-Valid e v =
    either IsValid (not (length e.manual_channels == 0)) _ _ (λ _. v)
      (λ _. either IsValid e.attached _ _ (λ _. v) (λ _. v))

pub abort_active_scan-Valid :
    (ends : ℕ → Option Bool) (e : Engine) → IsValid e → IsValid (abort_active_scan ends e).1
unfolding abort_active_scan
abort_active_scan-Valid ends e v =
    either (λ (p : Bool × Engine). IsValid p.1) (not (is e.state scanning)) _ _ (λ _. v)
      (λ _.
        (let e1 : Engine = asked e in
          let e2 : Engine = wait_scan 40 ends e1 in
          let v1 : IsValid e1 = asked-Valid e v in
          let v2 : IsValid e2 = wait_scan-Valid 40 ends e1 v1 in
          either (λ (p : Bool × Engine). IsValid p.1) (is e2.state scanning) _ _
            (λ at.
              either (λ (p : Bool × Engine). IsValid p.1) (not (length e2.manual_channels == 0)) _ _
                (λ _. v2) (λ _. leave_scan-Valid e2 v2 at))
            (λ _. v2)))

core-visit :
    (on_link stop_home : Bool) (c : Channel) (e : Engine)
    → core (visit on_link stop_home c e) ≡ core e
core-visit false stop_home c e = core-if (core e) c.passive _ _ refl refl
core-visit true true c e =
    core-if (core e) c.passive _ _ (core-restore (record e { on_home_channel = false }))
      (core-restore (record e { on_home_channel = false }))
core-visit true false c e =
    let off : Engine = record e { on_home_channel = false } in
    let tuned : Engine =
      emit (tune c.number) (emit (send_null true) (restore_connected_channel off)) in
    core-restore (if c.passive then tuned else emit send_probe tuned)
    ∙ core-if (core e) c.passive _ _ (core-restore off) (core-restore off)

core-sweep :
    (stops : ℕ → Bool) (i : ℕ) (on_link : Bool) (cs : List Channel) (e : Engine)
    → core (sweep stops i on_link cs e) ≡ core e
unfolding sweep
core-sweep stops i on_link [] e = refl
core-sweep stops i on_link (c ∷ cs) e = pass_or_stop (stops i) (
    core-sweep stops (i + 2) on_link cs (visit on_link (stops (i + 1)) c e)
    ∙ core-visit on_link (stops (i + 1)) c e)
  where
    pass_or_stop :
        (b : Bool)
        → core (sweep stops (i + 2) on_link cs (visit on_link (stops (i + 1)) c e)) ≡ core e
        → core (elim b [
          | true ↦ e
          | false ↦ sweep stops (i + 2) on_link cs (visit on_link (stops (i + 1)) c e)
        ])
          ≡ core e
    pass_or_stop true go = refl
    pass_or_stop false go = go

core-swept : (stops : ℕ → Bool) (e : Engine) → core (swept stops e) ≡ core e
core-swept stops e =
    let on_link : Bool = is e.scan_return connected in
    let passes = core-sweep stops 0 on_link (take 256 e.manual_channels) e in
    let e1 : Engine = record (sweep stops 0 on_link (take 256 e.manual_channels) e) {
      on_home_channel = false;
    } in
    core-if (core e) on_link _ _ (core-restore e1 ∙ passes) passes

pub run_manual_scan-Valid :
    (stops : ℕ → Bool) (aborted : Bool) (e : Engine)
    → IsValid e
    → IsValid (run_manual_scan stops aborted e)
unfolding run_manual_scan
run_manual_scan-Valid stops aborted e v =
    either IsValid (not e.attached) _ _ (λ _. scan_done-Valid true e v)
      (λ _.
        scan_done-Valid aborted (swept stops e)
          (Valid-from (core e) (core (swept stops e)) (core-swept stops e) v))

-- From idle to a scan, and back where it cannot begin.
scan-Valid :
    (k : Core)
    → Valid k
    → is k.state idle ≡ true
    → Valid (record k {
      scan_return = if is k.state connected then k.state else idle;
      state = scanning;
    })
scan-Valid k v at = record {
  here = v.here;
  scan_home = ground (arith, at);
  known = refl;
  keyed = λ c _ _. absurd (ground (arith, c));
  unkeyed = λ _. v.unkeyed (ground (arith, at));
  shaking = λ c. absurd (ground (arith, c));
  uncancelled = λ _. refl;
  grouped = v.grouped;
}

back-Valid : (k : Core) → Valid k → Valid (record k { scan_return = idle })
back-Valid k v = record {
  here = v.here;
  scan_home = refl;
  known = v.known;
  keyed = v.keyed;
  unkeyed = v.unkeyed;
  shaking = v.shaking;
  uncancelled = v.uncancelled;
  grouped = v.grouped;
}

core-next_generation : (e : Engine) → core (next_generation e) ≡ core e
core-next_generation e = core-if (core e) _ _ _ refl refl

pub cmd_scan-Answers : (h : ScanHw) (e : Engine) → IsValid e → Answers (cmd_scan h e)
unfolding cmd_scan
cmd_scan-Answers h e v =
    either Answers (not (is e.state idle)) _ _ (λ _. answers _ v)
      (λ at.
        (let from : State = e.state in
          let same = core-next_generation e in
          let on : Valid (record (core (next_generation e)) {
            scan_return = if is from connected then from else idle;
            state = scanning;
          }) =
            Valid-from
              (record (core e) {
                scan_return = if is from connected then from else idle;
                state = scanning;
              })
              _
              (ap
                (λ (k : Core). record k {
                  scan_return = if is from connected then from else idle;
                  state = scanning;
                })
                same)
              (scan-Valid (core e) v (not-true (is e.state idle) at)) in
          let off : Valid (record (core (next_generation e)) { scan_return = idle; state = from }) =
            Valid-from (record (core e) { scan_return = idle; state = from }) _
              (ap (λ (k : Core). record k { scan_return = idle; state = from }) same)
              (back-Valid (core e) v) in
          either Answers (not e.powered || not e.attached) _ _ (λ _. answers _ v)
            (λ _.
              either Answers (not e.has_request && not h.granted) _ _ (λ _. answers _ off)
                (λ _.
                  either Answers (length (take 256 (enabled h.channels)) == 0) _ _
                    (λ _. answers _ off)
                    (λ _.
                      either Answers (not h.offload) _ _
                        (λ _. either Answers h.manual _ _ (λ _. answers _ on) (λ _. answers _ off))
                        (λ _.
                          either Answers h.accepted _ _ (λ _. answers _ on)
                            (λ _.
                              either Answers h.manual _ _ (λ _. answers _ on)
                                (λ _. answers _ off))))))))

-- Without keys and idle: the state after powering off.
rest-Valid :
    (k : Core)
    → k.attached ≡ true
    → k.ptk_conf ≡ none
    → k.gtk_conf ≡ none
    → Valid (record k { state = idle; scan_return = idle })
rest-Valid k h p g = record {
  here = h;
  scan_home = refl;
  known = refl;
  keyed = λ c _ _. absurd (ground (arith, c));
  unkeyed = λ _. (p, g);
  shaking = λ c. absurd (ground (arith, c));
  uncancelled = λ _. refl;
  grouped = λ key e. absurd (let gone : none ≡ some key = sym g ∙ e in cc);
}

-- The scan that powering off stops, if there is one.
Stopped : Bool × Engine → Type 0
Stopped p = (p.1.attached ≡ true) × (p.0 ≡ false → IsValid p.1)

Stopped-abort_first :
    (ends : ℕ → Option Bool) (e : Engine)
    → IsValid e
    → Stopped (
        if is e.state scanning
        then abort_active_scan ends (cancel_authentication e)
        else (true, cancel_authentication e))
unfolding Stopped
Stopped-abort_first ends e v =
    either Stopped (is e.state scanning) _ _
      (λ at.
        (let w : IsValid (cancel_authentication e) = record {
          here = v.here;
          scan_home = v.scan_home;
          known = v.known;
          keyed = v.keyed;
          unkeyed = v.unkeyed;
          shaking = v.shaking;
          uncancelled = λ _. ground (arith, at);
          grouped = v.grouped;
        } in
          let done = abort_active_scan-Valid ends (cancel_authentication e) w in
          (done.here, λ _. done)))
      (λ _. (v.here, λ f. absurd (ground (arith, f))))

-- Both ways of leaving the network drop the keys.
abbrev Dropped : Engine → Type 0
Dropped e = (e.attached ≡ true) × (e.ptk_conf ≡ none) × (e.gtk_conf ≡ none)

Dropped-from :
    (k : Core) (e : Engine)
    → core e ≡ k
    → k.attached ≡ true
    → k.ptk_conf ≡ none
    → k.gtk_conf ≡ none
    → Dropped (power_off e)
Dropped-from k e q h p g =
    let all : core (power_off e) ≡ k = core-power_off e ∙ q in
    (
      ap (λ (c : Core). c.attached) all ∙ h,
      ap (λ (c : Core). c.ptk_conf) all ∙ p,
      ap (λ (c : Core). c.gtk_conf) all ∙ g,
    )

switched_off-Valid : (e : Engine) → e.attached ≡ true → IsValid (switched_off e)
switched_off-Valid e here =
    let linked : Bool =
      (is e.state connected || is e.state authenticating)
      || (is e.state associating || is e.state handshaking) in
    let e3 : Engine = if linked then do_disconnect e else release_sta (clear_keys e) in
    let dropped : Dropped (power_off e3) =
      either (λ x. Dropped (power_off x)) linked (do_disconnect e) (release_sta (clear_keys e))
        (λ _.
          Dropped-from (unlinked (core e) (told_key (do_disconnect e).trace)) (do_disconnect e)
            (core-do_disconnect e here) here refl refl)
        (λ _.
          Dropped-from (keyless (core e) (told_key (clear_keys e).trace))
            (release_sta (clear_keys e)) (core-release_sta (clear_keys e) ∙ core-clear_keys e) here
            refl refl) in
    rest-Valid (core (power_off e3)) dropped.0 dropped.1 dropped.2

pub cmd_power_off-Answers :
    (ends : ℕ → Option Bool) (e : Engine) → IsValid e → Answers (cmd_power_off ends e)
unfolding cmd_power_off Stopped
cmd_power_off-Answers ends e v =
    let p : Bool × Engine =
      if is e.state scanning
      then abort_active_scan ends (cancel_authentication e)
      else (true, cancel_authentication e) in
    let known = Stopped-abort_first ends e v in
    either Answers (not p.0) (busy, p.1) (success, switched_off p.1)
      (λ stays. answers (busy, p.1) (known.1 (not-false p.0 stays)))
      (λ _. answers (success, switched_off p.1) (switched_off-Valid p.1 known.0))
