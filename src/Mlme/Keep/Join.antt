-- ===== src/Mlme/Keep/Join.antt =====
-- What joining a network does to the state.
use airport_rtw.Base.{
  ℕ, Bool, true, false, not, ◌&&◌, ◌||◌, Option, none, some, List, ◌≡◌, refl, ap, ◌∙◌, arith, ◌==◌,
  ltb, if◌then◌else◌, length,
}
use airport_rtw.Wpa.{Cipher}
use airport_rtw.Mlme.{
  State, idle, scanning, authenticating, associating, handshaking, connected, is, Bss, Engine,
  Result, emit, ht_allowed, start_tx_aggregation, bss_assoc, link_status,
}
use airport_rtw.Mlme.Link.{clear_keys, release_sta}
use airport_rtw.Mlme.Scan.{abort_active_scan}
use airport_rtw.Mlme.Join.{
  Request, find_bss, is_supported, join, found_or_not, begun, cmd_connect, wait_clear,
  do_authenticate, do_associate, assoc_response, enter_sta, associated, answered,
  process_assoc_response,
}
use airport_rtw.Mlme.Valid.{
  told_key, none-IsGroup, Core, core, Valid, IsValid, uses_keys, moved-Valid, idle-Valid,
}
use airport_rtw.Mlme.Keep.Link.{
  either, core-if, Valid-from, keyless, Answers, answers, Holds, holds, not-true, core-clear_keys,
  core-release_sta,
}
use airport_rtw.Mlme.Keep.Scan.{abort_active_scan-Valid}

-- The state after the keys are cleared for a new network.
cleared-Valid :
    (e : Engine) → IsValid e → is e.state idle ≡ true → IsValid (release_sta (clear_keys e))
cleared-Valid e v at =
    Valid-from (keyless (core e) (told_key (clear_keys e).trace))
      (core (release_sta (clear_keys e))) (core-release_sta (clear_keys e) ∙ core-clear_keys e)
      (record {
        here = v.here;
        scan_home = v.scan_home;
        known = v.known;
        keyed = λ c _ _. absurd (ground (arith, c, at));
        unkeyed = λ _. (refl, refl);
        shaking = v.shaking;
        uncancelled = v.uncancelled;
        grouped = none-IsGroup;
      })

join-Valid :
    (r : Request) (b : Bss) (e : Engine)
    → IsValid e
    → uses_keys e.state ≡ false
    → IsValid (join r b e).1
join-Valid r b e v at =
    either (λ (p : Result × Engine). IsValid p.1) (is_supported r b) _ _
      (λ _. record {
        here = v.here;
        scan_home = v.scan_home;
        known = refl;
        keyed = λ c _ _. absurd (ground (arith, c));
        unkeyed = λ _. v.unkeyed at;
        shaking = λ c. absurd (ground (arith, c));
        uncancelled = λ c. absurd (ground (arith, c));
        grouped = v.grouped;
      })
      (λ _. v)

keyless_idle : (s : State) → is s idle ≡ true → uses_keys s ≡ false
keyless_idle s at = ground (arith, at)

find-Valid :
    (r : Request) (o : Option Bss) (e : Engine)
    → IsValid e
    → uses_keys e.state ≡ false
    → IsValid (found_or_not r o e).1
find-Valid r none e v at = v
find-Valid r (some b) e v at = join-Valid r b e v at

begun-Answers :
    (r : Request) (e : Engine) → IsValid e → is e.state idle ≡ true → Answers (begun r e)
begun-Answers r e v at =
    let e2 : Engine = release_sta (clear_keys e) in
    let same : e2.state ≡ e.state =
      ap (λ (k : Core). k.state) (core-release_sta (clear_keys e) ∙ core-clear_keys e) in
    answers _ (
      find-Valid r (find_bss r e2.bss_list) e2 (cleared-Valid e v at)
        (ap uses_keys same ∙ keyless_idle e.state at))

pub cmd_connect-Answers :
    (ends : ℕ → Option Bool) (r : Request) (e : Engine) → IsValid e → Answers (cmd_connect ends r e)
unfolding cmd_connect
cmd_connect-Answers ends r e v =
    let p : Bool × Engine = if is e.state scanning then abort_active_scan ends e else (true, e) in
    let w : IsValid p.1 =
      either (λ (q : Bool × Engine). IsValid q.1) (is e.state scanning) _ _
        (λ _. abort_active_scan-Valid ends e v) (λ _. v) in
    either Answers (not p.0) _ _ (λ _. answers _ w)
      (λ _.
        either Answers (not (is p.1.state idle)) _ _ (λ _. answers _ w)
          (λ at.
            either Answers (length r.ssid == 0 || ltb 32 (length r.ssid)) _ _ (λ _. answers _ w)
              (λ _.
                either Answers (not p.1.powered) _ _ (λ _. answers _ w)
                  (λ _. begun-Answers r p.1 w (not-true (is p.1.state idle) at)))))

pub do_authenticate-Holds :
    (cancels scans : ℕ → Bool) (e : Engine) → IsValid e → Holds (do_authenticate cancels scans e)
unfolding do_authenticate
do_authenticate-Holds cancels scans e v =
    either Holds (e.cancelled || (not e.powered || not e.attached)) _ _ (λ _. holds _ v)
      (λ _.
        either Holds (not (wait_clear 100 cancels scans 0)) _ _ (λ _. holds _ v)
          (λ _.
            either Holds ((cancels 100 || scans 100) || cancels 101) _ _ (λ _. holds _ v)
              (λ _.
                either Holds (cancels 102 || cancels 103) _ _ (λ _. holds _ v)
                  (λ _.
                    either Holds (cancels 104 || not (is e.state authenticating)) _ _
                      (λ _. holds _ v) (λ _. holds _ v)))))

pub do_associate-Valid :
    (built sent cancels : Bool) (e : Engine)
    → IsValid e
    → is e.state authenticating ≡ true
    → IsValid (do_associate built sent cancels e)
unfolding do_associate
do_associate-Valid built sent cancels e v at =
    let none_yet : uses_keys e.state ≡ false = ground (arith, at) in
    either IsValid (not e.attached || (e.cancelled || not built)) _ _ (λ _. v)
      (λ may.
        either IsValid (not sent) _ _ (λ _. idle-Valid (core e) v none_yet)
          (λ _.
            let moved =
              moved-Valid (core e) associating v none_yet refl refl
                (λ c. absurd (ground (arith, c, may))) in
            either IsValid ((cancels || e.cancelled) || false) _ _ (λ _. moved) (λ _. moved)))

core-enter_sta : (granted ht : Bool) (e : Engine) → core (enter_sta granted ht e) ≡ core e
core-enter_sta granted ht e =
    core-if (core e) e.sta _ _ refl (core-if (core e) granted _ _ refl refl)

pub core-start_tx_aggregation : (e : Engine) → core (start_tx_aggregation e) ≡ core e
core-start_tx_aggregation e = core-if (core e) e.tx_ba _ _ refl (
    core-if (core e) (ht_allowed e.target) _ _
      (core-if (core e) e.sta _ _ (core-if (core e) e.sta_ht _ _ refl refl) refl) refl)

keyless_associating : (s : State) → is s associating ≡ true → uses_keys s ≡ false
keyless_associating s at = ground (arith, at)

-- With a handshake of its own, and without.
shake-Valid :
    (k : Core)
    → Valid k
    → is k.state associating ≡ true
    → k.cancelled ≡ false
    → (k.wpa2 && not k.external) ≡ true
    → Valid (record k { state = handshaking })
shake-Valid k v at going own = record {
  here = v.here;
  scan_home = v.scan_home;
  known = refl;
  keyed = λ c _ _. absurd (ground (arith, c));
  unkeyed = λ c. absurd (ground (arith, c));
  shaking = λ _. (ground (arith, own), ground (arith, own));
  uncancelled = λ c. absurd (ground (arith, c, going));
  grouped = v.grouped;
}

open-Valid :
    (k : Core)
    → Valid k
    → is k.state associating ≡ true
    → k.cancelled ≡ false
    → (k.wpa2 && not k.external) ≡ false
    → Valid (record k { state = connected })
open-Valid k v at going other = record {
  here = v.here;
  scan_home = v.scan_home;
  known = refl;
  keyed = λ _ w x. absurd (ground (arith, w, x, other));
  unkeyed = λ c. absurd (ground (arith, c));
  shaking = λ c. absurd (ground (arith, c));
  uncancelled = λ c. absurd (ground (arith, c, going));
  grouped = v.grouped;
}

-- The core of an accepted response, before the state is set.
abbrev entered : Cipher → (granted ht : Bool) → (aid : ℕ) → Engine → Engine
entered c granted ht aid e =
    emit (bss_assoc true aid) (enter_sta granted ht (record e { aid = aid }))

associated-Holds :
    (c : Cipher) (granted ht : Bool) (aid : ℕ) (e : Engine)
    → IsValid e
    → is e.state associating ≡ true
    → e.cancelled ≡ false
    → Holds (associated c granted ht aid e)
associated-Holds c granted ht aid e v at going =
    let e1 : Engine = entered c granted ht aid e in
    let same : core e1 ≡ core e = core-enter_sta granted ht (record e { aid = aid }) in
    let v1 : IsValid e1 = Valid-from (core e) (core e1) same v in
    let at1 : is e1.state associating ≡ true =
      ap (λ (k : Core). is k.state associating) same ∙ at in
    let going1 : e1.cancelled ≡ false = ap (λ (k : Core). k.cancelled) same ∙ going in
    let e2 : Engine = emit (link_status true) (record e1 { state = connected }) in
    either Holds (e1.wpa2 && not e1.external) _ _
      (λ own. holds _ (shake-Valid (core e1) v1 at1 going1 own))
      (λ other. holds _ (
        Valid-from (record (core e1) { state = connected }) _
          (core-if (record (core e1) { state = connected }) e1.wpa2 e2 (start_tx_aggregation e2)
            refl (core-start_tx_aggregation e2))
          (open-Valid (core e1) v1 at1 going1 other)))

response-Holds :
    (c : Cipher) (granted ht : Bool) (o : Option (ℕ × ℕ)) (e : Engine)
    → IsValid e
    → is e.state associating ≡ true
    → Holds (answered c granted ht o e)
response-Holds c granted ht none e v at = holds _ v
response-Holds c granted ht (some (status, aid)) e v at =
    either Holds e.cancelled _ _ (λ _. holds _ v)
      (λ going.
        either Holds (not (status == 0)) _ _
          (λ _. holds _ (idle-Valid (core e) v (keyless_associating e.state at)))
          (λ _. associated-Holds c granted ht aid e v at going))

pub process_assoc_response-Holds :
    (c : Cipher) (granted ht : Bool) (f : List ℕ) (e : Engine)
    → IsValid e
    → is e.state associating ≡ true
    → Holds (process_assoc_response c granted ht f e)
unfolding process_assoc_response
process_assoc_response-Holds c granted ht f e v at =
    response-Holds c granted ht (assoc_response f e.mac e.target.bssid) e v at
