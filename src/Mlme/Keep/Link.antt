-- ===== src/Mlme/Keep/Link.antt =====
-- What keys, the station entry, disconnecting and power do to the state.
use airport_rtw.Base.{
  ℕ, Bool, true, false, not, ◌&&◌, ◌||◌, Option, none, some, List, ◌≡◌, refl, ap, sym, ◌∙◌, arith,
  replicate, ◌==◌, if◌then◌else◌, length,
}
use airport_rtw.Mlme.{
  idle, disconnecting, connected, is, Key, Engine, Result, success, emit, bss_assoc, send_deauth,
  enable_key,
}
use airport_rtw.Mlme.Link.{
  disable, clear_keys, release_sta, KeyHw, slot, with_slot, key_fits, removed, install_key,
  cmd_install_external_key, cancel_authentication, do_disconnect, cmd_disconnect, is_success,
  power_on, power_off, cmd_power_on,
}
use airport_rtw.Mlme.Valid.{
  Core, core, Valid, IsValid, IsGroup, none-IsGroup, told_key, unlinked, unlinked-Valid,
  external-Valid,
}

-- A conditional, by the branch that is taken.
pub either {ℓ} :
    {A : Type ℓ} (P : A → Type 0) (b : Bool) (x y : A)
    → (b ≡ true → P x)
    → (b ≡ false → P y)
    → P (if b then x else y)
either P true x y f g = f refl
either P false x y f g = g refl

-- `IsValid`, shut, so that a conditional is compared whole.
pub Holds : Engine → Type 0
Holds e = IsValid e

pub holds : (e : Engine) → IsValid e → Holds e
unfolding Holds
holds e v = v

pub Holds-Valid : (e : Engine) → Holds e → IsValid e
unfolding Holds
Holds-Valid e v = v

pub Answers : Result × Engine → Type 0
Answers p = IsValid p.1

pub answers : (p : Result × Engine) → IsValid p.1 → Answers p
unfolding Answers
answers p v = v

pub Answers-Valid : (p : Result × Engine) → Answers p → IsValid p.1
unfolding Answers
Answers-Valid p v = v

pub not-false : (b : Bool) → not b ≡ true → b ≡ false
not-false b e = ground arith

pub not-true : (b : Bool) → not b ≡ false → b ≡ true
not-true b e = ground arith

pub core-if :
    (k : Core) (b : Bool) (x y : Engine) → core x ≡ k → core y ≡ k → core (if b then x else y) ≡ k
core-if k b x y f g = either (λ e. core e ≡ k) b x y (λ _. f) (λ _. g)

pub Valid-from : (k k' : Core) → k' ≡ k → Valid k → Valid k'
Valid-from k k' q v = rw q v

abbrev pub keyless : Core → (told : Option Key) → Core
keyless k t = record k { ptk_conf = none; gtk_conf = none; ptk = replicate 64 0; told = t }

core-disable :
    (o : Option Key) (e : Engine) (t : Option Key)
    → keyless (core (disable o e)) t ≡ keyless (core e) t
core-disable none e t = refl
core-disable (some k) e t = refl

pub core-clear_keys :
    (e : Engine) → core (clear_keys e) ≡ keyless (core e) (told_key (clear_keys e).trace)
core-clear_keys e =
    let t = told_key (clear_keys e).trace in
    either (λ x. keyless (core x) t ≡ keyless (core e) t) (e.powered && e.attached)
      (disable e.gtk_conf (disable e.ptk_conf e)) e
      (λ _. core-disable e.gtk_conf (disable e.ptk_conf e) t ∙ core-disable e.ptk_conf e t)
      (λ _. refl)

pub core-release_sta : (e : Engine) → core (release_sta e) ≡ core e
core-release_sta e = core-if (core e) e.sta _ e (core-if (core e) e.attached _ e refl refl) refl

pub core-do_disconnect :
    (e : Engine)
    → e.attached ≡ true
    → core (do_disconnect e) ≡ unlinked (core e) (told_key (do_disconnect e).trace)
unfolding do_disconnect
core-do_disconnect e h =
    either (λ x. core x ≡ unlinked (core e) (told_key x.trace)) e.attached _ _
      (λ _.
        (let e1 : Engine = emit (bss_assoc false 0) (emit send_deauth (clear_keys e)) in
          let t = told_key (release_sta e1).trace in
          ap (λ (k : Core). record k { state = idle; scan_return = idle; told = t })
            (core-release_sta e1 ∙ core-clear_keys e)))
      (λ off. absurd (ground (arith, h, off)))

pub do_disconnect-Valid : (e : Engine) → e.attached ≡ true → IsValid (do_disconnect e)
do_disconnect-Valid e h =
    Valid-from (unlinked (core e) (told_key (do_disconnect e).trace)) (core (do_disconnect e))
      (core-do_disconnect e h) (unlinked-Valid (core e) (told_key (do_disconnect e).trace) h)

pub cmd_disconnect-Valid : (e : Engine) → IsValid e → IsValid (cmd_disconnect e).1
unfolding cmd_disconnect
cmd_disconnect-Valid e v =
    either (λ (p : Result × Engine). IsValid p.1) (is e.state idle)
      (success, cancel_authentication e) _
      (λ at. record {
        here = v.here;
        scan_home = v.scan_home;
        known = v.known;
        keyed = v.keyed;
        unkeyed = v.unkeyed;
        shaking = v.shaking;
        uncancelled = λ _. ground (arith, at);
        grouped = v.grouped;
      })
      (λ _. do_disconnect-Valid (cancel_authentication e) v.here)

-- The core with a slot and what the driver was told.
abbrev pub placed : (pairwise : Bool) → (o told : Option Key) → Engine → Core
placed true o t e = record (core e) { ptk_conf = o; told = t }
placed false o t e = record (core e) { gtk_conf = o; told = t }

-- The slot that a key goes into ends empty or as it was, or has the new key; the driver was then
-- told to enable a pairwise key last, and a group key does not change what it has of those.
unfoldable pub Installs : (pairwise : Bool) → Key → Engine → Bool × Engine → Type 0
Installs pairwise k e p =
    (o : Option Key) × (t : Option Key) × (core p.1 ≡ placed pairwise o t e)
    × (p.0 ≡ true → (o ≡ some k) × (pairwise ≡ true → t ≡ some k))
    × (pairwise ≡ false → IsGroup e.gtk_conf → (t ≡ told_key e.trace) × IsGroup o)

core-slot :
    (pairwise : Bool) (e : Engine) → core e ≡ placed pairwise (slot pairwise e) (told_key e.trace) e
core-slot true e = refl
core-slot false e = refl

core-removed :
    (pairwise : Bool) (o : Option Key) (e : Engine)
    → o ≡ slot pairwise e
    → core (removed pairwise o e) ≡ placed pairwise none (told_key (removed pairwise o e).trace) e
core-removed true none e q = ap (λ o. record (core e) { ptk_conf = o }) (sym q)
core-removed false none e q = ap (λ o. record (core e) { gtk_conf = o }) (sym q)
core-removed true (some k) e q = refl
core-removed false (some k) e q = refl

core-refused :
    (pairwise : Bool) (k : Key) (e e1 : Engine) (t : Option Key)
    → core e1 ≡ placed pairwise none t e
    → core (emit (enable_key k) e1)
      ≡ placed pairwise none (told_key (emit (enable_key k) e1).trace) e
core-refused true k e e1 t q =
    ap (λ (c : Core). record c { told = told_key (emit (enable_key k) e1).trace }) q
core-refused false k e e1 t q =
    ap (λ (c : Core). record c { told = told_key (emit (enable_key k) e1).trace }) q

core-stored :
    (pairwise : Bool) (k : Key) (e e1 : Engine) (t : Option Key)
    → core e1 ≡ placed pairwise none t e
    → core (with_slot pairwise (some k) (emit (enable_key k) e1))
      ≡ placed pairwise (some k) (told_key (emit (enable_key k) e1).trace) e
core-stored true k e e1 t q =
    ap
      (λ (c : Core). record c { ptk_conf = some k; told = told_key (emit (enable_key k) e1).trace })
      q
core-stored false k e e1 t q =
    ap
      (λ (c : Core). record c { gtk_conf = some k; told = told_key (emit (enable_key k) e1).trace })
      q

-- Group keys leave what the driver has of pairwise keys.
told-removed :
    (pairwise : Bool) (e : Engine)
    → pairwise ≡ false
    → IsGroup e.gtk_conf
    → told_key (removed pairwise (slot pairwise e) e).trace ≡ told_key e.trace
told-removed true e h g = absurd (ground (arith, h))
told-removed false e h g = group e.gtk_conf g
  where
    group : (o : Option Key) → IsGroup o → told_key (removed false o e).trace ≡ told_key e.trace
    group none g = refl
    group (some k) g =
        let own : k.pairwise ≡ false = g k refl in
        ap (λ b. if b then none else told_key e.trace) own

told-enabled :
    (k : Key) (e : Engine)
    → k.pairwise ≡ false
    → told_key (emit (enable_key k) e).trace ≡ told_key e.trace
told-enabled k e h = ap (λ b. if b then some k else told_key e.trace) h

told-pairwise :
    (k : Key) (e : Engine) → k.pairwise ≡ true → told_key (emit (enable_key k) e).trace ≡ some k
told-pairwise k e h = ap (λ b. if b then some k else told_key e.trace) h

pairwise_of : Option Key → Bool
pairwise_of none = false
pairwise_of (some k) = k.pairwise

some-IsGroup : (k : Key) → k.pairwise ≡ false → IsGroup (some k)
unfolding pairwise_of
some-IsGroup k h key e = ap pairwise_of (sym e) ∙ h

slot-IsGroup :
    (pairwise : Bool) (e : Engine)
    → pairwise ≡ false
    → IsGroup e.gtk_conf
    → IsGroup (slot pairwise e)
slot-IsGroup true e h g = absurd (ground (arith, h))
slot-IsGroup false e h g = g

pub install_key-Installs :
    (hw : KeyHw) (pairwise : Bool) (keyidx cipher : ℕ) (tk : List ℕ) (e : Engine)
    → Installs pairwise
        (record { pairwise = pairwise; keyidx = keyidx; cipher = cipher; key = tk })
        e
        (install_key hw pairwise keyidx cipher tk e)
unfolding Installs
install_key-Installs hw pairwise keyidx cipher tk e =
    let k : Key = record { pairwise = pairwise; keyidx = keyidx; cipher = cipher; key = tk } in
    let empty : Engine = removed pairwise (slot pairwise e) e in
    let gone = core-removed pairwise (slot pairwise e) e refl in
    let t : Option Key = told_key empty.trace in
    let enabled : Option Key = told_key (emit (enable_key k) empty).trace in
    let same = λ (h : pairwise ≡ false) (g : IsGroup e.gtk_conf).
      told-enabled k empty h ∙ told-removed pairwise e h g in
    either (Installs pairwise k e) (not e.attached || not (key_fits cipher (length tk))) (false, e)
      _
      (λ _. (
        slot pairwise e,
        told_key e.trace,
        core-slot pairwise e,
        λ f. absurd (ground (arith, f)),
        λ h g. (refl, slot-IsGroup pairwise e h g),
      ))
      (λ _.
        either (Installs pairwise k e) (not hw.granted) (false, empty) _
          (λ _. (
            none,
            t,
            gone,
            λ f. absurd (ground (arith, f)),
            λ h g. (told-removed pairwise e h g, none-IsGroup),
          ))
          (λ _.
            either (Installs pairwise k e) (not hw.accepted) (false, emit (enable_key k) empty) _
              (λ _. (
                none,
                enabled,
                core-refused pairwise k e empty t gone,
                λ f. absurd (ground (arith, f)),
                λ h g. (same h g, none-IsGroup),
              ))
              (λ _. (
                some k,
                enabled,
                core-stored pairwise k e empty t gone,
                λ _. (refl, λ h. told-pairwise k empty h),
                λ h g. (same h g, some-IsGroup k h),
              ))))

placed-Valid :
    (pairwise : Bool) (o t : Option Key) (e : Engine)
    → IsValid e
    → is e.state connected ≡ true
    → e.external ≡ true
    → (pairwise ≡ false → IsGroup o)
    → Valid (placed pairwise o t e)
placed-Valid true o t e v at x g = external-Valid (core e) o e.gtk_conf t v at x v.grouped
placed-Valid false o t e v at x g = external-Valid (core e) e.ptk_conf o t v at x (g refl)

pub cmd_install_external_key-Valid :
    (hw : KeyHw) (pairwise : Bool) (keyidx cipher : ℕ) (key : List ℕ) (e : Engine)
    → IsValid e
    → IsValid (cmd_install_external_key hw pairwise keyidx cipher key e).1
unfolding cmd_install_external_key Installs
cmd_install_external_key-Valid hw pairwise keyidx cipher key e v =
    either (λ (p : Result × Engine). IsValid p.1)
      (not e.external || (not e.wpa2 || not (is e.state connected))) _ _ (λ _. v)
      (λ may.
        either (λ (p : Result × Engine). IsValid p.1) (length key == 0) _ _ (λ _. v)
          (λ _.
            either (λ (p : Result × Engine). IsValid p.1) (pairwise && not e.sta) _ _ (λ _. v)
              (λ _.
                (let (o, t, same, new, group) =
                    install_key-Installs hw pairwise keyidx cipher key e in
                  Valid-from (placed pairwise o t e)
                    (core (install_key hw pairwise keyidx cipher key e).1) same
                    (placed-Valid pairwise o t e v (ground (arith, may)) (ground (arith, may))
                      (λ h. (group h v.grouped).1))))))

pub core-power_on : (starts : Bool) (e : Engine) → core (power_on starts e).1 ≡ core e
unfolding power_on
core-power_on starts e =
    either (λ (p : Result × Engine). core p.1 ≡ core e) e.powered _ _ (λ _. refl)
      (λ _.
        either (λ (p : Result × Engine). core p.1 ≡ core e) (not e.attached) _ _ (λ _. refl)
          (λ _.
            either (λ (p : Result × Engine). core p.1 ≡ core e) starts _ _ (λ _. refl) (λ _. refl)))

pub core-power_off : (e : Engine) → core (power_off e) ≡ core e
unfolding power_off
core-power_off e = core-if (core e) e.powered _ e refl refl

pub cmd_power_on-Valid :
    (starts : Bool) (e : Engine) → IsValid e → IsValid (cmd_power_on starts e).1
unfolding cmd_power_on
cmd_power_on-Valid starts e v =
    let e1 : Engine = (power_on starts e).1 in
    let v1 : IsValid e1 = Valid-from (core e) (core e1) (core-power_on starts e) v in
    either (λ (p : Result × Engine). IsValid p.1)
      (is_success (power_on starts e).0 && is e1.state disconnecting) _ _
      (λ lost. absurd (ground (arith, lost, v1.known))) (λ _. v1)
