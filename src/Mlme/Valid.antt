-- ===== src/Mlme/Valid.antt =====
-- What holds of the station between two calls, on the part of its state that it is about.
use airport_rtw.Base.{
  ℕ, Bool, true, false, ◌||◌, Option, none, some, List, [], ◌∷◌, if◌then◌else◌, ◌≡◌, refl, arith,
  take, drop, replicate,
}
use airport_rtw.Wpa.{ccmp}
use airport_rtw.Mlme.{
  State, idle, scanning, authenticating, associating, handshaking, connected, disconnecting, is,
  Key, Action, enable_key, disable_key, Engine,
}

-- The pairwise key that the driver was told to enable, and was not told to disable since.
abbrev pub told_key : List Action → Option Key
told_key [] = none
told_key (enable_key k ∷ before) = if k.pairwise then some k else told_key before
told_key (disable_key k ∷ before) = if k.pairwise then none else told_key before
told_key (_ ∷ before) = told_key before

pub record Core : Type 0 where
  pub attached : Bool
  pub state : State
  pub cancelled : Bool
  pub scan_return : State
  pub external : Bool
  pub wpa2 : Bool
  pub ptk_conf : Option Key
  pub gtk_conf : Option Key
  pub ptk : List ℕ
  pub told : Option Key

abbrev pub core : Engine → Core
core e = record {
  attached = e.attached;
  state = e.state;
  cancelled = e.cancelled;
  scan_return = e.scan_return;
  external = e.external;
  wpa2 = e.wpa2;
  ptk_conf = e.ptk_conf;
  gtk_conf = e.gtk_conf;
  ptk = e.ptk;
  told = told_key e.trace;
}

abbrev pub uses_keys : State → Bool
uses_keys s = is s handshaking || is s connected

-- On the way to a network, or in one.
abbrev pub linking : State → Bool
linking s = (is s authenticating || is s associating) || uses_keys s

-- The key in the slot is the temporal key of the handshake, and the driver was told to enable it.
abbrev pub HasTk : Core → Type 0
HasTk k =
    (key : Key) × (k.ptk_conf ≡ some key)
    × (key.cipher ≡ ccmp)
    × (key.key ≡ take 16 (drop 32 k.ptk))
    × (k.told ≡ some key)

abbrev pub IsGroup : Option Key → Type 0
IsGroup o = (key : Key) → o ≡ some key → key.pairwise ≡ false

pub record Valid (k : Core) : Type 0 where
  pub here : k.attached ≡ true
  pub scan_home : k.scan_return ≡ idle
  pub known : is k.state disconnecting ≡ false
  pub keyed : is k.state connected ≡ true → k.wpa2 ≡ true → k.external ≡ false → HasTk k
  pub unkeyed : uses_keys k.state ≡ false → (k.ptk_conf ≡ none) × (k.gtk_conf ≡ none)
  pub shaking : is k.state handshaking ≡ true → (k.wpa2 ≡ true) × (k.external ≡ false)
  pub uncancelled : k.cancelled ≡ true → linking k.state ≡ false
  pub grouped : IsGroup k.gtk_conf

abbrev pub IsValid : Engine → Type 0
IsValid e = Valid (core e)

pub none-IsGroup : IsGroup none
none-IsGroup key e = cc

-- The keys are gone and the station is idle.
abbrev pub unlinked : Core → (told : Option Key) → Core
unlinked k t = record k {
  told = t;
  state = idle;
  scan_return = idle;
  ptk_conf = none;
  gtk_conf = none;
  ptk = replicate 64 0;
}

pub unlinked-Valid : (k : Core) (t : Option Key) → k.attached ≡ true → Valid (unlinked k t)
unlinked-Valid k t h = record {
  here = h;
  scan_home = refl;
  known = refl;
  keyed = λ e _ _. absurd (ground (arith, e));
  unkeyed = λ _. (refl, refl);
  shaking = λ e. absurd (ground (arith, e));
  uncancelled = λ _. refl;
  grouped = none-IsGroup;
}

-- From a state without keys to another one.
pub moved-Valid :
    (k : Core) (s : State)
    → Valid k
    → uses_keys k.state ≡ false
    → uses_keys s ≡ false
    → is s disconnecting ≡ false
    → (k.cancelled ≡ true → linking s ≡ false)
    → Valid (record k { state = s })
moved-Valid k s v e f g h = record {
  here = v.here;
  scan_home = v.scan_home;
  known = g;
  keyed = λ c _ _. absurd (ground (arith, c, f));
  unkeyed = λ _. v.unkeyed e;
  shaking = λ c. absurd (ground (arith, c, f));
  uncancelled = h;
  grouped = v.grouped;
}

pub idle-Valid :
    (k : Core) → Valid k → uses_keys k.state ≡ false → Valid (record k { state = idle })
idle-Valid k v e = moved-Valid k idle v e refl refl (λ _. refl)

-- A scan ends where it began.
pub left-Valid :
    (k : Core)
    → Valid k
    → is k.state scanning ≡ true
    → Valid (record k { state = k.scan_return; scan_return = idle })
left-Valid k v e = record {
  here = v.here;
  scan_home = refl;
  known = ground (arith, v.scan_home);
  keyed = λ c _ _. absurd (ground (arith, c, v.scan_home));
  unkeyed = λ _. v.unkeyed (ground (arith, e));
  shaking = λ c. absurd (ground (arith, c, v.scan_home));
  uncancelled = λ _. ground (arith, v.scan_home);
  grouped = v.grouped;
}

-- Keys may change during the handshake.
pub handshake-Valid :
    (k : Core) (p g t : Option Key) (ptk : List ℕ)
    → Valid k
    → is k.state handshaking ≡ true
    → IsGroup g
    → Valid (record k { ptk_conf = p; gtk_conf = g; ptk = ptk; told = t })
handshake-Valid k p g t ptk v e group = record {
  here = v.here;
  scan_home = v.scan_home;
  known = v.known;
  keyed = λ c _ _. absurd (ground (arith, c, e));
  unkeyed = λ f. absurd (ground (arith, e, f));
  shaking = v.shaking;
  uncancelled = v.uncancelled;
  grouped = group;
}

-- With the temporal key in place the handshake is done.
pub joined-Valid :
    (k : Core)
    → Valid k
    → is k.state handshaking ≡ true
    → HasTk k
    → Valid (record k { state = connected })
joined-Valid k v e t = record {
  here = v.here;
  scan_home = v.scan_home;
  known = refl;
  keyed = λ _ _ _. t;
  unkeyed = λ f. absurd (ground (arith, f));
  shaking = λ f. absurd (ground (arith, f));
  uncancelled = λ c. absurd (ground (arith, v.uncancelled c, e));
  grouped = v.grouped;
}

-- An external supplicant has its own keys.
pub external-Valid :
    (k : Core) (p g t : Option Key)
    → Valid k
    → is k.state connected ≡ true
    → k.external ≡ true
    → IsGroup g
    → Valid (record k { ptk_conf = p; gtk_conf = g; told = t })
external-Valid k p g t v e x group = record {
  here = v.here;
  scan_home = v.scan_home;
  known = v.known;
  keyed = λ _ _ n. absurd (ground (arith, n, x));
  unkeyed = λ f. absurd (ground (arith, e, f));
  shaking = v.shaking;
  uncancelled = v.uncancelled;
  grouped = group;
}
