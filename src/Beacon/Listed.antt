-- ===== src/Beacon/Listed.antt =====
-- The list of networks of `processScanResult` of src/kext/RTW88IEEE80211.cpp, by address.
use airport_rtw.Base.{
  ℕ, ◌≡◌, refl, ap, ap₂, sym, ◌∙◌, inl, inr, Bool, true, false, ◌&&◌, Option, none, some, List, [],
  ◌∷◌, ◌==◌, ==_iff, if◌then◌else◌, arith, Bool-cases,
}
use airport_rtw.Wpa.{same_bytes}
use airport_rtw.Wpa.Unwrap.{same_bytes_refl}
use airport_rtw.Beacon.{Network, replaced, or_front, add_network}

both : (a b : Bool) → (a && b) ≡ true → (a ≡ true) × (b ≡ true)
both a b h = ground arith

same_bytes-eq : (xs ys : List ℕ) → same_bytes xs ys ≡ true → xs ≡ ys
same_bytes-eq [] [] h = refl
same_bytes-eq [] (y ∷ ys) h = cc
same_bytes-eq (x ∷ xs) [] h = cc
same_bytes-eq (x ∷ xs) (y ∷ ys) h =
    let e = both (x == y) (same_bytes xs ys) h in
    ap₂ (λ a b. a ∷ b) ((==_iff x y).0 e.0) (same_bytes-eq xs ys e.1)

-- The network with an address, and how many there are with it.
unfoldable pub find : List ℕ → List Network → Option Network
find a [] = none
find a (e ∷ es) = let later = find a es in if same_bytes e.bssid a then some e else later

unfoldable pub IsUnique : List Network → Type 0
IsUnique [] = Unit
IsUnique (e ∷ es) = (find e.bssid es ≡ none) × IsUnique es

-- The choice at the head of the list.
if-some :
    {A : Type 0} (b c : Bool) (x y : A) (o p : Option A)
    → (c ≡ true → b ≡ false)
    → p ≡ (if b then some x else o)
    → (if c then some y else p) ≡ (if b then some x else if c then some y else o)
if-some true true x y o p f e = cc (f refl)
if-some true false x y o p f e = e
if-some false true x y o p f e = refl
if-some false false x y o p f e = e

if-twice :
    {A : Type 0} (b : Bool) (x y : A) (o : Option A)
    → (if b then some x else o) ≡ (if b then some x else if b then some y else o)
if-twice true x y o = refl
if-twice false x y o = refl

not_both :
    (a e n : List ℕ) → same_bytes e n ≡ false → same_bytes e a ≡ true → same_bytes n a ≡ false
not_both a e n apart h = elim (Bool-cases (same_bytes n a)) [
  | inl g ↦
      (let eq = same_bytes-eq e a h ∙ sym (same_bytes-eq n a g) in
        let same : same_bytes e n ≡ true =
          ap (λ (x : List ℕ). same_bytes x n) eq ∙ same_bytes_refl n in
        cc)
  | inr g ↦ g
]

-- What `replaced` answers: nobody has the address, or the list with the entry overwritten.
data Replaced (n : Network) (es : List Network) : Option (List Network) → Type 0 where
  nobody : find n.bssid es ≡ none → Replaced n es none
  overwritten :
      (rest : List Network)
      → ((a : List ℕ) → find a rest ≡ (if same_bytes n.bssid a then some n else find a es))
      → (IsUnique es → IsUnique rest)
      → Replaced n es (some rest)

behind :
    (n e : Network) (es : List Network) (o : Option (List Network))
    → same_bytes e.bssid n.bssid ≡ false
    → Replaced n es o
    → Replaced n (e ∷ es) (elim o [ none ↦ none | some rest ↦ some (e ∷ rest) ])
unfolding find IsUnique
behind n e es _ apart (nobody h) = nobody (rw apart h)
behind n e es _ apart (overwritten rest f u) =
    overwritten (e ∷ rest)
      (λ a.
        if-some (same_bytes n.bssid a) (same_bytes e.bssid a) n e (find a es) (find a rest)
          (not_both a e.bssid n.bssid apart) (f a))
      (λ v.
        let other = not_both e.bssid e.bssid n.bssid apart (same_bytes_refl e.bssid) in
        (f e.bssid ∙ ap (λ (b : Bool). if b then some n else find e.bssid es) other ∙ v.0, u v.1))

replaced-Replaced : (n : Network) (es : List Network) → Replaced n es (replaced n es)
unfolding replaced find IsUnique
replaced-Replaced n [] = nobody refl
replaced-Replaced n (e ∷ es) = elim (Bool-cases (same_bytes e.bssid n.bssid)) [
  | inl same ↦
      (let eq = same_bytes-eq e.bssid n.bssid same in
        rw same (
          overwritten (n ∷ es)
            (λ a.
              if-twice (same_bytes n.bssid a) n e (find a es)
              ∙ ap
                  (λ (b : List ℕ).
                    if same_bytes n.bssid a
                    then some n
                    else if same_bytes b a
                    then some e
                    else find a es)
                  (sym eq))
            (λ v. (ap (λ (b : List ℕ). find b es) (sym eq) ∙ v.0, v.1))))
  | inr apart ↦ rw apart (behind n e es (replaced n es) apart (replaced-Replaced n es))
]

added :
    (n : Network) (es : List Network) (o : Option (List Network))
    → Replaced n es o
    → ((a : List ℕ)
        → find a (or_front n es o) ≡ (if same_bytes n.bssid a then some n else find a es))
      × (IsUnique es → IsUnique (or_front n es o))
unfolding find IsUnique
added n es _ (nobody h) = (λ a. refl, λ v. (h, v))
added n es _ (overwritten rest f u) = (f, u)

-- In a list where no two entries have the same address: after a network is added, its address
-- leads to it, every other address to what it led to before, and still no two entries have the
-- same address.
pub add_network_lem :
    (n : Network) (es : List Network)
    → IsUnique es
    → ((a : List ℕ)
        → find a (add_network n es) ≡ (if same_bytes n.bssid a then some n else find a es))
      × IsUnique (add_network n es)
unfolding add_network
add_network_lem n es u = let r = added n es (replaced n es) (replaced-Replaced n es) in (r.0, r.1 u)
