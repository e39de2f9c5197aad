-- ===== src/Wpa/Ptk.antt =====
-- The pairwise key of src/kext/RTW88IEEE80211.cpp from either side of the handshake.
use airport_rtw.Base.{
  ℕ, ◌≡◌, refl, ap, ap₂, sym, ◌∙◌, arith, List, [], ◌∷◌, ◌++◌, length, ◌==◌, not, ◌⊎◌, inl, inr,
  Bool-cases, ==_iff,
}
use airport_rtw.Wpa.{Cipher, before, lower, upper, derive_ptk, expansion, label, ptk_of}

-- Of two different rows of bytes one comes before the other.
before-one :
    (xs ys : List ℕ) → length xs ≡ length ys → (xs ≡ ys) ⊎ (before xs ys ≡ not (before ys xs))
unfolding before
before-one [] [] e = inl refl
before-one [] (y ∷ ys) e = absurd (omega (arith, e))
before-one (x ∷ xs) [] e = absurd (omega (arith, e))
before-one (x ∷ xs) (y ∷ ys) e = elim (before-one xs ys (omega (arith, e))) [
  | inl same ↦ elim (Bool-cases (x == y)) [
    | inl here ↦ inl (ap₂ (λ z zs. z ∷ zs) ((==_iff x y).0 here) same)
    | inr other ↦ inr (ground arith)
  ]
  | inr apart ↦ inr (ground arith)
]

order-swap :
    (xs ys : List ℕ)
    → length xs ≡ length ys
    → (lower xs ys ≡ lower ys xs) × (upper xs ys ≡ upper ys xs)
order-swap xs ys e = elim (before-one xs ys e) [
  | inl same ↦ (ap₂ lower same (sym same), ap₂ upper same (sym same))
  | inr apart ↦ ground arith
]

-- The station, with its nonce and address first, and the access point, with its own first, derive
-- the same pairwise key, for nonces of one length and addresses of one length.
pub derive_ptk-swap :
    (c : Cipher) (pmk anonce snonce spa aa : List ℕ)
    → length anonce ≡ length snonce
    → length spa ≡ length aa
    → derive_ptk c pmk anonce snonce spa aa ≡ derive_ptk c pmk snonce anonce aa spa
unfolding derive_ptk
derive_ptk-swap c pmk anonce snonce spa aa e f =
    let nonces = order-swap snonce anonce (sym e) in
    let macs = order-swap spa aa f in
    ap (ptk_of c pmk) {x = expansion anonce snonce spa aa} {y = expansion snonce anonce aa spa} (
      ap₂ (λ l u. label ++ (l ++ (u ++ (lower snonce anonce ++ upper snonce anonce)))) macs.0 macs.1
      ∙ ap₂ (λ l u. label ++ (lower aa spa ++ (upper aa spa ++ (l ++ u)))) nonces.0 nonces.1)
