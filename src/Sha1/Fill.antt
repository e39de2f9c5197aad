-- ===== src/Sha1/Fill.antt =====
-- The loop of `kern_sha1_final` of src/kext/RTW88IEEE80211.cpp ends.
use Prim.Native.Nat.{bit_and}
use airport_rtw.Base.{
  ℕ, zero, suc, ◌+◌, ◌-◌, ◌*◌, ◌/◌, ◌%◌, ◌≤◌, ◌<◌, ◌≡◌, refl, ap, ◌∙◌, Bool, true, false, arith,
  List, [], ◌∷◌, ◌++◌, ◌==◌, if◌then◌else◌, length, length-append,
}
use airport_rtw.Bits.Laws.{bit_and-eights}
use airport_rtw.Sha1.{Context, update, fill}
use airport_rtw.Sha1.Stream.{length-absorb}
use airport_rtw.Sha1.Update.{held, pending, IsContext, length-pending, update-Updated}

-- The test looks at the bytes that wait.
test-held : (n : ℕ) → n % 8 ≡ 0 → bit_and n 504 ≡ n / 8 % 64 * 8
test-held n e =
    let eights : n ≡ n / 8 * 8 = omega (arith, e) in
    ap (λ x. bit_and x 504) eights ∙ bit_and-eights (n / 8)

-- One byte more waits.
held-update : (c : Context) (b : ℕ) → IsContext c → held (update c (b ∷ [])) ≡ (held c + 1) % 64
held-update c b v =
    let u = update-Updated c (b ∷ []) v (omega arith) in
    omega (
      arith,
      length-pending (update c (b ∷ [])) [] u.valid (omega arith),
      ap (λ (l : List ℕ). length l) u.waits,
      length-absorb (suc (held c + 1)) c.state (pending c ++ b ∷ [])
          (omega (arith, length-append (pending c) (b ∷ []), length-pending c [] v (omega arith))),
      length-append (pending c) (b ∷ []),
      length-pending c [] v (omega arith),
    )

abbrev Filled : Context → Type 0
Filled n = IsContext n × (held n ≡ 56)

if-Filled :
    (b : Bool) (c n : Context)
    → (b ≡ true → Filled c)
    → (b ≡ false → Filled n)
    → Filled (if b then c else n)
if-Filled true c n f g = f refl
if-Filled false c n f g = g refl

full : (h n : ℕ) → n ≡ h * 8 → (n == 448) ≡ true → h ≡ 56
full h n e t = ground arith

not_full : (h n : ℕ) → n ≡ h * 8 → (n == 448) ≡ false → ¬ (h ≡ 56)
not_full h n e t = ground arith

closer :
    (h k fuel : ℕ)
    → h < 64
    → ¬ (h ≡ 56)
    → k ≡ (h + 1) % 64
    → (120 - h) % 64 ≤ suc fuel
    → (120 - k) % 64 ≤ fuel
closer h k fuel low away e le = ground arith

fill_rounds :
    (fuel : ℕ) (c : Context) → IsContext c → (120 - held c) % 64 ≤ fuel → Filled (fill fuel c)
unfolding fill
fill_rounds zero c v h = (v, omega arith)
fill_rounds (suc fuel) c v h =
    let n = update c (0 ∷ []) in
    let u = update-Updated c (0 ∷ []) v (omega arith) in
    let test = test-held c.count0 v.bytes in
    if-Filled (bit_and c.count0 504 == 448) c (fill fuel n)
      (λ done. (v, full (held c) (bit_and c.count0 504) test done))
      (λ more.
        let away = not_full (held c) (bit_and c.count0 504) test more in
        fill_rounds fuel n u.valid
          (closer (held c) (held n) fuel (omega arith) away (held-update c 0 v) h))

-- From every context the loop ends by its test within 64 rounds, with 56 bytes in the block, so
-- that the eight bytes of the count complete it.
pub fill_ends :
    (c : Context)
    → IsContext c
    → IsContext (fill 64 c) × (held (fill 64 c) ≡ 56) × (bit_and (fill 64 c).count0 504 ≡ 448)
fill_ends c v =
    let filled = fill_rounds 64 c v (omega arith) in
    (filled.0, filled.1, test-held (fill 64 c).count0 filled.0.bytes ∙ ap (λ h. h * 8) filled.1)
