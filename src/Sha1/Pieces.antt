-- ===== src/Sha1/Pieces.antt =====
-- Contexts that stand for the same text, and a text in two pieces, of src/kext/RTW88IEEE80211.cpp.
use airport_rtw.Base.{
  ℕ, suc, ◌+◌, ◌*◌, ◌/◌, ◌%◌, ◌^◌, ◌<◌, ◌≡◌, ap, sym, ◌∙◌, arith, List, [], ◌++◌, append_assoc,
  append-nil, length, length-append,
}
use airport_rtw.Sha1.{Context, absorb, update}
use airport_rtw.Sha1.Stream.{Left, absorb-done, absorb-fuel, absorb-append, length-absorb}
use airport_rtw.Sha1.Update.{
  held, pending, bits, IsContext, taken_up, length-pending, update-Updated,
}

-- Two contexts that stand for the same text.
pub record Same (c k : Context) : Type 0 where
  pub words : c.state ≡ k.state
  pub waits : pending c ≡ pending k
  pub low : c.count0 ≡ k.count0
  pub high : c.count1 ≡ k.count1
  pub valid : IsContext c
  pub valid' : IsContext k

pub Same-trans : (c k n : Context) → Same c k → Same k n → Same c n
Same-trans c k n p q = record {
  words = p.words ∙ q.words;
  waits = p.waits ∙ q.waits;
  low = p.low ∙ q.low;
  high = p.high ∙ q.high;
  valid = p.valid;
  valid' = q.valid';
}

-- Equal bits are equal counts.
counts :
    (c0 c1 k0 k1 : ℕ)
    → c0 < 2 ^ 32
    → k0 < 2 ^ 32
    → c1 * 2 ^ 32 + c0 ≡ k1 * 2 ^ 32 + k0
    → (c0 ≡ k0) × (c1 ≡ k1)
counts c0 c1 k0 k1 h g e = (omega arith, omega arith)

equal-Same :
    (c k : Context)
    → c.state ≡ k.state
    → pending c ≡ pending k
    → bits c ≡ bits k
    → IsContext c
    → IsContext k
    → Same c k
equal-Same c k s p b v w =
    let e = counts c.count0 c.count1 k.count0 k.count1 v.low w.low b in
    record { words = s; waits = p; low = e.0; high = e.1; valid = v; valid' = w }

-- The same text behind both.
pub update-Same :
    (c k : Context) (text : List ℕ)
    → Same c k
    → length text < 2 ^ 32
    → Same (update c text) (update k text)
update-Same c k text s h =
    let u = update-Updated c text s.valid h in
    let w = update-Updated k text s.valid' h in
    let both : taken_up c text ≡ taken_up k text =
      λ i. absorb (suc (s.low i / 8 % 64 + length text)) (s.words i) (s.waits i ++ text) in
    equal-Same (update c text) (update k text) (u.words ∙ ap (λ (r : Left). r.0) both ∙ sym w.words)
      (u.waits ∙ ap (λ (r : Left). r.1) both ∙ sym w.waits)
      (u.counted ∙ (λ i. (s.high i * 2 ^ 32 + s.low i + length text * 8) % 2 ^ 64) ∙ sym w.counted)
      u.valid w.valid

-- Nothing behind changes nothing.
pub update-nil : (c : Context) → IsContext c → Same c (update c [])
update-nil c v =
    let u = update-Updated c [] v (omega arith) in
    let none : taken_up c [] ≡ (c.state, pending c) =
      ap (absorb (suc (held c + 0)) c.state) (append-nil (pending c))
      ∙ absorb-done (suc (held c + 0)) c.state (pending c)
          (omega (arith, length-pending c [] v (omega arith))) in
    equal-Same c (update c []) (sym (u.words ∙ ap (λ (r : Left). r.0) none))
      (sym (u.waits ∙ ap (λ (r : Left). r.1) none)) (omega (arith, u.counted, v.low, v.high)) v
      u.valid

-- Two texts, or both as one.
pub update-append :
    (c : Context) (x y : List ℕ)
    → IsContext c
    → length x + length y < 2 ^ 32
    → Same (update (update c x) y) (update c (x ++ y))
update-append c x y v h =
    let size = length-append x y in
    let u = update-Updated c x v (omega arith) in
    let w = update-Updated (update c x) y u.valid (omega arith) in
    let t = update-Updated c (x ++ y) v (omega (arith, size)) in
    let n = update c x in
    let p = length-pending c x v (omega arith) in
    let p' = length-pending n y u.valid (omega arith) in
    let fuel : ℕ = suc (held c + length (x ++ y)) in
    let px = length-append (pending c) x in
    let first = absorb fuel c.state (pending c ++ x) in
    let early : taken_up c x ≡ first =
      absorb-fuel (suc (held c + length x)) fuel c.state (pending c ++ x) (omega (arith, px, p))
        (omega (arith, px, p, size)) in
    let left = length-absorb fuel c.state (pending c ++ x) (omega (arith, px, p, size)) in
    let later : taken_up n y ≡ absorb fuel first.0 (first.1 ++ y) =
      (λ i.
        absorb (suc (held n + length y)) ((u.words ∙ ap (λ (r : Left). r.0) early) i)
          ((u.waits ∙ ap (λ (r : Left). r.1) early) i ++ y))
      ∙ absorb-fuel (suc (held n + length y)) fuel first.0 (first.1 ++ y)
          (omega (
            arith,
            length-append first.1 y,
            p',
            ap (λ (l : List ℕ). length l) (u.waits ∙ ap (λ (r : Left). r.1) early),
          ))
          (omega (arith, length-append first.1 y, left, px, p, size)) in
    let whole : taken_up c (x ++ y) ≡ absorb fuel first.0 (first.1 ++ y) =
      ap (absorb fuel c.state) (sym (append_assoc (pending c) x y))
      ∙ absorb-append fuel c.state (pending c ++ x) y (omega (arith, px, p, size)) in
    let both : taken_up n y ≡ taken_up c (x ++ y) = later ∙ sym whole in
    equal-Same (update n y) (update c (x ++ y))
      (w.words ∙ ap (λ (r : Left). r.0) both ∙ sym t.words)
      (w.waits ∙ ap (λ (r : Left). r.1) both ∙ sym t.waits)
      (omega (arith, w.counted, u.counted, t.counted, size)) w.valid t.valid
