-- ===== src/Sha1/Stream.antt =====
-- `kern_sha1_update` of src/kext/RTW88IEEE80211.cpp: what a context stands for, and that a message
-- may come in pieces.
use airport_rtw.Base.{
  ℕ, zero, suc, ◌+◌, ◌%◌, ◌≤◌, ◌<◌, ◌≡◌, ◌⊎◌, leb-of_le, leb-of_lt, refl, ap, ap₂, sym, ◌∙◌, inl,
  inr, arith, List, [], ◌∷◌, ◌++◌, ltb, Bool-cases, length, length-append, length-drop, take, drop,
}
use airport_rtw.Sha1.{Words, transform, absorb}

abbrev pub Left : Type 0
Left = Words × List ℕ

-- A round, and the end of the loop.
pub absorb-round :
    (fuel : ℕ) (s : Words) (text : List ℕ)
    → 64 ≤ length text
    → absorb (suc fuel) s text ≡ absorb fuel (transform s (take 64 text)) (drop 64 text)
unfolding absorb
absorb-round fuel s text h = rw (leb-of_le (length text) 64 h) refl

pub absorb-done :
    (fuel : ℕ) (s : Words) (text : List ℕ) → length text < 64 → absorb fuel s text ≡ (s, text)
unfolding absorb
absorb-done zero s text h = refl
absorb-done (suc fuel) s text h = rw (leb-of_lt (length text) 64 h) refl

pub long_or_short : (n : ℕ) → (64 ≤ n) ⊎ (n < 64)
long_or_short n = elim (Bool-cases (ltb n 64)) [
  | inl e ↦ inr (ground arith)
  | inr e ↦ inl (ground arith)
]

-- Fuel beyond the length changes nothing.
pub absorb-fuel :
    (f g : ℕ) (s : Words) (text : List ℕ)
    → length text ≤ f
    → length text ≤ g
    → absorb f s text ≡ absorb g s text
absorb-fuel zero g s text h k =
    absorb-done 0 s text (omega arith) ∙ sym (absorb-done g s text (omega arith))
absorb-fuel (suc f) zero s text h k =
    absorb-done (suc f) s text (omega arith) ∙ sym (absorb-done 0 s text (omega arith))
absorb-fuel (suc f) (suc g) s text h k = elim (long_or_short (length text)) [
  | inl long ↦
      absorb-round f s text long
      ∙ absorb-fuel f g (transform s (take 64 text)) (drop 64 text)
          (omega (arith, length-drop 64 text)) (omega (arith, length-drop 64 text))
      ∙ sym (absorb-round g s text long)
  | inr short ↦ absorb-done (suc f) s text short ∙ sym (absorb-done (suc g) s text short)
]

pub take-front : (n : ℕ) (xs ys : List ℕ) → n ≤ length xs → take n (xs ++ ys) ≡ take n xs
take-front zero xs ys h = refl
take-front (suc n) [] ys h = absurd (omega arith)
take-front (suc n) (x ∷ xs) ys h = ap (λ t. x ∷ t) (take-front n xs ys (omega arith))

drop-front : (n : ℕ) (xs ys : List ℕ) → n ≤ length xs → drop n (xs ++ ys) ≡ drop n xs ++ ys
drop-front zero xs ys h = refl
drop-front (suc n) [] ys h = absurd (omega arith)
drop-front (suc n) (x ∷ xs) ys h = drop-front n xs ys (omega arith)

-- What is left is shorter than a block.
pub length-absorb :
    (f : ℕ) (s : Words) (text : List ℕ)
    → length text ≤ f
    → length (absorb f s text).1 ≡ length text % 64
length-absorb zero s text h =
    ap (λ (r : Left). length r.1) (absorb-done 0 s text (omega arith)) ∙ omega arith
length-absorb (suc f) s text h = elim (long_or_short (length text)) [
  | inl long ↦
      ap (λ (r : Left). length r.1) (absorb-round f s text long)
      ∙ length-absorb f (transform s (take 64 text)) (drop 64 text)
          (omega (arith, length-drop 64 text))
      ∙ omega (arith, length-drop 64 text)
  | inr short ↦ ap (λ (r : Left). length r.1) (absorb-done (suc f) s text short) ∙ omega arith
]

-- More text behind: it is taken up where the blocks end.
pub absorb-append :
    (f : ℕ) (s : Words) (xs ys : List ℕ)
    → length xs + length ys ≤ f
    → absorb f s (xs ++ ys) ≡ absorb f (absorb f s xs).0 ((absorb f s xs).1 ++ ys)
absorb-append zero s xs ys h =
    sym (ap (λ (r : Left). absorb 0 r.0 (r.1 ++ ys)) (absorb-done 0 s xs (omega arith)))
absorb-append (suc f) s xs ys h = elim (long_or_short (length xs)) [
  | inl long ↦
      (let s1 = transform s (take 64 xs) in
        let rest = drop 64 xs in
        let less = length-drop 64 xs in
        let inner = absorb f s1 rest in
        absorb-round f s (xs ++ ys) (omega (arith, length-append xs ys))
        ∙ ap₂ (λ b t. absorb f (transform s b) t) (take-front 64 xs ys long)
            (drop-front 64 xs ys long)
        ∙ absorb-append f s1 rest ys (omega (arith, less))
        ∙ absorb-fuel f (suc f) inner.0 (inner.1 ++ ys)
            (omega (
              arith,
              length-append inner.1 ys,
              length-absorb f s1 rest (omega (arith, less)),
              less,
            ))
            (omega (
              arith,
              length-append inner.1 ys,
              length-absorb f s1 rest (omega (arith, less)),
              less,
            ))
        ∙ sym (ap (λ (r : Left). absorb (suc f) r.0 (r.1 ++ ys)) (absorb-round f s xs long)))
  | inr short ↦
      sym (ap (λ (r : Left). absorb (suc f) r.0 (r.1 ++ ys)) (absorb-done (suc f) s xs short))
]
