-- ===== src/Reorder/Slots.antt =====
-- The frames of a window in the order of their positions. A position is a sequence number that
-- goes on past 4095; its slot is the one of its remainder.
use airport_rtw.Base.{
  ℕ, zero, suc, ◌+◌, ◌%◌, ◌≤◌, ◌<◌, ◌≡◌, ◌≢◌, refl, ap, ap₂, ◌∙◌, Option, none, some, List, [],
  ◌++◌, arith, update,
}
use airport_rtw.Reorder.{held}

-- The frames at `n` positions from `p` on.
unfoldable pub waiting : (ℕ → Option ℕ) → (n p : ℕ) → List ℕ
waiting buf zero p = []
waiting buf (suc n) p = held (buf (p % 64)) (waiting buf n (p + 1))

held-append : (o : Option ℕ) (xs ys : List ℕ) → held o (xs ++ ys) ≡ held o xs ++ ys
held-append none xs ys = refl
held-append (some x) xs ys = refl

pub waiting-cut :
    (buf : ℕ → Option ℕ) (n m p : ℕ)
    → waiting buf (n + m) p ≡ waiting buf n p ++ waiting buf m (p + n)
unfolding waiting
waiting-cut buf zero m p = ap₂ (waiting buf) (omega arith) (omega arith)
waiting-cut buf (suc n) m p =
    ap (λ k. waiting buf k p) {y = suc (n + m)} (omega arith)
    ∙ ap (held (buf (p % 64))) (
        waiting-cut buf n m (p + 1)
        ∙ ap (λ q. waiting buf n (p + 1) ++ waiting buf m q) (omega arith))
    ∙ held-append (buf (p % 64)) (waiting buf n (p + 1)) (waiting buf m (p + suc n))

-- A slot that no position of the range has.
pub waiting-apart :
    (buf : ℕ → Option ℕ) (v : Option ℕ) (n p i : ℕ)
    → ((q : ℕ) → p ≤ q → q < p + n → q % 64 ≢ i)
    → waiting (update buf i v) n p ≡ waiting buf n p
unfolding waiting
waiting-apart buf v zero p i h = refl
waiting-apart buf v (suc n) p i h =
    ap₂ held (ground (arith, h p))
      (waiting-apart buf v n (p + 1) i (λ q low under. h q (omega arith) (omega arith)))

pub waiting-none :
    (buf : ℕ → Option ℕ) (n p : ℕ)
    → ((q : ℕ) → p ≤ q → q < p + n → buf (q % 64) ≡ none)
    → waiting buf n p ≡ []
unfolding waiting
waiting-none buf zero p h = refl
waiting-none buf (suc n) p h =
    ap₂ held (h p (omega arith) (omega arith))
      (waiting-none buf n (p + 1) (λ q low under. h q (omega arith) (omega arith)))
