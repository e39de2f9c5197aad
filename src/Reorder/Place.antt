-- ===== src/Reorder/Place.antt =====
-- A frame goes into its slot.
use airport_rtw.Base.{
  ℕ, suc, ◌+◌, ◌-◌, ◌%◌, ◌^◌, ◌<◌, ◌≡◌, refl, ap, ap₂, sym, ◌∙◌, inl, inr, Option, none, some, List,
  ◌∷◌, ◌++◌, arith, ◌==◌, length, length-append, update, Bool-cases,
}
use airport_rtw.Reorder.{Reorder, held}
use airport_rtw.Reorder.Slots.{waiting, waiting-cut, waiting-apart}
use airport_rtw.Reorder.Window.{frames, IsWindow, length-waiting}

waiting-at :
    (buf : ℕ → Option ℕ) (n p : ℕ)
    → waiting buf (suc n) p ≡ held (buf (p % 64)) (waiting buf n (p + 1))
unfolding waiting
waiting-at buf n p = refl

-- The 64 positions, cut at position `p`.
frames-cut :
    (buf : ℕ → Option ℕ) (h a b : ℕ)
    → a + suc b ≡ 64
    → waiting buf 64 h ≡ waiting buf a h ++ held (buf ((h + a) % 64)) (waiting buf b (h + a + 1))
frames-cut buf h a b e =
    ap (λ n. waiting buf n h) (sym e)
    ∙ waiting-cut buf a (suc b) h
    ∙ ap (λ ys. waiting buf a h ++ ys) (waiting-at buf b (h + a))

length-middle : (xs ys : List ℕ) (x : ℕ) → length (xs ++ x ∷ ys) ≡ length (xs ++ ys) + 1
length-middle xs ys x = omega (arith, length-append xs (x ∷ ys), length-append xs ys)

abbrev pub put_in : (skb i : ℕ) → Reorder → Reorder
put_in skb i r = record r { buf = update r.buf i (some skb); stored = (r.stored + 1) % 2 ^ 32 }

module _ (sn_of : ℕ → ℕ) where
  -- The window with the frame between those before and those behind its position.
  pub record IsPlaced (h : ℕ) (r : Reorder) (skb : ℕ) (r' : Reorder) : Type 0 where
    pub front : List ℕ
    pub back : List ℕ
    pub before : frames h r ≡ front ++ back
    pub behind : frames h r' ≡ front ++ skb ∷ back
    pub window : IsWindow sn_of h r'

  pub put_in-IsPlaced :
      (h a skb i : ℕ) (r : Reorder)
      → IsWindow sn_of h r
      → i ≡ (h + a) % 64
      → a < r.size
      → sn_of skb ≡ (h + a) % 4096
      → r.buf i ≡ none
      → IsPlaced h r skb (put_in skb i r)
  put_in-IsPlaced h a skb i r w slot within e free =
      let b : ℕ = 63 - a in
      let all : a + suc b ≡ 64 = omega (arith, w.sized) in
      let new : ℕ → Option ℕ = update r.buf i (some skb) in
      let front_same : waiting new a h ≡ waiting r.buf a h =
        waiting-apart r.buf (some skb) a h i (λ q low under same. omega arith) in
      let back_same : waiting new b (h + a + 1) ≡ waiting r.buf b (h + a + 1) =
        waiting-apart r.buf (some skb) b (h + a + 1) i (λ q low under same. omega arith) in
      let before : frames h r ≡ waiting r.buf a h ++ waiting r.buf b (h + a + 1) =
        frames-cut r.buf h a b all
        ∙ ap (λ o. waiting r.buf a h ++ held o (waiting r.buf b (h + a + 1)))
            (ap r.buf (sym slot) ∙ free) in
      let behind : waiting new 64 h ≡ waiting r.buf a h ++ skb ∷ waiting r.buf b (h + a + 1) =
        frames-cut new h a b all
        ∙ ap (λ o. waiting new a h ++ held o (waiting new b (h + a + 1))) {x = new ((h + a) % 64)}
            {y = some skb} (ground arith)
        ∙ ap₂ (λ xs ys. xs ++ skb ∷ ys) front_same back_same in
      record {
        front = waiting r.buf a h;
        back = waiting r.buf b (h + a + 1);
        before = before;
        behind = behind;
        window = record {
          at = w.at;
          sized = w.sized;
          inside = λ p x low under found. elim (Bool-cases (p == h + a)) [
            | inl here ↦ ground arith
            | inr other ↦ ground (arith, w.inside p x)
          ];
          counted = omega (
            arith,
            w.counted,
            ap length before,
            ap length behind,
            length-middle (waiting r.buf a h) (waiting r.buf b (h + a + 1)) skb,
            length-waiting r.buf 64 h,
          );
        };
      }
