-- ===== src/Reorder/Window.antt =====
-- A window over positions, and what one step of its head does.
use airport_rtw.Base.{
  ℕ, zero, suc, ◌+◌, ◌%◌, ◌≤◌, ◌<◌, ◌≡◌, refl, ap, sym, ◌∙◌, inl, inr, Option, none, some, List, [],
  ◌∷◌, ◌++◌, append-nil, arith, ◌==◌, length, Bool-cases, Option-cases,
}
use airport_rtw.Reorder.{Reorder, advance, taken, held}
use airport_rtw.Reorder.Slots.{waiting, waiting-cut, waiting-apart}

-- The frames that a window holds, from position `h` on.
abbrev pub frames : (h : ℕ) → Reorder → List ℕ
frames h r = waiting r.buf 64 h

waiting-suc :
    (buf : ℕ → Option ℕ) (n p : ℕ)
    → waiting buf (suc n) p ≡ held (buf (p % 64)) (waiting buf n (p + 1))
unfolding waiting
waiting-suc buf n p = refl

waiting-one : (buf : ℕ → Option ℕ) (p : ℕ) → waiting buf 1 p ≡ held (buf (p % 64)) []
unfolding waiting
waiting-one buf p = refl

pub length-waiting : (buf : ℕ → Option ℕ) (n p : ℕ) → length (waiting buf n p) ≤ n
unfolding waiting
length-waiting buf zero p = omega arith
length-waiting buf (suc n) p = ground (arith, length-waiting buf n (p + 1))

frames-first :
    (buf : ℕ → Option ℕ) (h : ℕ) → waiting buf 64 h ≡ held (buf (h % 64)) (waiting buf 63 (h + 1))
frames-first buf h = waiting-suc buf 63 h

-- After the head has gone on, its slot is the last one.
frames-turned :
    (buf : ℕ → Option ℕ) (h : ℕ)
    → waiting buf 64 (h + 1) ≡ waiting buf 63 (h + 1) ++ held (buf (h % 64)) []
frames-turned buf h =
    waiting-cut buf 63 1 (h + 1)
    ∙ ap (λ ys. waiting buf 63 (h + 1) ++ ys)
        (waiting-one buf (h + 1 + 63) ∙ ap (λ i. held (buf i) []) (omega arith))

module _ (sn_of : ℕ → ℕ) where
  -- `sn_of` is the sequence number in a frame's header.
  pub record IsWindow (h : ℕ) (r : Reorder) : Type 0 where
    pub at : r.head ≡ h % 4096
    pub sized : (0 < r.size) × (r.size ≤ 64)
    pub inside :
        (p x : ℕ)
        → h ≤ p
        → p < h + 64
        → r.buf (p % 64) ≡ some x
        → (sn_of x ≡ p % 4096) × (p < h + r.size)
    pub counted : r.stored ≡ length (frames h r)

  -- Frames at positions that grow, from `lo` on and below `hi`.
  abbrev pub OrderedIn : (lo hi : ℕ) → List ℕ → Type 0
  OrderedIn lo hi [] = Unit
  OrderedIn lo hi (x ∷ xs) =
      (p : ℕ) × (lo ≤ p) × (p < hi) × (sn_of x ≡ p % 4096) × OrderedIn (p + 1) hi xs

  pub OrderedIn-lower :
      (lo lo' hi : ℕ) (xs : List ℕ) → lo ≤ lo' → OrderedIn lo' hi xs → OrderedIn lo hi xs
  OrderedIn-lower lo lo' hi [] h o = tt
  OrderedIn-lower lo lo' hi (x ∷ xs) h (p, low, high, e, rest) = (p, omega arith, high, e, rest)

  -- Behind the last position comes the slot that the head has left.
  turn-inside :
      (h : ℕ) (r : Reorder) (buf : ℕ → Option ℕ)
      → IsWindow h r
      → buf (h % 64) ≡ none
      → ((i y : ℕ) → buf i ≡ some y → r.buf i ≡ some y)
      → (p y : ℕ) → h + 1 ≤ p
      → p < h + 1 + 64
      → buf (p % 64) ≡ some y
      → (sn_of y ≡ p % 4096) × (p < h + 1 + r.size)
  turn-inside h r buf w left old p y low under found = elim (Bool-cases (p == h + 64)) [
    | inl e ↦
        (let turned : buf (p % 64) ≡ buf (h % 64) = ap buf (ground arith) in
          absurd (ground (arith, turned, left, found)))
    | inr e ↦ ground (arith, w.inside p y, old (p % 64) y)
  ]

  -- The slot under the head is empty.
  pub advance-none :
      (h : ℕ) (r : Reorder)
      → IsWindow h r
      → r.buf (r.head % 64) ≡ none
      → IsWindow (h + 1) (advance r) × (frames (h + 1) (advance r) ≡ frames h r)
  advance-none h r w e =
      let here : r.buf (h % 64) ≡ none = ap r.buf (omega (arith, w.at)) ∙ e in
      let same : frames (h + 1) r ≡ frames h r =
        frames-turned r.buf h
        ∙ ap (λ o. waiting r.buf 63 (h + 1) ++ held o []) here
        ∙ append-nil (waiting r.buf 63 (h + 1))
        ∙ sym (frames-first r.buf h ∙ ap (λ o. held o (waiting r.buf 63 (h + 1))) here) in
      (
        record {
          at = omega (arith, w.at);
          sized = w.sized;
          inside = turn-inside h r r.buf w here (λ i y found. found);
          counted = w.counted ∙ ap length (sym same);
        },
        same,
      )

  rest :
      (h : ℕ) (r : Reorder)
      → IsWindow h r
      → frames (h + 1) (advance (taken r)) ≡ waiting r.buf 63 (h + 1)
  rest h r w =
      frames-turned (taken r).buf h
      ∙ ap (λ o. waiting (taken r).buf 63 (h + 1) ++ held o []) {x = (taken r).buf (h % 64)}
          {y = none} (ground (arith, w.at))
      ∙ append-nil (waiting (taken r).buf 63 (h + 1))
      ∙ waiting-apart r.buf none 63 (h + 1) (r.head % 64) (λ q low under e. omega (arith, w.at))

  pub advance-some :
      (h : ℕ) (r : Reorder) (x : ℕ)
      → IsWindow h r
      → r.buf (r.head % 64) ≡ some x
      → IsWindow (h + 1) (advance (taken r)) × (frames h r ≡ x ∷ frames (h + 1) (advance (taken r)))
  advance-some h r x w e =
      let here : r.buf (h % 64) ≡ some x = ap r.buf (omega (arith, w.at)) ∙ e in
      let same : frames h r ≡ x ∷ frames (h + 1) (advance (taken r)) =
        frames-first r.buf h
        ∙ ap (λ o. held o (waiting r.buf 63 (h + 1))) here
        ∙ ap (λ xs. x ∷ xs) (sym (rest h r w)) in
      (
        record {
          at = omega (arith, w.at);
          sized = w.sized;
          inside =
              turn-inside h r (taken r).buf w (ground (arith, w.at)) (λ i y found. ground arith);
          counted = omega (arith, w.counted, ap length same, length-waiting r.buf 64 h);
        },
        same,
      )

  -- A frame that is taken was counted.
  pub taken-stored :
      (h : ℕ) (r : Reorder) (x : ℕ)
      → IsWindow h r
      → r.buf (r.head % 64) ≡ some x
      → (taken r).stored + 1 ≡ r.stored
  taken-stored h r x w e =
      omega (arith, w.counted, ap length (advance-some h r x w e).1, length-waiting r.buf 64 h)

  -- An empty window has nothing under its head.
  pub empty-head : (h : ℕ) (r : Reorder) → IsWindow h r → r.stored ≡ 0 → r.buf (r.head % 64) ≡ none
  empty-head h r w e = elim (Option-cases (r.buf (r.head % 64))) [
    | inl n ↦ n
    | inr (x, found) ↦ absurd (omega (arith, e, taken-stored h r x w found))
  ]

  -- With nothing under the head one slot is free.
  pub head-room : (h : ℕ) (r : Reorder) → IsWindow h r → r.buf (r.head % 64) ≡ none → r.stored < 64
  head-room h r w e =
      let here : r.buf (h % 64) ≡ none = ap r.buf (omega (arith, w.at)) ∙ e in
      let all : frames h r ≡ waiting r.buf 63 (h + 1) =
        frames-first r.buf h ∙ ap (λ o. held o (waiting r.buf 63 (h + 1))) here in
      omega (arith, w.counted, ap length all, length-waiting r.buf 63 (h + 1))
