-- ===== src/Reorder/Input.antt =====
-- What `rxReorderInput` of src/kext/RTW88IEEE80211.cpp does with a frame.
use airport_rtw.Base.{
  ℕ, ◌+◌, ◌-◌, ◌%◌, ◌≤◌, ◌<◌, ◌≡◌, ◌⊎◌, refl, ap, sym, ◌∙◌, inl, inr, false, ◌&&◌, none, some, List,
  [], ◌∷◌, ◌++◌, append_assoc, arith, ltb, leb, length, length-append, Bool-cases, Option-cases,
}
use airport_rtw.Reorder.{Reorder, gap, slide, release, Outcome, slid, input}
use airport_rtw.Reorder.Window.{frames, IsWindow, OrderedIn, head-room}
use airport_rtw.Reorder.Moves.{
  Moved, stay, OrderedIn-append, Taken, slide-Moved, release-Moved, release-runs,
}
use airport_rtw.Reorder.Place.{put_in, IsPlaced, put_in-IsPlaced}

joined :
    (out front back xs all : List ℕ)
    → all ≡ out ++ xs
    → xs ≡ front ++ back
    → all ≡ (out ++ front) ++ back
joined out front back xs all e f = e ∙ ap (λ ys. out ++ ys) f ∙ sym (append_assoc out front back)

joined_run :
    (out front back run left xs : List ℕ)
    → xs ≡ run ++ left
    → xs ≡ front ++ back
    → (out ++ run) ++ left ≡ (out ++ front) ++ back
joined_run out front back run left xs e f =
    append_assoc out run left ∙ ap (λ ys. out ++ ys) (sym e ∙ f) ∙ sym (append_assoc out front back)

leb-less : (n m : ℕ) → leb n m ≡ false → m < n
leb-less n m e = ground arith

module _ (sn_of : ℕ → ℕ) where
  -- The frame is one of those between `frames` before and after, or it is freed.
  pub data Kept (skb : ℕ) (old new : List ℕ) (freed : List ℕ) : Type 0 where
    accepted :
        (front back : List ℕ)
        → old ≡ front ++ back
        → new ≡ front ++ skb ∷ back
        → freed ≡ []
        → Kept skb old new freed
    dropped : new ≡ old → freed ≡ skb ∷ [] → Kept skb old new freed

  -- The window after the slide holds the position of the frame.
  pub Slid : (h a : ℕ) → Reorder → List ℕ × Reorder → Type 0
  Slid h a r l =
      (to : ℕ) × Moved sn_of h r l.0 to l.1
      × (to ≤ h + a)
      × (h + a < to + r.size)
      × (r.size ≤ a → l.1.buf ((h + a) % 64) ≡ none)

  slid-free :
      (h a to : ℕ) (r r' : Reorder) (out : List ℕ)
      → IsWindow sn_of h r
      → Moved sn_of h r out to r'
      → to ≤ h + a
      → h + a < to + r.size
      → r.size ≤ a
      → a < 2048
      → r'.buf ((h + a) % 64) ≡ none
  slid-free h a to r r' out w m low high beyond few = elim (Option-cases (r'.buf ((h + a) % 64))) [
    | inl n ↦ n
    | inr (y, found) ↦
        (let q : ℕ = h + a % 64 in
          let slot : r.buf (q % 64) ≡ some y =
            ap r.buf {x = q % 64} {y = (h + a) % 64} (omega arith) ∙ m.old ((h + a) % 64) y found in
          let was = w.inside q y (omega arith) (omega arith) slot in
          let is = m.window.inside (h + a) y low (omega (arith, w.sized)) found in
          absurd (omega (arith, was, is, w.sized)))
  ]

  slid-Slid :
      (h a sn : ℕ) (r : Reorder)
      → IsWindow sn_of h r
      → r.stored < 64
      → a ≡ gap sn r.head
      → sn ≡ (h + a) % 4096
      → a < 2048
      → Slid h a r (slid sn r)
  unfolding Slid
  slid-Slid h a sn r w few e at near = elim (Bool-cases (leb r.size (gap sn r.head))) [
    | inl beyond ↦
        (let past : r.size ≤ a = ground arith in
          let g : ℕ = h + a + 1 - r.size in
          let m : Moved sn_of h r (slide 2048 ((sn + 1 + 4096 - r.size) % 4096) 0 r).0 g
              (slide 2048 ((sn + 1 + 4096 - r.size) % 4096) 0 r).1 =
            slide-Moved sn_of 2048 ((sn + 1 + 4096 - r.size) % 4096) 0 h g r w
              (omega (arith, w.sized)) (omega (arith, w.sized)) (omega arith)
              (omega (arith, w.sized)) (omega (arith, few)) in
          rw beyond (
            g,
            m,
            omega (arith, w.sized),
            omega (arith, w.sized),
            λ _.
                slid-free h a g r _ _ w m (omega (arith, w.sized)) (omega (arith, w.sized)) past
                  near,
          ))
    | inr inside ↦
        rw inside (h, stay sn_of h r w, omega arith, ground arith, λ past. absurd (ground arith))
  ]

  -- What a call promises, for a window at position `h` and the sequence number `sn`.
  pub record Handled (h skb sn : ℕ) (r : Reorder) (o : Outcome) : Type 0 where
    pub to : ℕ
    pub up : h ≤ to
    pub window : IsWindow sn_of to o.after
    pub few : o.after.stored < 64
    pub ordered : OrderedIn sn_of h to o.delivered
    pub kept : Kept skb (frames h r) (o.delivered ++ frames to o.after) o.freed
    pub late : 2048 ≤ gap sn r.head → (o.delivered ≡ []) × (o.freed ≡ skb ∷ []) × (o.after ≡ r)
    pub no_loss :
        gap sn r.head < 2048 → (r.size ≤ gap sn r.head) ⊎ (r.buf (sn % 64) ≡ none) → o.freed ≡ []
    pub drained : gap sn r.head < 2048 → o.after.buf (o.after.head % 64) ≡ none
    pub armed : o.timer ≡ (ltb (gap sn r.head) 2048 && ltb 0 o.after.stored)

  abbrev finish : (out freed : List ℕ) (r2 : Reorder) → Outcome
  finish out freed r2 =
      let (run, r3) = release 64 (length out) r2 in
      record { delivered = out ++ run; freed = freed; timer = ltb 0 r3.stored; after = r3 }

  length-Moved :
      (h : ℕ) (r : Reorder) (out : List ℕ) (to : ℕ) (r' : Reorder)
      → IsWindow sn_of h r
      → Moved sn_of h r out to r'
      → length out + r'.stored ≡ r.stored
  length-Moved h r out to r' w m =
      omega (arith, w.counted, m.window.counted, ap length m.same, length-append out (frames to r'))

  placed-Handled :
      (h a skb sn : ℕ) (r : Reorder) (out : List ℕ) (to : ℕ) (r1 : Reorder)
      → IsWindow sn_of h r
      → r.stored < 64
      → a ≡ gap sn r.head
      → sn ≡ (h + a) % 4096
      → sn_of skb ≡ sn
      → a < 2048
      → Moved sn_of h r out to r1
      → to ≤ h + a
      → h + a < to + r.size
      → r1.buf (sn % 64) ≡ none
      → Handled h skb sn r (finish out [] (put_in skb (sn % 64) r1))
  unfolding Taken
  placed-Handled h a skb sn r out to r1 w few e at is near m low high free =
      let slot : sn % 64 ≡ (h + a) % 64 = omega (arith, at) in
      let b : ℕ = h + a - to in
      let here : to + b ≡ h + a = omega (arith, low) in
      let placed : IsPlaced sn_of to r1 skb (put_in skb (sn % 64) r1) =
        put_in-IsPlaced sn_of to b skb (sn % 64) r1 m.window (omega (arith, slot, here))
          (omega (arith, m.same_size, high, here)) (omega (arith, is, at, here)) free in
      let r2 : Reorder = put_in skb (sn % 64) r1 in
      let count : length out + r1.stored ≡ r.stored = length-Moved h r out to r1 w m in
      let (to', k) = release-Moved sn_of 64 (length out) to r2 placed.window in
      let run : List ℕ = (release 64 (length out) r2).0 in
      let r3 : Reorder = (release 64 (length out) r2).1 in
      let drained : r3.buf (r3.head % 64) ≡ none =
        release-runs sn_of 64 (length out) to r2 placed.window (omega (arith, count, few))
          (omega arith) in
      record {
        to = to';
        up = omega (arith, m.up, k.up);
        window = k.window;
        few = head-room sn_of to' r3 k.window drained;
        ordered = OrderedIn-append sn_of out run h to to' m.up k.up m.ordered k.ordered;
        kept =
            accepted (out ++ placed.front) placed.back
              (joined out placed.front placed.back (frames to r1) (frames h r) m.same placed.before)
              (joined_run out placed.front (skb ∷ placed.back) run (frames to' r3) (frames to r2)
                k.same placed.behind)
              refl;
        late = λ behind. absurd (omega (arith, behind, e, near));
        no_loss = λ _ _. refl;
        drained = λ _. drained;
        armed = ground arith;
      }

  taken-Handled :
      (h a skb sn y : ℕ) (r : Reorder) (out : List ℕ) (to : ℕ) (r1 : Reorder)
      → IsWindow sn_of h r
      → r.stored < 64
      → a ≡ gap sn r.head
      → sn ≡ (h + a) % 4096
      → a < 2048
      → Moved sn_of h r out to r1
      → (r.size ≤ a → r1.buf (sn % 64) ≡ none)
      → r1.buf (sn % 64) ≡ some y
      → Handled h skb sn r (finish out (skb ∷ []) r1)
  unfolding Taken
  taken-Handled h a skb sn y r out to r1 w few e at near m past found =
      let count : length out + r1.stored ≡ r.stored = length-Moved h r out to r1 w m in
      let (to', k) = release-Moved sn_of 64 (length out) to r1 m.window in
      let run : List ℕ = (release 64 (length out) r1).0 in
      let r3 : Reorder = (release 64 (length out) r1).1 in
      let drained : r3.buf (r3.head % 64) ≡ none =
        release-runs sn_of 64 (length out) to r1 m.window (omega (arith, count, few))
          (omega arith) in
      record {
        to = to';
        up = omega (arith, m.up, k.up);
        window = k.window;
        few = head-room sn_of to' r3 k.window drained;
        ordered = OrderedIn-append sn_of out run h to to' m.up k.up m.ordered k.ordered;
        kept =
            dropped
              (append_assoc out run (frames to' r3)
                ∙ ap (λ xs. out ++ xs) (sym k.same)
                ∙ sym m.same)
              refl;
        late = λ behind. absurd (omega (arith, behind, e, near));
        no_loss = λ _ free. elim free [
          | inl far ↦ absurd (ground (arith, past (omega (arith, far, e)), found))
          | inr empty ↦ absurd (ground (arith, m.old (sn % 64) y found, empty))
        ];
        drained = λ _. drained;
        armed = ground arith;
      }

  -- For a window at position `h` with fewer than 64 frames in it, and a number below 4096: a frame
  -- 2048 or more ahead is late, and is freed with nothing changed. Any other is put among the
  -- frames at its position, and is freed only if its slot is taken in a window that it does not
  -- move. The frames handed on and those that stay are the ones from before, and the new one unless
  -- it is freed; those handed on are in the order of their positions, nothing stays under the head,
  -- fewer than 64 stay, and the timer is armed exactly if some stay.
  pub reorder_input :
      (h skb : ℕ) (r : Reorder)
      → IsWindow sn_of h r
      → r.stored < 64
      → sn_of skb < 4096
      → Handled h skb (sn_of skb) r (input skb (sn_of skb) r)
  unfolding input Slid
  reorder_input h skb r w few fits =
      let sn : ℕ = sn_of skb in
      let a : ℕ = gap sn r.head in
      elim (Bool-cases (leb 2048 (gap sn r.head))) [
        | inl late ↦ rw late record {
          to = h;
          up = omega arith;
          window = w;
          few = few;
          ordered = tt;
          kept = dropped refl refl;
          late = λ _. (refl, refl, refl);
          no_loss = λ early. absurd (ground arith);
          drained = λ early. absurd (ground arith);
          armed = ground arith;
        }
        | inr fresh ↦
            (let near : a < 2048 = leb-less 2048 a fresh in
              let (to, m, low, high, free) =
                slid-Slid h a sn r w few refl (omega (arith, w.at, fits)) near in
              let at : sn ≡ (h + a) % 4096 = omega (arith, w.at, fits) in
              let slot : sn % 64 ≡ (h + a) % 64 = omega (arith, at) in
              rw fresh (elim (Option-cases ((slid sn r).1.buf (sn % 64))) [
                | inl e ↦
                    rw e (placed-Handled h a skb sn r _ to _ w few refl at refl near m low high e)
                | inr (y, e) ↦ rw e (
                    taken-Handled h a skb sn y r _ to _ w few refl at near m
                      (λ far. ap (slid sn r).1.buf slot ∙ free far) e)
              ]))
      ]
