-- ===== src/Reorder/Moves.antt =====
-- The loops of the reorder buffer: each takes frames off the front of a window.
use airport_rtw.Base.{
  ℕ, zero, suc, ◌+◌, ◌%◌, ◌≤◌, ◌<◌, ◌≡◌, refl, ap, sym, ◌∙◌, Bool, true, false, not, ◌&&◌, Option,
  none, some, List, [], ◌∷◌, ◌++◌, append_assoc, arith, ◌==◌, ltb,
}
use airport_rtw.Reorder.{Reorder, gap, advance, taken, slide, release, skip}
use airport_rtw.Reorder.Window.{
  frames, IsWindow, OrderedIn, OrderedIn-lower, advance-none, advance-some, taken-stored,
  empty-head,
}

-- A round of a loop: it stops, finds a hole, or finds a frame.
pub round :
    (P : List ℕ × Reorder → Type 0) (b : Bool) (o : Option ℕ) (stop hole : List ℕ × Reorder)
    (frame : ℕ → List ℕ × Reorder)
    → (b ≡ false → P stop)
    → (b ≡ true → o ≡ none → P hole)
    → ((x : ℕ) → b ≡ true → o ≡ some x → P (frame x))
    → P (elim b [ false ↦ stop | true ↦ elim o [ none ↦ hole | some x ↦ frame x ] ])
round P false o stop hole frame f g k = f refl
round P true none stop hole frame f g k = g refl refl
round P true (some x) stop hole frame f g k = k x refl refl

pub round_skip :
    (P : Reorder → Type 0) (b : Bool) (o : Option ℕ) (stop hole : Reorder)
    → P stop
    → (b ≡ true → o ≡ none → P hole)
    → P (elim b [ false ↦ stop | true ↦ elim o [ none ↦ hole | some x ↦ stop ] ])
round_skip P false o stop hole f g = f
round_skip P true none stop hole f g = g refl refl
round_skip P true (some x) stop hole f g = f

module _ (sn_of : ℕ → ℕ) where
  -- From the window at `h` to one further on, with the frames taken on the way.
  pub record Moved (h : ℕ) (r : Reorder) (out : List ℕ) (to : ℕ) (r' : Reorder) : Type 0 where
    pub up : h ≤ to
    pub window : IsWindow sn_of to r'
    pub same : frames h r ≡ out ++ frames to r'
    pub same_size : r'.size ≡ r.size
    pub ordered : OrderedIn sn_of h to out
    pub old : (i y : ℕ) → r'.buf i ≡ some y → r.buf i ≡ some y

  pub stay : (h : ℕ) (r : Reorder) → IsWindow sn_of h r → Moved h r [] h r
  stay h r w = record {
    up = omega arith;
    window = w;
    same = refl;
    same_size = refl;
    ordered = tt;
    old = λ i y e. e;
  }

  pub past_hole :
      (h : ℕ) (r : Reorder) (out : List ℕ) (to : ℕ) (r' : Reorder)
      → IsWindow sn_of h r
      → r.buf (r.head % 64) ≡ none
      → Moved (h + 1) (advance r) out to r'
      → Moved h r out to r'
  past_hole h r out to r' w e m = record {
    up = omega (arith, m.up);
    window = m.window;
    same = sym (advance-none sn_of h r w e).1 ∙ m.same;
    same_size = m.same_size;
    ordered = OrderedIn-lower sn_of h (h + 1) to out (omega arith) m.ordered;
    old = m.old;
  }

  pub past_frame :
      (h : ℕ) (r : Reorder) (x : ℕ) (out : List ℕ) (to : ℕ) (r' : Reorder)
      → IsWindow sn_of h r
      → r.buf (r.head % 64) ≡ some x
      → Moved (h + 1) (advance (taken r)) out to r'
      → Moved h r (x ∷ out) to r'
  past_frame h r x out to r' w e m =
      let here : r.buf (h % 64) ≡ some x = ap r.buf (omega (arith, w.at)) ∙ e in
      record {
        up = omega (arith, m.up);
        window = m.window;
        same = (advance-some sn_of h r x w e).1 ∙ ap (λ xs. x ∷ xs) m.same;
        same_size = m.same_size;
        ordered = (
          h,
          omega arith,
          omega (arith, m.up),
          (w.inside h x (omega arith) (omega arith) here).0,
          m.ordered,
        );
        old = λ i y found. ground (arith, m.old i y);
      }

  pub OrderedIn-append :
      (xs ys : List ℕ) (lo mid hi : ℕ)
      → lo ≤ mid
      → mid ≤ hi
      → OrderedIn sn_of lo mid xs
      → OrderedIn sn_of mid hi ys
      → OrderedIn sn_of lo hi (xs ++ ys)
  OrderedIn-append [] ys lo mid hi h g o k = OrderedIn-lower sn_of lo mid hi ys h k
  OrderedIn-append (x ∷ xs) ys lo mid hi h g (p, low, high, e, rest) k =
      (p, low, omega arith, e, OrderedIn-append xs ys (p + 1) mid hi (omega arith) g rest k)

  pub then_move :
      (h : ℕ) (r : Reorder) (out : List ℕ) (mid : ℕ) (r' : Reorder) (more : List ℕ) (to : ℕ)
      (r'' : Reorder)
      → Moved h r out mid r'
      → Moved mid r' more to r''
      → Moved h r (out ++ more) to r''
  then_move h r out mid r' more to r'' m k = record {
    up = omega (arith, m.up, k.up);
    window = k.window;
    same = m.same ∙ ap (λ xs. out ++ xs) k.same ∙ sym (append_assoc out more (frames to r''));
    same_size = k.same_size ∙ m.same_size;
    ordered = OrderedIn-append out more h mid to m.up k.up m.ordered k.ordered;
    old = λ i y e. m.old i y (k.old i y e);
  }

  -- Where the loop of `slide` ends: at the goal, if the limit on frames is out of reach.
  pub slide-Moved :
      (fuel goal nout h g : ℕ) (r : Reorder)
      → IsWindow sn_of h r
      → goal ≡ g % 4096
      → h ≤ g
      → g ≤ h + fuel
      → g < h + 2048
      → nout + r.stored < 64
      → Moved h r (slide fuel goal nout r).0 g (slide fuel goal nout r).1
  unfolding slide
  slide-Moved zero goal nout h g r w e low near far few =
      let here : h ≡ g = omega arith in rw (← here) (stay h r w)
  slide-Moved (suc fuel) goal nout h g r w e low near far few =
      round (λ l. Moved h r l.0 g l.1)
        (not (gap goal r.head == 0) && (ltb (gap goal r.head) 2048 && ltb nout 64))
        (r.buf (r.head % 64)) _ _ _
        (λ stop. (let here : h ≡ g = ground (arith, w.at) in rw (← here) (stay h r w)))
        (λ go none_here. past_hole h r _ g _ w none_here (
          slide-Moved fuel goal nout (h + 1) g (advance r) (advance-none sn_of h r w none_here).0 e
            (ground (arith, w.at)) (omega arith) (omega arith) few))
        (λ x go found. past_frame h r x _ g _ w found (
          slide-Moved fuel goal (nout + 1) (h + 1) g (advance (taken r))
            (advance-some sn_of h r x w found).0 e (ground (arith, w.at)) (omega arith)
            (omega arith) (omega (arith, few, taken-stored sn_of h r x w found))))

  unfoldable pub Taken : (h : ℕ) → Reorder → List ℕ × Reorder → Type 0
  Taken h r l = (to : ℕ) × Moved h r l.0 to l.1

  pub release-Moved :
      (fuel nout h : ℕ) (r : Reorder) → IsWindow sn_of h r → Taken h r (release fuel nout r)
  unfolding release Taken
  release-Moved zero nout h r w = (h, stay h r w)
  release-Moved (suc fuel) nout h r w =
      round (Taken h r) (ltb 0 r.stored && ltb nout 64) (r.buf (r.head % 64)) _ _ _
        (λ stop. (h, stay h r w)) (λ go hole. (h, stay h r w))
        (λ x go found.
          (let (to, m) =
              release-Moved fuel (nout + 1) (h + 1) (advance (taken r))
                (advance-some sn_of h r x w found).0 in
            (to, past_frame h r x _ to _ w found m)))

  -- With room for all frames nothing is left under the head.
  pub release-runs :
      (fuel nout h : ℕ) (r : Reorder)
      → IsWindow sn_of h r
      → nout + r.stored ≤ 64
      → 64 ≤ nout + fuel
      → let r' = (release fuel nout r).1 in r'.buf (r'.head % 64) ≡ none
  unfolding release
  release-runs zero nout h r w few enough = empty-head sn_of h r w (omega arith)
  release-runs (suc fuel) nout h r w few enough =
      round (λ l. l.1.buf (l.1.head % 64) ≡ none) (ltb 0 r.stored && ltb nout 64)
        (r.buf (r.head % 64)) _ _ _ (λ stop. empty-head sn_of h r w (ground arith))
        (λ go hole. hole)
        (λ x go found.
          release-runs fuel (nout + 1) (h + 1) (advance (taken r))
            (advance-some sn_of h r x w found).0
            (omega (arith, few, taken-stored sn_of h r x w found)) (omega arith))

  pub skip-Moved : (guard h : ℕ) (r : Reorder) → IsWindow sn_of h r → Taken h r ([], skip guard r)
  unfolding skip Taken
  skip-Moved zero h r w = (h, stay h r w)
  skip-Moved (suc guard) h r w =
      round_skip (λ s. Taken h r ([], s)) (ltb 0 r.stored) (r.buf (r.head % 64)) r
        (skip guard (advance r)) (h, stay h r w)
        (λ go hole.
          (let (to, m) = skip-Moved guard (h + 1) (advance r) (advance-none sn_of h r w hole).0 in
            (to, past_hole h r [] to _ w hole m)))
