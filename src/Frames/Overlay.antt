-- ===== src/Frames/Overlay.antt =====
-- Writing into the middle of a buffer, seen on the list of its bytes.
use airport_rtw.Base.{
  ℕ, zero, suc, ◌+◌, ◌≤◌, ◌<◌, ◌≡◌, refl, ap, ap₂, ◌∙◌, List, [], ◌∷◌, ◌++◌, arith, ◌==◌,
  if◌then◌else◌, length, drop,
}
use airport_rtw.Skb.{store, load}

abbrev pub overlay : (k : ℕ) → List ℕ → List ℕ → List ℕ
overlay zero bytes frame = bytes ++ drop (length bytes) frame
overlay (suc k) bytes [] = []
overlay (suc k) bytes (x ∷ frame) = x ∷ overlay k bytes frame

store-below : (bytes : List ℕ) (m : ℕ → ℕ) (at j : ℕ) → j < at → store m at bytes j ≡ m j
unfolding store
store-below [] m at j h = refl
store-below (b ∷ bytes) m at j h =
    store-below bytes (λ i. if i == at then b else m i) (at + 1) j (omega arith) ∙ ground arith

load-cong : (n : ℕ) (f g : ℕ → ℕ) (a : ℕ) → ((j : ℕ) → a ≤ j → f j ≡ g j) → load f a n ≡ load g a n
unfolding load
load-cong zero f g a h = refl
load-cong (suc n) f g a h =
    ap₂ ◌∷◌ (h a (omega arith)) (load-cong n f g (a + 1) (λ j le. h j (omega arith)))

store-above :
    (bytes : List ℕ) (f g : ℕ → ℕ) (at j : ℕ) → f j ≡ g j → store f at bytes j ≡ store g at bytes j
unfolding store
store-above [] f g at j h = h
store-above (b ∷ bytes) f g at j h =
    store-above bytes (λ i. if i == at then b else f i) (λ i. if i == at then b else g i) (at + 1) j
      (ground arith)

load-store_at :
    (bytes : List ℕ) (m : ℕ → ℕ) (at n : ℕ)
    → length bytes ≤ n
    → load (store m at bytes) at n ≡ bytes ++ drop (length bytes) (load m at n)
unfolding load store
load-store_at [] m at n h = refl
load-store_at (b ∷ bytes) m at zero h = absurd (omega arith)
load-store_at (b ∷ bytes) m at (suc n) h =
    let m' : ℕ → ℕ = λ i. if i == at then b else m i in
    ap₂ ◌∷◌ (store-below bytes m' (at + 1) at (omega arith) ∙ ground arith) (
      load-store_at bytes m' (at + 1) n (omega arith)
      ∙ ap (λ t. bytes ++ drop (length bytes) t) (load-cong n m' m (at + 1) (λ j le. ground arith)))

pub load-store_inside :
    (k : ℕ) (bytes : List ℕ) (m : ℕ → ℕ) (a n : ℕ)
    → k + length bytes ≤ n
    → load (store m (a + k) bytes) a n ≡ overlay k bytes (load m a n)
unfolding load
load-store_inside zero bytes m a n h =
    ap (λ j. load (store m j bytes) a n) (omega arith) ∙ load-store_at bytes m a n (omega arith)
load-store_inside (suc k) bytes m a zero h = absurd (omega arith)
load-store_inside (suc k) bytes m a (suc n) h =
    ap₂ ◌∷◌ (store-below bytes m (a + suc k) a (omega arith)) (
      ap (λ j. load (store m j bytes) (a + 1) n) (omega arith)
      ∙ load-store_inside k bytes m (a + 1) n (omega arith))
