-- ===== src/Skb/Payload.antt =====
-- The bytes of a buffer, and what each operation does to them.
use airport_rtw.Base.{
  ℕ, zero, suc, ◌+◌, ◌-◌, ◌%◌, ◌^◌, ◌≤◌, ◌<◌, ◌≡◌, refl, ap, ap₂, sym, ◌∙◌, List, [], ◌∷◌, ◌++◌,
  arith, ◌==◌, if◌then◌else◌, length, replicate, take, drop, take-all,
}
use airport_rtw.Skb.{Skb, store, load, put_data, put_zero, push, pull, trim, headroom, tailroom}
use airport_rtw.Skb.Inv.{IsValid, rooms}

pub length-load : (m : ℕ → ℕ) (a n : ℕ) → length (load m a n) ≡ n
unfolding load
length-load m a zero = refl
length-load m a (suc n) = ap suc (length-load m (a + 1) n)

pub length-replicate : (n b : ℕ) → length (replicate n b) ≡ n
length-replicate zero b = refl
length-replicate (suc n) b = ap suc (length-replicate n b)

-- A store leaves alone what lies before it.
store-below : (bytes : List ℕ) (m : ℕ → ℕ) (at j : ℕ) → j < at → store m at bytes j ≡ m j
unfolding store
store-below [] m at j h = refl
store-below (b ∷ bytes) m at j h =
    store-below bytes (λ i. if i == at then b else m i) (at + 1) j (omega arith) ∙ ground arith

load-store_below :
    (n : ℕ) (m : ℕ → ℕ) (a at : ℕ) (bytes : List ℕ)
    → a + n ≤ at
    → load (store m at bytes) a n ≡ load m a n
unfolding load
load-store_below zero m a at bytes h = refl
load-store_below (suc n) m a at bytes h =
    ap₂ ◌∷◌ (store-below bytes m at a (omega arith))
      (load-store_below n m (a + 1) at bytes (omega arith))

pub load-store :
    (bytes : List ℕ) (m : ℕ → ℕ) (at : ℕ) → load (store m at bytes) at (length bytes) ≡ bytes
unfolding load store
load-store [] m at = refl
load-store (b ∷ bytes) m at =
    let m' : ℕ → ℕ = λ i. if i == at then b else m i in
    ap₂ ◌∷◌ (store-below bytes m' (at + 1) at (omega arith) ∙ ground arith)
      (load-store bytes m' (at + 1))

load-add : (n : ℕ) (m : ℕ → ℕ) (a k : ℕ) → load m a (n + k) ≡ load m a n ++ load m (a + n) k
unfolding load
load-add zero m a k =
    ap (load m a) {x = 0 + k} {y = k} (omega arith)
    ∙ ap (λ j. load m j k) {x = a} {y = a + 0} (omega arith)
load-add (suc n) m a k =
    ap (load m a) {x = suc n + k} {y = suc (n + k)} (omega arith)
    ∙ ap (λ t. m a ∷ t) (load-add n m (a + 1) k)
    ∙ ap (λ j. load m a (suc n) ++ load m j k) (omega arith)

load-take : (k n : ℕ) (m : ℕ → ℕ) (a : ℕ) → k ≤ n → load m a k ≡ take k (load m a n)
unfolding load
load-take zero n m a h = refl
load-take (suc k) zero m a h = absurd (omega arith)
load-take (suc k) (suc n) m a h = ap (λ t. m a ∷ t) (load-take k n m (a + 1) (omega arith))

load-drop : (k n : ℕ) (m : ℕ → ℕ) (a : ℕ) → k ≤ n → load m (a + k) (n - k) ≡ drop k (load m a n)
unfolding load
load-drop zero n m a h = ap₂ (load m) (omega arith) (omega arith)
load-drop (suc k) zero m a h = absurd (omega arith)
load-drop (suc k) (suc n) m a h =
    ap₂ (load m) (omega arith) (omega arith) ∙ load-drop k n m (a + 1) (omega arith)

abbrev pub payload : Skb → List ℕ
payload s = load s.mem s.front s.len

appended :
    (m : ℕ → ℕ) (a l t k : ℕ) (bytes : List ℕ)
    → t ≡ a + l
    → k ≡ l + length bytes
    → load (store m t bytes) a k ≡ load m a l ++ bytes
appended m a l t k bytes e f =
    ap (load (store m t bytes) a) f
    ∙ load-add l (store m t bytes) a (length bytes)
    ∙ ap₂ ◌++◌ (load-store_below l m a t bytes (omega arith))
        (ap (λ j. load (store m t bytes) j (length bytes)) (sym e) ∙ load-store bytes m t)

trim-take : (s : Skb) (n : ℕ) → IsValid s → payload (trim s n) ≡ take n (payload s)
unfolding trim
trim-take s n v = ground (
  arith,
  load-take n s.len s.mem s.front,
  take-all n (payload s),
  length-load s.mem s.front s.len,
)

-- Within the tailroom `skb_put_data` puts its bytes behind the payload, `skb_put_zero` zeros.
-- `skb_pull` of no more than the length drops bytes in front, and `skb_trim` keeps that many.
-- Within the headroom `skb_push` adds bytes in front of the payload, and `skb_pull` undoes it.
pub payload_laws :
    (s : Skb) (bytes : List ℕ) (n : ℕ)
    → IsValid s
    → (length bytes ≤ tailroom s → payload (put_data s bytes) ≡ payload s ++ bytes)
      × (n ≤ tailroom s → payload (put_zero s n) ≡ payload s ++ replicate n 0)
      × (n ≤ s.len → payload (pull s n) ≡ drop n (payload s))
      × (payload (trim s n) ≡ take n (payload s))
      × (n ≤ headroom s → (drop n (payload (push s n)) ≡ payload s) × (pull (push s n) n ≡ s))
unfolding put_data put_zero pull trim push
payload_laws s bytes n v =
    let r = rooms v in
    (
      λ h. appended s.mem s.front s.len s.tail _ bytes v.measured (omega arith),
      λ h.
          appended s.mem s.front s.len s.tail _ (replicate n 0) v.measured
            (omega (arith, length-replicate n 0)),
      λ h. ap₂ (load s.mem) (omega arith) (omega arith) ∙ load-drop n s.len s.mem s.front h,
      trim-take s n v,
      λ h. (
        sym (
              load-drop n ((s.len + n) % 2 ^ 32) s.mem ((s.front + 2 ^ 64 - n) % 2 ^ 64)
                (omega arith))
            ∙ ap₂ (load s.mem) (omega arith) (omega arith),
        ground arith,
      ),
    )
