-- ===== src/Skb/Queue.antt =====
-- The queues of buffers, `struct sk_buff_head`, of src/compat/linux/skbuff.h, and
-- `ieee80211_purge_tx_queue` of src/compat/rtw88_compat.c. A buffer on a queue is named by a
-- number; `freed` collects what `kfree_skb` is called on, in order.
use airport_rtw.Base.{
  ℕ, zero, suc, ◌+◌, ◌^◌, ◌<◌, ◌≡◌, refl, Bool, true, false, Option, none, some, List, [], ◌∷◌,
  ◌++◌, arith, if◌then◌else◌, length, length-append, count, erase,
}
use airport_rtw.Skb.{add_u32, sub_u32}

pub record Head : Type 0 where
  pub list : List ℕ
  pub qlen : ℕ

pub queue_head_init : Head
queue_head_init = record { list = []; qlen = 0 }

pub queue_empty : Head → Bool
queue_empty h = elim h.list [ [] ↦ true | x ∷ xs ↦ false ]

pub queue_len : Head → ℕ
queue_len h = h.qlen

-- `skb_queue_tail` and `__skb_queue_tail`, then `skb_queue_head`.
pub queue_tail : Head → ℕ → Head
queue_tail h skb = record { list = h.list ++ skb ∷ []; qlen = add_u32 h.qlen 1 }

pub queue_head : Head → ℕ → Head
queue_head h skb = record { list = skb ∷ h.list; qlen = add_u32 h.qlen 1 }

abbrev pub dequeued : Head → List ℕ → Option ℕ × Head
dequeued h [] = (none, h)
dequeued h (skb ∷ rest) = (some skb, record { list = rest; qlen = sub_u32 h.qlen 1 })

pub dequeue : Head → Option ℕ × Head
dequeue h = dequeued h h.list

-- `skb_unlink` and `__skb_unlink`, for a buffer on the queue.
pub unlink : Head → ℕ → Head
unlink h skb = record { list = erase skb h.list; qlen = sub_u32 h.qlen 1 }

pub peek : Head → Option ℕ
peek h = elim h.list [ [] ↦ none | skb ∷ rest ↦ some skb ]

-- The loop of `skb_queue_purge` and of `ieee80211_purge_tx_queue`, with what was freed; `none` if
-- the fuel runs out.
abbrev pub freed_first : Option ℕ → Head → (Head → Option (List ℕ × Head)) → Option (List ℕ × Head)
freed_first none h more = some ([], h)
freed_first (some skb) h more = elim (more h) [
  | none ↦ none
  | some (freed, h') ↦ some (skb ∷ freed, h')
]

pub purge : ℕ → Head → Option (List ℕ × Head)
purge zero h = none
purge (suc fuel) h = freed_first (dequeue h).0 (dequeue h).1 (λ h'. purge fuel h')

-- `qlen` is the number of buffers on the list.
abbrev pub IsCounted : Head → Type 0
IsCounted h = h.qlen ≡ length h.list

count-length : (a : ℕ) (xs : List ℕ) → 0 < count a xs → length (erase a xs) + 1 ≡ length xs
unfolding count erase
count-length a [] h = absurd (omega arith)
count-length a (x ∷ xs) h = ground (arith, count-length a xs)

-- While fewer than 2 ^ 32 - 1 buffers are queued, every operation keeps `qlen` right: adding at
-- either end, taking from the front, and taking out a buffer that is on the queue.
pub queue-IsCounted :
    (h : Head) (skb : ℕ)
    → IsCounted h
    → length h.list + 1 < 2 ^ 32
    → IsCounted (queue_tail h skb)
      × IsCounted (queue_head h skb)
      × IsCounted (dequeue h).1
      × (0 < count skb h.list → IsCounted (unlink h skb))
      × IsCounted queue_head_init
unfolding queue_tail queue_head dequeue unlink queue_head_init
queue-IsCounted h skb v small = (
  omega (arith, length-append h.list (skb ∷ [])),
  omega arith,
  ground arith,
  λ on. omega (arith, count-length skb h.list on),
  refl,
)

-- The queue is first in, first out: a buffer put at the tail comes out after all that were there,
-- one put at the head comes out next and leaves the queue as it was.
pub queue_order :
    (h : Head) (skb : ℕ)
    → IsCounted h
    → length h.list + 1 < 2 ^ 32
    → ((dequeue (queue_tail h skb)).0 ≡ (if queue_empty h then some skb else peek h))
      × ((dequeue (queue_tail h skb)).1.list
          ≡ (if queue_empty h then [] else (dequeue h).1.list ++ skb ∷ []))
      × (dequeue (queue_head h skb) ≡ (some skb, h))
unfolding queue_tail queue_head dequeue queue_empty peek
queue_order h skb v small = ground arith

purge_list :
    (xs : List ℕ) (h : Head) (fuel : ℕ)
    → h.list ≡ xs
    → length xs < fuel
    → (g : Head) × (purge fuel h ≡ some (xs, g)) × (g.list ≡ [])
unfolding purge dequeue
purge_list xs h zero e f = absurd (omega arith)
purge_list [] h (suc fuel) e f = (h, ground arith, e)
purge_list (x ∷ xs) h (suc fuel) e f =
    let (g, p, q) =
      purge_list xs (record { list = xs; qlen = sub_u32 h.qlen 1 }) fuel refl (omega arith) in
    (g, ground arith, q)

-- Purging ends, frees every buffer of the queue once and in order, and leaves the queue empty:
-- one round more than there are buffers is enough.
pub purge_all :
    (h : Head) (fuel : ℕ)
    → length h.list < fuel
    → (g : Head) × (purge fuel h ≡ some (h.list, g)) × (queue_empty g ≡ true)
unfolding queue_empty
purge_all h fuel f = let (g, p, q) = purge_list h.list h fuel refl f in (g, p, rw (q, queue_empty))
