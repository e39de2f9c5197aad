-- ===== src/Skb/Inv.antt =====
-- The order of a buffer's pointers, and `len` between data and tail.
use airport_rtw.Base.{ℕ, ◌+◌, ◌-◌, ◌%◌, ◌^◌, ◌≤◌, ◌<◌, ◌≡◌, some, List, arith, length}
use airport_rtw.Skb.{
  Skb, Blocks, alloc_skb, put, put_data, put_zero, push, pull, reserve, trim, headroom, tailroom,
}

pub record IsValid (s : Skb) : Type 0 where
  pub head_front : s.head ≤ s.front
  pub front_tail : s.front ≤ s.tail
  pub tail_end : s.tail ≤ s.end
  pub end_ptr : s.end < 2 ^ 64
  pub small : s.end < s.head + 2 ^ 32
  pub measured : s.tail ≡ s.front + s.len

-- In a valid buffer the rooms are the distances of the pointers, and with the length they make up
-- the block.
pub rooms :
    {s : Skb}
    → IsValid s
    → (s.head + headroom s ≡ s.front)
      × (s.tail + tailroom s ≡ s.end)
      × (headroom s + s.len + tailroom s ≡ s.end - s.head)
unfolding headroom tailroom
rooms v = omega arith

-- What `alloc_skb` returns, given a block of the size that it asks for, is valid and empty, with
-- no headroom. Its tailroom is the size and 64 more, modulo 2 ^ 32.
pub alloc_skb-IsValid :
    (b : Blocks) (size base : ℕ) (s : Skb)
    → b.buffer ≡ some base
    → base + (size + 64) % 2 ^ 32 < 2 ^ 64
    → alloc_skb b size ≡ some s
    → IsValid s × (s.len ≡ 0) × (headroom s ≡ 0) × (tailroom s ≡ (size + 64) % 2 ^ 32)
unfolding alloc_skb headroom tailroom
alloc_skb-IsValid b size base s e fits made = ground arith

-- Within the room that there is, `skb_put` and its variants, `skb_push`, `skb_pull` and, on an
-- empty buffer, `skb_reserve` keep a buffer valid, and move exactly the room that they name;
-- `skb_trim` always does.
pub moves-IsValid :
    (s : Skb) (n : ℕ) (bytes : List ℕ)
    → IsValid s
    → (n ≤ tailroom s → IsValid (put s n) × (tailroom (put s n) + n ≡ tailroom s))
      × (length bytes ≤ tailroom s → IsValid (put_data s bytes))
      × (n ≤ tailroom s → IsValid (put_zero s n))
      × (n ≤ headroom s → IsValid (push s n) × (headroom (push s n) + n ≡ headroom s))
      × (n ≤ s.len → IsValid (pull s n) × (headroom (pull s n) ≡ headroom s + n))
      × (s.len ≡ 0
          → n ≤ tailroom s
          → IsValid (reserve s n) × (headroom (reserve s n) ≡ headroom s + n))
      × IsValid (trim s n)
unfolding put put_data put_zero push pull reserve trim headroom tailroom
moves-IsValid s n bytes v = (
  λ h. (ground arith, ground arith),
  λ h. ground arith,
  λ h. ground arith,
  λ h. (ground arith, ground arith),
  λ h. (ground arith, ground arith),
  λ e h. (ground arith, ground arith),
  ground arith,
)
