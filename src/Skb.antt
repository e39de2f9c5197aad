-- ===== src/Skb.antt =====
-- The packet buffers of src/compat/linux/skbuff.h. Pointers are 64-bit addresses into the bytes
-- `mem`, `u32` sizes wrap at 2 ^ 32.
pub mod Inv
pub mod Payload
pub mod Copy
pub mod Queue
mod Tests
use airport_rtw.Base.{
  ℕ, zero, suc, ◌+◌, ◌-◌, ◌%◌, ◌^◌, Bool, true, false, not, ◌||◌, Option, none, some, List, [], ◌∷◌,
  ltb, ◌==◌, if◌then◌else◌, length, replicate,
}

-- `struct sk_buff`: the fields that the functions here read or write.
pub record Skb : Type 0 where
  pub head : ℕ
  pub front : ℕ
  pub tail : ℕ
  pub end : ℕ
  pub len : ℕ
  pub mem : ℕ → ℕ
  pub cb : List ℕ
  pub priority : ℕ
  pub queue_mapping : ℕ

abbrev pub add_ptr : ℕ → ℕ → ℕ
add_ptr p n = (p + n) % 2 ^ 64

abbrev pub sub_ptr : ℕ → ℕ → ℕ
sub_ptr p n = (p + 2 ^ 64 - n) % 2 ^ 64

abbrev pub add_u32 : ℕ → ℕ → ℕ
add_u32 a b = (a + b) % 2 ^ 32

abbrev pub sub_u32 : ℕ → ℕ → ℕ
sub_u32 a b = (a + 2 ^ 32 - b) % 2 ^ 32

-- `memcpy` from a list of bytes, and `memset`.
unfoldable pub store : (ℕ → ℕ) → (at : ℕ) → List ℕ → ℕ → ℕ
store m at [] = m
store m at (b ∷ bytes) = store (λ j. if j == at then b else m j) (at + 1) bytes

-- The `n` bytes from an address on.
unfoldable pub load : (ℕ → ℕ) → (at n : ℕ) → List ℕ
load m at zero = []
load m at (suc n) = m at ∷ load m (at + 1) n

-- The blocks that the two allocations return, `none` where one fails. `bytes` is what the data
-- block happens to hold.
pub record Blocks : Type 0 where
  pub buffer : Option ℕ
  pub skb : Bool
  pub bytes : ℕ → ℕ

abbrev pub new_skb : (base alloc_size : ℕ) → (ℕ → ℕ) → Skb
new_skb base alloc_size bytes = record {
  head = base;
  front = base;
  tail = base;
  end = add_ptr base alloc_size;
  len = 0;
  mem = bytes;
  cb = replicate 64 0;
  priority = 0;
  queue_mapping = 0;
}

abbrev pub on_block : Blocks → (alloc_size : ℕ) → Option ℕ → Option Skb
on_block b alloc_size none = none
on_block b alloc_size (some base) =
    if not b.skb then none else some (new_skb base alloc_size b.bytes)

unfoldable pub alloc_skb : Blocks → (size : ℕ) → Option Skb
alloc_skb b size = on_block b (add_u32 size 64) b.buffer

unfoldable pub netdev_alloc_skb_ip_align : Blocks → (size : ℕ) → Option Skb
unfolding alloc_skb
netdev_alloc_skb_ip_align b size = alloc_skb b (add_u32 size 2)

-- `skb_put` and what writes behind it. The pointer that it returns is the old tail.
unfoldable pub put : Skb → ℕ → Skb
put s n = record s { tail = add_ptr s.tail n; len = add_u32 s.len n }

unfoldable pub put_data : Skb → List ℕ → Skb
unfolding put store
put_data s bytes = record (put s (length bytes)) { mem = store s.mem s.tail bytes }

unfoldable pub put_zero : Skb → ℕ → Skb
unfolding put store
put_zero s n = record (put s n) { mem = store s.mem s.tail (replicate n 0) }

unfoldable pub push : Skb → ℕ → Skb
push s n = record s { front = sub_ptr s.front n; len = add_u32 s.len n }

unfoldable pub pull : Skb → ℕ → Skb
pull s n = record s { front = add_ptr s.front n; len = sub_u32 s.len n }

-- `skb_reserve`, with a length that is not negative.
unfoldable pub reserve : Skb → ℕ → Skb
reserve s n = record s { front = add_ptr s.front n; tail = add_ptr s.tail n }

unfoldable pub trim : Skb → ℕ → Skb
trim s n = if ltb n s.len then record s { tail = sub_ptr s.tail (sub_u32 s.len n); len = n } else s

unfoldable pub headroom : Skb → ℕ
headroom s = sub_ptr s.front s.head % 2 ^ 32

unfoldable pub tailroom : Skb → ℕ
tailroom s = sub_ptr s.end s.tail % 2 ^ 32

unfoldable pub reset_tail_pointer : Skb → Skb
reset_tail_pointer s = record s { tail = s.front }

-- `skb_copy_from_linear_data`: the bytes that go to the caller.
unfoldable pub copy_from_linear_data : Skb → ℕ → List ℕ
unfolding load
copy_from_linear_data s n = load s.mem s.front n

abbrev pub fill_copy : Skb → Option Skb → Option Skb
fill_copy s none = none
fill_copy s (some n) =
    some (record (put_data (reserve n (headroom s)) (load s.mem s.front s.len)) { cb = s.cb })

-- `skb_copy`, which `skb_clone` calls. (`skb_reserve` takes an `int`.)
unfoldable pub copy : Blocks → Skb → Option Skb
unfolding alloc_skb reserve put_data load headroom
copy b s = fill_copy s (alloc_skb b (add_u32 s.len (headroom s)))

unfoldable pub copy_header : (dst src : Skb) → Skb
copy_header dst src = record dst { cb = src.cb; priority = src.priority }

unfoldable pub set_queue_mapping : Skb → ℕ → Skb
set_queue_mapping s q = record s { queue_mapping = q }
