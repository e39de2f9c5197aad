-- ===== src/Skb/Copy.antt =====
-- `skb_copy` and the frames that it can hold.
use airport_rtw.Base.{ℕ, ◌+◌, ◌%◌, ◌^◌, ◌≤◌, ◌<◌, ◌≡◌, refl, ap, ap₂, ◌∙◌, true, some, arith}
use airport_rtw.Skb.{
  Skb, Blocks, new_skb, add_u32, store, load, alloc_skb, put_data, reserve, headroom, tailroom,
  fill_copy, copy,
}
use airport_rtw.Skb.Inv.{IsValid, rooms}
use airport_rtw.Skb.Payload.{payload, length-load, load-store}

module _ (b : Blocks) (base : ℕ) (s : Skb) (v : IsValid s) (fits : headroom s + s.len + 64 < 2 ^ 32)
    (room : base + 2 ^ 32 ≤ 2 ^ 64) where
  abbrev copied : Skb
  copied =
      record (put_data (reserve (new_skb base (headroom s + s.len + 64) b.bytes) (headroom s))
        (load s.mem s.front s.len)) { cb = s.cb }

  copied-IsValid : IsValid copied × (headroom copied ≡ headroom s) × (tailroom copied ≡ 64)
  unfolding put_data reserve headroom tailroom
  copied-IsValid = ground (arith, rooms v, length-load s.mem s.front s.len)

  payload-copied : payload copied ≡ payload s
  unfolding put_data reserve
  payload-copied =
      ap₂ (load (store b.bytes ((base + headroom s) % 2 ^ 64) (payload s))) refl
        (omega (arith, length-load s.mem s.front s.len))
      ∙ load-store (payload s) b.bytes ((base + headroom s) % 2 ^ 64)

  allocated :
      b.buffer ≡ some base
      → b.skb ≡ true
      → alloc_skb b (add_u32 s.len (headroom s))
        ≡ some (new_skb base (headroom s + s.len + 64) b.bytes)
  unfolding alloc_skb
  allocated got made = rw (got, made) (ap (λ n. some (new_skb base n b.bytes)) (omega arith))

  copy-copied : b.buffer ≡ some base → b.skb ≡ true → copy b s ≡ some copied
  unfolding copy
  copy-copied got made = ap (fill_copy s) (allocated got made)

-- A copy made by `skb_copy` in blocks of the size that it asks for is valid and has the payload,
-- the headroom and the control block of the original, and 64 bytes of tailroom. It asks for the
-- headroom, the length and 64 bytes; this must fit 32 bits.
pub copy_lem :
    (b : Blocks) (base : ℕ) (s : Skb)
    → IsValid s
    → headroom s + s.len + 64 < 2 ^ 32
    → b.buffer ≡ some base
    → b.skb ≡ true
    → base + 2 ^ 32 ≤ 2 ^ 64
    → (c : Skb) × (copy b s ≡ some c)
      × IsValid c
      × (payload c ≡ payload s)
      × (headroom c ≡ headroom s)
      × (tailroom c ≡ 64)
      × (c.cb ≡ s.cb)
unfolding put_data reserve
copy_lem b base s v fits got made room =
    let i = copied-IsValid b base s v fits room in
    (
      copied b base s v fits room,
      copy-copied b base s v fits room got made,
      i.0,
      payload-copied b base s v fits room,
      i.1,
      i.2,
      refl,
    )
