-- ===== src/Skb/Tests.antt =====
-- The buffer theorems at a small buffer and a short queue.
use airport_rtw.Base.{◌-◌, true, some, [], ◌∷◌, arith, replicate}
use airport_rtw.Skb.{Skb, Blocks}
use airport_rtw.Skb.Inv.{IsValid}
use airport_rtw.Skb.Queue.{Head}

-- At 4096: 8 bytes of headroom, the bytes 5, 6, 7, and 53 bytes of tailroom.
abbrev three_bytes : Skb
three_bytes = record {
  head = 4096;
  front = 4104;
  tail = 4107;
  end = 4160;
  len = 3;
  mem = λ a. a - 4099;
  cb = replicate 64 0;
  priority = 6;
  queue_mapping = 0;
}

three_bytes-IsValid : IsValid three_bytes
three_bytes-IsValid = omega arith

abbrev blocks : Blocks
blocks = record { buffer = some 8192; skb = true; bytes = λ a. 170 }

abbrev pair : Head
pair = record { list = 4 ∷ 9 ∷ []; qlen = 2 }
