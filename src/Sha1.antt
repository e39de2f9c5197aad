-- ===== src/Sha1.antt =====
-- SHA-1 and HMAC of src/kext/RTW88IEEE80211.cpp. A message is a list of bytes, and a word is a
-- number below 2 ^ 32.
pub mod Stream
pub mod Update
pub mod Pieces
pub mod Digest
pub mod Fill
mod Tests
use Prim.Native.Nat.{bit_and, bit_or, bit_xor}
use airport_rtw.Base.{
  ℕ, zero, suc, ◌+◌, ◌-◌, ◌*◌, ◌/◌, ◌%◌, ◌^◌, Bool, true, false, not, List, [], ◌∷◌, ◌++◌, ◌==◌,
  ltb, leb, if◌then◌else◌, length, take, drop, get_or, replicate,
}
use airport_rtw.Wpa.{be32, xor_bytes}

-- `rol`, for fewer than 32 bits.
abbrev pub rol : (value bits : ℕ) → ℕ
rol value bits = bit_or (value * 2 ^ bits % 2 ^ 32) (value / 2 ^ (32 - bits))

-- The five words.
pub record Words : Type 0 where
  pub a : ℕ
  pub b : ℕ
  pub c : ℕ
  pub d : ℕ
  pub e : ℕ

abbrev pub read_be32 : List ℕ → ℕ
read_be32 p = get_or p 0 0 * 2 ^ 24 + get_or p 1 0 * 2 ^ 16 + get_or p 2 0 * 2 ^ 8 + get_or p 3 0

-- The words of a block, high byte first, as `blk0` reads them.
unfoldable pub block_words : (more : ℕ) → (block : List ℕ) → List ℕ
block_words zero block = []
block_words (suc more) block = read_be32 block ∷ block_words more (drop 4 block)

-- `blk`
abbrev pub blk : (l : List ℕ) → (i : ℕ) → ℕ
blk l i =
    rol
      (bit_xor
        (bit_xor (bit_xor (get_or l ((i + 13) % 16) 0) (get_or l ((i + 8) % 16) 0))
          (get_or l ((i + 2) % 16) 0))
        (get_or l (i % 16) 0))
      1

-- What the macros `r0` to `r4` add: the choice of bits, and the constant.
abbrev pub mixture : (i w x y : ℕ) → ℕ
mixture i w x y =
    if ltb i 20
    then bit_xor (bit_and w (bit_xor x y)) y
    else if ltb i 40
    then bit_xor (bit_xor w x) y
    else if ltb i 60
    then bit_or (bit_and (bit_or w x) y) (bit_and w x)
    else bit_xor (bit_xor w x) y

abbrev pub constant : ℕ → ℕ
constant i =
    if ltb i 20
    then 0x5A827999
    else if ltb i 40
    then 0x6ED9EBA1
    else if ltb i 60
    then 0x8F1BBCDC
    else 0xCA62C1D6

-- One of the eighty lines: `z` is added to and `w` is turned, and the next line has the names
-- moved on by one.
abbrev pub line : (i word : ℕ) → Words → Words
line i word s = record {
  a = (s.e + mixture i s.b s.c s.d + word + constant i + rol s.a 5) % 2 ^ 32;
  b = s.a;
  c = rol s.b 30;
  d = s.c;
  e = s.d;
}

abbrev pub put_word : (l : List ℕ) → (i word : ℕ) → List ℕ
put_word l i word = take i l ++ word ∷ drop (i + 1) l

-- The lines from number `i` on.
unfoldable pub lines : (more i : ℕ) → (l : List ℕ) → Words → Words
lines zero i l s = s
lines (suc more) i l s =
    let word = if ltb i 16 then get_or l i 0 else blk l i in
    lines more (i + 1) (if ltb i 16 then l else put_word l (i % 16) word) (line i word s)

unfoldable pub transform : Words → (block : List ℕ) → Words
unfolding lines block_words
transform s block =
    let t = lines 80 0 (block_words 16 block) s in
    record {
      a = (s.a + t.a) % 2 ^ 32;
      b = (s.b + t.b) % 2 ^ 32;
      c = (s.c + t.c) % 2 ^ 32;
      d = (s.d + t.d) % 2 ^ 32;
      e = (s.e + t.e) % 2 ^ 32;
    }

-- `KERN_SHA1_CTX`, with `count[0]` and `count[1]`.
pub record Context : Type 0 where
  pub state : Words
  pub count0 : ℕ
  pub count1 : ℕ
  pub buffer : List ℕ

abbrev pub initial : Words
initial = record { a = 0x67452301; b = 0xEFCDAB89; c = 0x98BADCFE; d = 0x10325476; e = 0xC3D2E1F0 }

-- `kern_sha1_init`, with what the buffer holds.
abbrev pub init : (buffer : List ℕ) → Context
init buffer = record { state = initial; count0 = 0; count1 = 0; buffer = buffer }

-- `memcpy(&buffer[j], text, length)`
abbrev pub copy_to : (buffer : List ℕ) → (j : ℕ) → (text : List ℕ) → List ℕ
copy_to buffer j text = take j buffer ++ (text ++ drop (j + length text) buffer)

-- The loop over whole blocks: the words, and the bytes that are left. Each round takes 64.
unfoldable pub absorb : (fuel : ℕ) → Words → (text : List ℕ) → Words × List ℕ
unfolding transform
absorb zero s text = (s, text)
absorb (suc fuel) s text =
    let later = absorb fuel (transform s (take 64 text)) (drop 64 text) in
    if leb 64 (length text) then later else (s, text)

-- `kern_sha1_update`, for fewer than 2 ^ 32 bytes.
unfoldable pub update : Context → (text : List ℕ) → Context
unfolding transform absorb
update c text =
    let len = length text in
    let count0 = (c.count0 + len * 8 % 2 ^ 32) % 2 ^ 32 in
    let carried = if ltb count0 c.count0 then (c.count1 + 1) % 2 ^ 32 else c.count1 in
    let count1 = (carried + len / 2 ^ 29) % 2 ^ 32 in
    let j = c.count0 / 8 % 64 in
    let i = 64 - j in
    let filled = transform c.state (copy_to c.buffer j (take i text)) in
    let rest = absorb len filled (drop i text) in
    if ltb 63 (j + len)
    then record {
      state = rest.0;
      count0 = count0;
      count1 = count1;
      buffer = copy_to (copy_to c.buffer j (take i text)) 0 rest.1;
    }
    else record {
      state = c.state;
      count0 = count0;
      count1 = count1;
      buffer = copy_to c.buffer j text;
    }

-- The loop of `kern_sha1_final`, which fills up to 56 bytes of the block.
unfoldable pub fill : (fuel : ℕ) → Context → Context
fill zero c = c
fill (suc fuel) c =
    let later = fill fuel (update c (0 ∷ [])) in if bit_and c.count0 504 == 448 then c else later

-- `kern_sha1_final`
unfoldable pub final : Context → List ℕ
final c =
    let finalcount = be32 c.count1 ++ be32 c.count0 in
    let s = (update (fill 64 (update c (0x80 ∷ []))) finalcount).state in
    be32 s.a ++ (be32 s.b ++ (be32 s.c ++ (be32 s.d ++ be32 s.e)))

-- One message from the start, with what the buffer on the stack holds.
unfoldable pub sha1 : (buffer text : List ℕ) → List ℕ
sha1 buffer text = final (update (init buffer) text)

abbrev pub hmac_key : (buffer key : List ℕ) → List ℕ
hmac_key buffer key = if ltb 64 (length key) then sha1 buffer key else key

abbrev pub padded_key : (buffer key : List ℕ) → List ℕ
padded_key buffer key = let k = hmac_key buffer key in k ++ replicate (64 - length k) 0

-- `kern_hmac_sha1`. `kern_sha1_init` leaves the buffer alone, so that its content at each of the
-- three calls is an argument.
unfoldable pub hmac_sha1 : (buffers : ℕ → List ℕ) → (key text : List ℕ) → List ℕ
hmac_sha1 buffers key text =
    let ipad = xor_bytes (padded_key (buffers 0) key) (replicate 64 0x36) in
    let opad = xor_bytes (padded_key (buffers 0) key) (replicate 64 0x5c) in
    let inner = final (update (update (init (buffers 1)) ipad) text) in
    final (update (update (init (buffers 2)) opad) inner)
