-- ===== src/Firmware.antt =====
-- Loading the embedded firmware, of src/compat/rtw88_firmware.c. IOKit's allocator answers from a
-- list of addresses that is given beforehand; zlib is the parameter `Zlib`. Strings are lists of
-- characters without the zero that ends them.
pub mod Name
pub mod Load
pub mod Outcome
mod Tests
use airport_rtw.Base.{
  ℕ, zero, suc, ◌+◌, ◌-◌, ◌*◌, ◌%◌, ◌^◌, ◌≤◌, ◌≡◌, ◌≢◌, Bool, true, false, not, ◌&&◌, ◌||◌, Option,
  none, some, List, [], ◌∷◌, ◌==◌, if◌then◌else◌, length, take, update, is_some,
}

-- The kernel's heap: `give n` is the address that allocation `n` gets, `none` where it fails. A
-- block that is given back with another size, or that is not allocated, is a fault. `word` holds
-- the 32 bits at an address, and `streams` counts the zlib streams between start and end.
pub record Heap : Type 0 where
  pub give : ℕ → Option ℕ
  pub calls : ℕ
  pub live : List (ℕ × ℕ)
  pub fault : Bool
  pub word : ℕ → ℕ
  pub streams : ℕ

abbrev pub same_block : ℕ × ℕ → ℕ × ℕ → Bool
same_block x y = x.0 == y.0 && x.1 == y.1

abbrev pub is_live : ℕ × ℕ → List (ℕ × ℕ) → Bool
is_live x [] = false
is_live x (y ∷ live) = same_block x y || is_live x live

abbrev pub without : ℕ × ℕ → List (ℕ × ℕ) → List (ℕ × ℕ)
without x [] = []
without x (y ∷ live) = let rest = without x live in if same_block x y then live else y ∷ rest

abbrev pub given : Option ℕ → ℕ → Heap → Option ℕ × Heap
given none size h = (none, record h { calls = h.calls + 1 })
given (some at) size h = (some at, record h { calls = h.calls + 1; live = (at, size) ∷ h.live })

-- `IOMalloc` and `IOFree`
unfoldable pub io_malloc : (size : ℕ) → Heap → Option ℕ × Heap
io_malloc size h = given (h.give h.calls) size h

unfoldable pub io_free : (at size : ℕ) → Heap → Heap
io_free at size h = record h {
  live = without (at, size) h.live;
  fault = h.fault || not (is_live (at, size) h.live);
}

-- The return codes of zlib: `Z_OK`, `Z_STREAM_END`, and the others, none of which is 0.
pub data Code : Type 0 where
  z_ok : Code
  z_stream_end : Code
  z_other : ℕ → Code

abbrev pub is_ok : Code → Bool
is_ok z_ok = true
is_ok z_stream_end = false
is_ok (z_other n) = false

abbrev pub is_end : Code → Bool
is_end z_ok = false
is_end z_stream_end = true
is_end (z_other n) = false

-- What is called of zlib, with the room of the output and the input. With `Z_FINISH`, `inflate`
-- answers `Z_STREAM_END` or an error, and it writes no more than there is room for.
pub record Zlib : Type 0 where
  pub inflate_init : List ℕ → Code
  pub inflate : (avail_out : ℕ) → List ℕ → Code × List ℕ
  pub inflate_end : (avail_out : ℕ) → List ℕ → Code
  pub inflate-ne-ok : (n : ℕ) (src : List ℕ) → (inflate n src).0 ≢ z_ok
  pub inflate-length : (n : ℕ) (src : List ℕ) → length (inflate n src).1 ≤ n

-- `rtw88_zcalloc` and `rtw88_zcfree`: the size stands in the four bytes before the data.
abbrev pub zcalloc_size : (items size : ℕ) → ℕ
zcalloc_size items size = (items * size % 2 ^ 32 + 8) % 2 ^ 32

abbrev pub headed : ℕ → Option ℕ × Heap → Option ℕ × Heap
headed alloc (none, h) = (none, h)
headed alloc (some zm, h) = (some (zm + 4), record h { word = update h.word zm alloc })

unfoldable pub zcalloc : (items size : ℕ) → Heap → Option ℕ × Heap
unfolding io_malloc
zcalloc items size h = headed (zcalloc_size items size) (io_malloc (zcalloc_size items size) h)

unfoldable pub zcfree : Option ℕ → Heap → Heap
unfolding io_free
zcfree none h = h
zcfree (some ptr) h = io_free (ptr - 4) (h.word (ptr - 4)) h

-- `rtw88_decompress`: its code, the bytes in `dest`, which are `*dest_len` many where the code is
-- `Z_OK`, and the heap.
pub record Inflated : Type 0 where
  pub code : Code
  pub bytes : List ℕ
  pub heap : Heap

unfoldable pub decompress : Zlib → (dest_len : ℕ) → List ℕ → Heap → Inflated
decompress z dest_len src h =
    if not (is_ok (z.inflate_init src))
    then record { code = z.inflate_init src; bytes = []; heap = h }
    else let opened = record h { streams = h.streams + 1 } in
      let closed = record opened { streams = opened.streams - 1 } in
      let (code, bytes) = z.inflate dest_len src in
      if not (is_end code)
      then record { code = code; bytes = bytes; heap = closed }
      else record { code = z.inflate_end dest_len src; bytes = bytes; heap = closed }

-- `struct firmware`, with the address at which it stands and the bytes that `data` points to.
pub record Firmware : Type 0 where
  pub at : ℕ
  pub size : ℕ
  pub buffer : Option ℕ
  pub alloc_size : ℕ
  pub bytes : List ℕ

-- `struct rtw88_fw_blob`, without `original_size`, which is not read.
pub record Blob : Type 0 where
  pub name : List ℕ
  pub bytes : List ℕ
  pub compressed_size : ℕ

-- `strcmp` gives 0.
abbrev pub same_string : List ℕ → List ℕ → Bool
same_string [] [] = true
same_string [] (b ∷ ys) = false
same_string (a ∷ xs) [] = false
same_string (a ∷ xs) (b ∷ ys) = a == b && same_string xs ys

-- The search of `load_fw_from_blob`.
unfoldable pub find_blob : List Blob → (base : List ℕ) → Option Blob
find_blob [] base = none
find_blob (b ∷ blobs) base =
    let rest = find_blob blobs base in if same_string b.name base then some b else rest

abbrev pub firmware_size : ℕ
firmware_size = 24

abbrev pub alloc_size_of : Blob → ℕ
alloc_size_of b = b.compressed_size * 4 % 2 ^ 64

abbrev pub with_struct : (b : Blob) (buf : ℕ) → List ℕ → Option ℕ × Heap → Option Firmware × Heap
with_struct b buf bytes (none, h) = (none, io_free buf (alloc_size_of b) h)
with_struct b buf bytes (some at, h) = (
  some (record {
    at = at;
    size = length bytes % 2 ^ 32;
    buffer = some buf;
    alloc_size = alloc_size_of b;
    bytes = bytes;
  }),
  h,
)

abbrev pub with_buffer : Zlib → Blob → Option ℕ × Heap → Option Firmware × Heap
with_buffer z b (none, h) = (none, h)
with_buffer z b (some buf, h) =
    let r = decompress z (alloc_size_of b % 2 ^ 32) (take (b.compressed_size % 2 ^ 32) b.bytes) h in
    if not (is_ok r.code)
    then (none, io_free buf (alloc_size_of b) r.heap)
    else with_struct b buf r.bytes (io_malloc firmware_size r.heap)

abbrev pub load_found : Zlib → Option Blob → Heap → Option Firmware × Heap
load_found z none h = (none, h)
load_found z (some b) h = with_buffer z b (io_malloc (alloc_size_of b) h)

unfoldable pub load_fw_from_blob :
    Zlib → List Blob → (base : List ℕ) → Heap → Option Firmware × Heap
unfolding find_blob
load_fw_from_blob z blobs base h = load_found z (find_blob blobs base) h

-- The loop of `load_fw` over the name.
unfoldable pub base_loop : (p base : List ℕ) → List ℕ
base_loop [] base = base
base_loop (c ∷ p) base = base_loop p (if c == 47 then p else base)

unfoldable pub load_fw : Zlib → List Blob → (name : List ℕ) → Heap → Option Firmware × Heap
unfolding load_fw_from_blob base_loop
load_fw z blobs name h = load_fw_from_blob z blobs (base_loop name name) h

abbrev pub free_buffer : Option ℕ → ℕ → Heap → Heap
free_buffer none size h = h
free_buffer (some at) size h = io_free at size h

unfoldable pub release_firmware : Option Firmware → Heap → Heap
unfolding io_free
release_firmware none h = h
release_firmware (some fw) h = io_free fw.at firmware_size (free_buffer fw.buffer fw.alloc_size h)

-- The codes that the callers get: 0, `-ENOENT` and `-EINVAL`.
pub data Status : Type 0 where
  done enoent einval : Status

-- `request_firmware_nowait`: its code, and what the callback is called with, `none` where it is
-- not called.
unfoldable pub request_firmware_nowait :
    Zlib
    → List Blob
    → (name : List ℕ) → (cont : Bool) → Heap
    → Status × Option (Option Firmware) × Heap
unfolding load_fw
request_firmware_nowait z blobs name cont h =
    let (fw, t) = load_fw z blobs name h in
    if not cont then (einval, none, h) else (done, some fw, t)

-- `rtw88_load_firmware_sync`: its code and `*fw_out`.
unfoldable pub load_firmware_sync :
    Zlib → List Blob → (name : List ℕ) → Heap → Status × Option Firmware × Heap
unfolding load_fw
load_firmware_sync z blobs name h =
    let (fw, t) = load_fw z blobs name h in (if is_some fw then done else enoent, fw, t)
