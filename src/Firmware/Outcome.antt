-- ===== src/Firmware/Outcome.antt =====
-- When `load_fw` of src/compat/rtw88_firmware.c returns a firmware, and which.
use airport_rtw.Base.{
  ℕ, ◌+◌, ◌%◌, ◌^◌, ◌≡◌, ◌≢◌, inl, inr, refl, ap, ap₂, ◌∙◌, Bool, true, false, not, ◌&&◌, Option,
  none, some, List, [], ◌∷◌, ◌++◌, ◌⊎◌, ==_iff, ◌==◌, sym, count, arith, if◌then◌else◌, take,
  is_some, Bool-cases,
}
use airport_rtw.Firmware.{
  Heap, given, io_malloc, io_free, Code, z_ok, z_stream_end, z_other, is_ok, is_end, Zlib,
  decompress, Firmware, Blob, find_blob, firmware_size, alloc_size_of, with_struct, with_buffer,
  load_found, load_fw_from_blob, base_loop, load_fw, done, enoent, einval, request_firmware_nowait,
  load_firmware_sync, same_string,
}
use airport_rtw.Firmware.Name.{slash, base_name}

abbrev pub input : Blob → List ℕ
input b = take (b.compressed_size % 2 ^ 32) b.bytes

abbrev pub room : Blob → ℕ
room b = alloc_size_of b % 2 ^ 32

-- zlib starts, reaches the end of the stream and ends.
abbrev pub inflates : Zlib → Blob → Bool
inflates z b =
    is_ok (z.inflate_init (input b))
    && (is_end (z.inflate (room b) (input b)).0 && is_ok (z.inflate_end (room b) (input b)))

-- What a blob stands for: its inflated bytes, if both allocations are granted.
abbrev pub content : Zlib → Option Blob → Heap → Option (List ℕ)
content z none h = none
content z (some b) h =
    if is_some (h.give h.calls) && (inflates z b && is_some (h.give (h.calls + 1)))
    then some (z.inflate (room b) (input b)).1
    else none

abbrev pub bytes_of : Option Firmware → Option (List ℕ)
bytes_of none = none
bytes_of (some fw) = some fw.bytes

ne-ok : (c : Code) → c ≢ z_ok → is_ok c ≡ false
ne-ok z_ok ne = absurd (ne refl)
ne-ok z_stream_end ne = refl
ne-ok (z_other n) ne = refl

decompress-is_ok :
    (z : Zlib) (b : Blob) (h : Heap) → is_ok (decompress z (room b) (input b) h).code ≡ inflates z b
unfolding decompress
decompress-is_ok z b h =
    ground (arith, ne-ok (z.inflate (room b) (input b)).0 (z.inflate-ne-ok (room b) (input b)))

decompress-bytes :
    (z : Zlib) (b : Blob) (h : Heap)
    → inflates z b ≡ true
    → (decompress z (room b) (input b) h).bytes ≡ (z.inflate (room b) (input b)).1
unfolding decompress
decompress-bytes z b h ok = ground arith

decompress-give :
    (z : Zlib) (b : Blob) (h : Heap)
    → let t = (decompress z (room b) (input b) h).heap in t.give t.calls ≡ h.give h.calls
unfolding decompress
decompress-give z b h = ground arith

struct_bytes :
    (b : Blob) (buf : ℕ) (bytes : List ℕ) (o : Option ℕ) (t : Heap)
    → bytes_of (with_struct b buf bytes (given o firmware_size t)).0
      ≡ (if is_some o then some bytes else none)
struct_bytes b buf bytes none t = refl
struct_bytes b buf bytes (some at) t = refl

if_bytes :
    (c : Bool) (x y : Option Firmware × Heap)
    → bytes_of (if c then x else y).0 ≡ (if c then bytes_of x.0 else bytes_of y.0)
if_bytes true x y = refl
if_bytes false x y = refl

inflated_bytes :
    (z : Zlib) (b : Blob) (h : Heap) (o : Option ℕ) (bytes : List ℕ)
    → (inflates z b ≡ true → bytes ≡ (z.inflate (room b) (input b)).1)
    → (if not (inflates z b) then none else (if is_some o then some bytes else none))
      ≡ (if inflates z b && is_some o then some (z.inflate (room b) (input b)).1 else none)
inflated_bytes z b h o bytes e = elim (Bool-cases (inflates z b)) [
  | inl ok ↦ ground (arith, e ok)
  | inr ok ↦ ground arith
]

buffer_bytes :
    (z : Zlib) (b : Blob) (o : Option ℕ) (h : Heap)
    → bytes_of (with_buffer z b (given o (alloc_size_of b) h)).0 ≡ (
        if is_some o && (inflates z b && is_some (h.give (h.calls + 1)))
        then some (z.inflate (room b) (input b)).1
        else none)
unfolding io_malloc
buffer_bytes z b none h = refl
buffer_bytes z b (some buf) h =
    let h1 : Heap = (given (some buf) (alloc_size_of b) h).1 in
    let r = decompress z (room b) (input b) h1 in
    if_bytes (not (is_ok r.code)) (none, io_free buf (alloc_size_of b) r.heap)
      (with_struct b buf r.bytes (io_malloc firmware_size r.heap))
    ∙ ap₂ (λ c x. if not c then none else x) (decompress-is_ok z b h1)
        (struct_bytes b buf r.bytes (r.heap.give r.heap.calls) r.heap
          ∙ ap (λ o. if is_some o then some r.bytes else none) (decompress-give z b h1))
    ∙ inflated_bytes z b h (h.give (h.calls + 1)) r.bytes (decompress-bytes z b h1)

found_bytes :
    (z : Zlib) (b : Option Blob) (h : Heap) → bytes_of (load_found z b h).0 ≡ content z b h
unfolding io_malloc
found_bytes z none h = refl
found_bytes z (some b) h = buffer_bytes z b (h.give h.calls) h

sync_status :
    (f : Option Firmware)
    → (if is_some f then done else enoent) ≡ (if is_some (bytes_of f) then done else enoent)
sync_status none = refl
sync_status (some fw) = refl

-- No blob has the name.
pub Lacks : (base : List ℕ) → List Blob → Type 0
Lacks base [] = Unit
Lacks base (b ∷ blobs) = (b.name ≢ base) × Lacks base blobs

-- The first blob with the name, or none if there is none.
pub data Lookup (base : List ℕ) (blobs : List Blob) : Option Blob → Type 0 where
  unknown : Lacks base blobs → Lookup base blobs none
  first :
      (before after : List Blob) (b : Blob)
      → before ++ b ∷ after ≡ blobs
      → Lacks base before
      → b.name ≡ base
      → Lookup base blobs (some b)

both : (a b : Bool) → (a && b) ≡ true → (a ≡ true) × (b ≡ true)
both a b h = ground arith

same_string-eq : (xs ys : List ℕ) → same_string xs ys ≡ true → xs ≡ ys
same_string-eq [] [] h = refl
same_string-eq [] (y ∷ ys) h = cc
same_string-eq (x ∷ xs) [] h = cc
same_string-eq (x ∷ xs) (y ∷ ys) h =
    let e = both (x == y) (same_string xs ys) h in
    ap₂ (λ a b. a ∷ b) ((==_iff x y).0 e.0) (same_string-eq xs ys e.1)

same_string_refl : (xs : List ℕ) → same_string xs xs ≡ true
same_string_refl [] = refl
same_string_refl (x ∷ xs) = ground (arith, same_string_refl xs)

differ : (xs ys : List ℕ) → same_string xs ys ≡ false → xs ≢ ys
differ xs ys h e =
    let same : same_string xs ys ≡ true = ap (same_string xs) (sym e) ∙ same_string_refl xs in cc

passed :
    (b : Blob) (base : List ℕ) (blobs : List Blob) (o : Option Blob)
    → b.name ≢ base
    → Lookup base blobs o
    → Lookup base (b ∷ blobs) o
unfolding Lacks
passed b base blobs _ ne (unknown h) = unknown (ne, h)
passed b base blobs _ ne (first before after x e h same) =
    first (b ∷ before) after x (ap (λ t. b ∷ t) e) (ne, h) same

find_blob-Lookup : (blobs : List Blob) (base : List ℕ) → Lookup base blobs (find_blob blobs base)
unfolding find_blob Lacks
find_blob-Lookup [] base = unknown tt
find_blob-Lookup (b ∷ blobs) base = elim (Bool-cases (same_string b.name base)) [
  | inl h ↦ rw h (first [] blobs b refl tt (same_string-eq b.name base h))
  | inr h ↦ rw h (passed b base blobs _ (differ b.name base h) (find_blob-Lookup blobs base))
]

-- The part of a path behind its last slash, or the whole path if it has none.
abbrev pub IsBase : (name base : List ℕ) → Type 0
IsBase name base =
    (count slash base ≡ 0) × ((base ≡ name) ⊎ ((dir : List ℕ) × (dir ++ slash ∷ base ≡ name)))

-- `load_fw` looks up the part of the name behind its last slash, among the blobs the first one with
-- this name. It returns a firmware exactly if there is one, both allocations are granted and zlib
-- starts, reaches the end of the stream and ends; its bytes are then those that zlib made of that
-- blob, in a room of four times its size. `rtw88_load_firmware_sync` answers 0 for a firmware and
-- `-ENOENT` otherwise. `request_firmware_nowait` answers 0 and hands what `load_fw` returns to its
-- callback; without a callback it answers `-EINVAL` and takes nothing from the heap.
pub load_outcome :
    (z : Zlib) (blobs : List Blob) (name : List ℕ) (h : Heap)
    → (base : List ℕ) × IsBase name base
      × (found : Option Blob) × Lookup base blobs found
      × (bytes_of (load_fw z blobs name h).0 ≡ content z found h)
      × ((load_firmware_sync z blobs name h).0
          ≡ (if is_some (content z found h) then done else enoent))
      × (request_firmware_nowait z blobs name true h
          ≡ (done, some (load_fw z blobs name h).0, (load_fw z blobs name h).1))
      × (request_firmware_nowait z blobs name false h ≡ (einval, none, h))
unfolding load_fw load_fw_from_blob load_firmware_sync request_firmware_nowait
load_outcome z blobs name h =
    let base : List ℕ = base_loop name name in
    let e = found_bytes z (find_blob blobs base) h in
    (
      base,
      base_name name,
      find_blob blobs base,
      find_blob-Lookup blobs base,
      e,
      sync_status (load_fw z blobs name h).0 ∙ ap (λ c. if is_some c then done else enoent) e,
      refl,
      refl,
    )
