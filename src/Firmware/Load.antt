-- ===== src/Firmware/Load.antt =====
-- What `load_fw` and `release_firmware` of src/compat/rtw88_firmware.c take and give back, and when
-- a firmware is loaded.
use airport_rtw.Base.{
  ℕ, ◌+◌, ◌-◌, ◌%◌, ◌^◌, ◌≡◌, refl, ap, ◌∙◌, Bool, true, false, not, Option, none, some, List, ◌∷◌,
  arith, if◌then◌else◌, take,
}
use airport_rtw.Firmware.{
  Heap, is_live, without, given, io_malloc, io_free, is_ok, Zlib, decompress, Firmware, Blob,
  find_blob, firmware_size, alloc_size_of, with_struct, with_buffer, load_found, load_fw_from_blob,
  base_loop, load_fw, free_buffer, release_firmware, zcalloc_size, headed, zcalloc, zcfree,
}

-- What is allocated, with the faults and the streams of an earlier heap.
pub record IsAbove (h : Heap) (live : List (ℕ × ℕ)) (t : Heap) : Type 0 where
  pub on_top : t.live ≡ live
  pub no_fault : t.fault ≡ h.fault
  pub as_many : t.streams ≡ h.streams

-- Nothing is lost between two heaps.
abbrev pub IsBalanced : (h t : Heap) → Type 0
IsBalanced h t = IsAbove h h.live t

abbrev pub IsLoaded : Option Firmware → Heap → Heap → Type 0
IsLoaded none h t = IsBalanced h t
IsLoaded (some fw) h t =
    (buf : ℕ) × (fw.buffer ≡ some buf)
    × IsAbove h ((fw.at, firmware_size) ∷ (buf, fw.alloc_size) ∷ h.live) t

decompress-live :
    (z : Zlib) (n : ℕ) (src : List ℕ) (h : Heap)
    → let t = (decompress z n src h).heap in
      (t.live ≡ h.live) × (t.fault ≡ h.fault) × (t.streams ≡ h.streams)
unfolding decompress
decompress-live z n src h = ground arith

without-top : (at size : ℕ) (live : List (ℕ × ℕ)) → without (at, size) ((at, size) ∷ live) ≡ live
without-top at size live = ground arith

is_live-top : (at size : ℕ) (live : List (ℕ × ℕ)) → is_live (at, size) ((at, size) ∷ live) ≡ true
is_live-top at size live = ground arith

free_top :
    (h t : Heap) (at size : ℕ) (live : List (ℕ × ℕ))
    → IsAbove h ((at, size) ∷ live) t
    → IsAbove h live (io_free at size t)
unfolding io_free
free_top h t at size live i = record {
  on_top = ap (without (at, size)) i.on_top ∙ without-top at size live;
  no_fault =
      ground (arith, ap (is_live (at, size)) i.on_top ∙ is_live-top at size live, i.no_fault);
  as_many = i.as_many;
}

without-under :
    (at size at' size' : ℕ) (live : List (ℕ × ℕ))
    → without (at, size) ((at', size') ∷ (at, size) ∷ live) ≡ (at', size') ∷ live
without-under at size at' size' live = ground arith

is_live-under :
    (at size at' size' : ℕ) (live : List (ℕ × ℕ))
    → is_live (at, size) ((at', size') ∷ (at, size) ∷ live) ≡ true
is_live-under at size at' size' live = ground arith

free_under :
    (h t : Heap) (at' size' at size : ℕ) (live : List (ℕ × ℕ))
    → IsAbove h ((at', size') ∷ (at, size) ∷ live) t
    → IsAbove h ((at', size') ∷ live) (io_free at size t)
unfolding io_free
free_under h t at' size' at size live i = record {
  on_top = ap (without (at, size)) i.on_top ∙ without-under at size at' size' live;
  no_fault =
      ground (
        arith,
        ap (is_live (at, size)) i.on_top ∙ is_live-under at size at' size' live,
        i.no_fault,
      );
  as_many = i.as_many;
}

struct-IsLoaded :
    (b : Blob) (buf : ℕ) (bytes : List ℕ) (o : Option ℕ) (h t : Heap)
    → IsAbove h ((buf, alloc_size_of b) ∷ h.live) t
    → let r = with_struct b buf bytes (given o firmware_size t) in IsLoaded r.0 h r.1
struct-IsLoaded b buf bytes none h t i =
    free_top h _ buf (alloc_size_of b) h.live
      (record { on_top = i.on_top; no_fault = i.no_fault; as_many = i.as_many })
struct-IsLoaded b buf bytes (some at) h t i = (
  buf,
  refl,
  record {
    on_top = ap (λ l. (at, firmware_size) ∷ l) i.on_top;
    no_fault = i.no_fault;
    as_many = i.as_many;
  },
)

if-IsLoaded :
    (c : Bool) (x y : Option Firmware × Heap) (h : Heap)
    → IsLoaded x.0 h x.1
    → IsLoaded y.0 h y.1
    → let r = if c then x else y in IsLoaded r.0 h r.1
if-IsLoaded true x y h i j = i
if-IsLoaded false x y h i j = j

buffer-IsLoaded :
    (z : Zlib) (b : Blob) (o : Option ℕ) (h : Heap)
    → let r = with_buffer z b (given o (alloc_size_of b) h) in IsLoaded r.0 h r.1
unfolding io_malloc
buffer-IsLoaded z b none h = record { on_top = refl; no_fault = refl; as_many = refl }
buffer-IsLoaded z b (some buf) h =
    let src : List ℕ = take (b.compressed_size % 2 ^ 32) b.bytes in
    let room : ℕ = alloc_size_of b % 2 ^ 32 in
    let h1 : Heap = (given (some buf) (alloc_size_of b) h).1 in
    let r = decompress z room src h1 in
    let (live, fault, streams) = decompress-live z room src h1 in
    let i : IsAbove h ((buf, alloc_size_of b) ∷ h.live) r.heap = record {
      on_top = live;
      no_fault = fault;
      as_many = streams;
    } in
    if-IsLoaded (not (is_ok r.code)) (none, io_free buf (alloc_size_of b) r.heap) _ h
      (free_top h r.heap buf (alloc_size_of b) h.live i)
      (struct-IsLoaded b buf r.bytes (r.heap.give r.heap.calls) h r.heap i)

found-IsLoaded :
    (z : Zlib) (b : Option Blob) (h : Heap) → let r = load_found z b h in IsLoaded r.0 h r.1
unfolding io_malloc
found-IsLoaded z none h = record { on_top = refl; no_fault = refl; as_many = refl }
found-IsLoaded z (some b) h = buffer-IsLoaded z b (h.give h.calls) h

release-IsLoaded :
    (f : Option Firmware) (h t : Heap) → IsLoaded f h t → IsBalanced h (release_firmware f t)
unfolding release_firmware
release-IsLoaded none h t i = i
release-IsLoaded (some fw) h t (buf, e, i) =
    let under : IsAbove h ((fw.at, firmware_size) ∷ h.live) (io_free buf fw.alloc_size t) =
      free_under h t fw.at firmware_size buf fw.alloc_size h.live i in
    let freed : free_buffer fw.buffer fw.alloc_size t ≡ io_free buf fw.alloc_size t =
      ap (λ o. free_buffer o fw.alloc_size t) e in
    rw freed (free_top h (io_free buf fw.alloc_size t) fw.at firmware_size h.live under)

none-IsLoaded : (f : Option Firmware) (h t : Heap) → f ≡ none → IsLoaded f h t → IsBalanced h t
none-IsLoaded none h t e i = i
none-IsLoaded (some fw) h t e i = ground arith

-- Whatever zlib answers and the allocator refuses, `load_fw` leaves no block and no zlib stream
-- behind unless it returns a firmware, and it never frees a block that is not allocated or with
-- another size. `release_firmware` gives back what a returned firmware holds: the blocks, streams
-- and faults are then those from before the loading.
pub load-release :
    (z : Zlib) (blobs : List Blob) (name : List ℕ) (h : Heap)
    → let (f, t) = load_fw z blobs name h in
      let u = release_firmware f t in
      (f ≡ none → (t.live ≡ h.live) × (t.fault ≡ h.fault) × (t.streams ≡ h.streams))
      × (u.live ≡ h.live)
      × (u.fault ≡ h.fault)
      × (u.streams ≡ h.streams)
unfolding load_fw load_fw_from_blob
load-release z blobs name h =
    let (f, t) = load_fw z blobs name h in
    let i : IsLoaded f h t = found-IsLoaded z (find_blob blobs (base_loop name name)) h in
    let j = release-IsLoaded f h t i in
    (
      λ e. (let k = none-IsLoaded f h t e i in (k.on_top, k.no_fault, k.as_many)),
      j.on_top,
      j.no_fault,
      j.as_many,
    )

free_found :
    (h t : Heap) (at size : ℕ) {p n : ℕ}
    → p ≡ at
    → n ≡ size
    → IsAbove h ((at, size) ∷ h.live) t
    → IsBalanced h (io_free p n t)
free_found h t at size e f i = rw (e, f) (free_top h t at size h.live i)

headed-IsBalanced :
    (alloc : ℕ) (o : Option ℕ) (h : Heap)
    → let (ptr, t) = headed alloc (given o alloc h) in IsBalanced h (zcfree ptr t)
unfolding zcfree
headed-IsBalanced alloc none h = record { on_top = refl; no_fault = refl; as_many = refl }
headed-IsBalanced alloc (some zm) h =
    let back : zm + 4 - 4 ≡ zm = omega arith in
    free_found h _ zm alloc back (ground (arith, back))
      (record { on_top = refl; no_fault = refl; as_many = refl })

-- What `rtw88_zcalloc` allocated, `rtw88_zcfree` frees with the size that it was allocated with,
-- which it finds in front of the data, also where the size has wrapped round; without a block it
-- does nothing.
pub zcfree-zcalloc :
    (items size : ℕ) (h : Heap)
    → let (ptr, t) = zcalloc items size h in
      let u = zcfree ptr t in (u.live ≡ h.live) × (u.fault ≡ h.fault)
unfolding zcalloc io_malloc
zcfree-zcalloc items size h =
    let i = headed-IsBalanced (zcalloc_size items size) (h.give h.calls) h in (i.on_top, i.no_fault)
