-- ===== src/Firmware/Tests.antt =====
-- A zlib that copies, one blob, and the loading theorems at them.
use airport_rtw.Base.{
  ℕ, ◌+◌, ◌*◌, ◌≡◌, refl, true, false, Option, none, some, List, [], ◌∷◌, arith, if◌then◌else◌,
  take, length-take, is_some,
}
use airport_rtw.Firmware.{
  Heap, z_ok, z_stream_end, Zlib, Blob, load_fw, io_malloc, decompress, release_firmware, done,
  enoent, einval, request_firmware_nowait, load_firmware_sync,
}
use airport_rtw.Firmware.Load.{load-release}
use airport_rtw.Firmware.Outcome.{IsBase, Lookup, content, bytes_of, load_outcome}

-- Copies as many bytes as there is room for.
stored : Zlib
stored = record {
  inflate_init = λ src. z_ok;
  inflate = λ n src. (z_stream_end, take n src);
  inflate_end = λ n src. z_ok;
  inflate-ne-ok = λ n src e. ground arith;
  inflate-length = λ n src. omega (arith, length-take n src);
}

abbrev blob : Blob
blob = record { name = 102 ∷ 119 ∷ []; bytes = 7 ∷ 8 ∷ 9 ∷ []; compressed_size = 3 }

abbrev path : List ℕ
path = 114 ∷ 47 ∷ 102 ∷ 119 ∷ []

abbrev heap : Heap
heap = record {
  give = λ n. some (4096 * (n + 1));
  calls = 0;
  live = [];
  fault = false;
  word = λ a. 0;
  streams = 0;
}

loaded : bytes_of (load_fw stored (blob ∷ []) path heap).0 ≡ some (7 ∷ 8 ∷ 9 ∷ [])
unfolding load_fw stored io_malloc decompress
loaded = refl

load-release_example :
    let (f, t) = load_fw stored (blob ∷ []) path heap in
    let u = release_firmware f t in
    (f ≡ none → (t.live ≡ []) × (t.fault ≡ false) × (t.streams ≡ 0))
    × (u.live ≡ [])
    × (u.fault ≡ false)
    × (u.streams ≡ 0)
load-release_example = load-release stored (blob ∷ []) path heap

load_outcome_example :
    (base : List ℕ) × IsBase path base
    × (found : Option Blob) × Lookup base (blob ∷ []) found
    × (bytes_of (load_fw stored (blob ∷ []) path heap).0 ≡ content stored found heap)
    × ((load_firmware_sync stored (blob ∷ []) path heap).0
        ≡ (if is_some (content stored found heap) then done else enoent))
    × (request_firmware_nowait stored (blob ∷ []) path true heap ≡ (
      done,
      some (load_fw stored (blob ∷ []) path heap).0,
      (load_fw stored (blob ∷ []) path heap).1,
    ))
    × (request_firmware_nowait stored (blob ∷ []) path false heap ≡ (einval, none, heap))
load_outcome_example = load_outcome stored (blob ∷ []) path heap
