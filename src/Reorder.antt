-- ===== src/Reorder.antt =====
-- The reorder buffer for received A-MPDU frames, of src/kext/RTW88IEEE80211.cpp: one window for
-- each traffic identifier (TID). A socket buffer is named by a number. `_rxBaLock` makes each
-- function one step; the frames that it hands on are delivered after the lock is dropped, in the
-- order of the list.
pub mod Window
pub mod Slots
pub mod Moves
pub mod Place
pub mod Input
pub mod Flush
pub mod Teardown
mod Tests
use airport_rtw.Base.{
  ℕ, zero, suc, ◌+◌, ◌-◌, ◌%◌, ◌^◌, Bool, true, false, not, ◌&&◌, ◌||◌, Option, none, some, List,
  [], ◌∷◌, ◌++◌, ltb, leb, ◌==◌, if◌then◌else◌, length, update,
}

-- `kRxBaMaxBuf` and `kRxBaNumTid`
abbrev pub max_buf : ℕ
max_buf = 64

abbrev pub num_tid : ℕ
num_tid = 8

-- `struct RxReorder`
pub record Reorder : Type 0 where
  pub active : Bool
  pub head : ℕ
  pub size : ℕ
  pub stored : ℕ
  pub buf : ℕ → Option ℕ

-- `(a - b) & 0xFFF`, for numbers below 4096.
abbrev pub gap : ℕ → ℕ → ℕ
gap a b = (a + 4096 - b) % 4096

abbrev pub advance : Reorder → Reorder
advance r = record r { head = (r.head + 1) % 4096 }

abbrev pub taken : Reorder → Reorder
taken r = record r {
  buf = update r.buf (r.head % max_buf) none;
  stored = (r.stored + 2 ^ 32 - 1) % 2 ^ 32;
}

-- The loop that slides the window up to `goal`. A round is made only while fewer than 2048 are
-- left, so as much fuel is enough.
unfoldable pub slide : ℕ → (goal nout : ℕ) → Reorder → List ℕ × Reorder
slide zero goal nout r = ([], r)
slide (suc fuel) goal nout r =
    elim (not (gap goal r.head == 0) && (ltb (gap goal r.head) 2048 && ltb nout max_buf)) [
      | false ↦ ([], r)
      | true ↦ elim (r.buf (r.head % max_buf)) [
        | none ↦ slide fuel goal nout (advance r)
        | some x ↦
            (let rest = slide fuel goal (nout + 1) (advance (taken r)) in (x ∷ rest.0, rest.1))
      ]
    ]

-- The loop that releases the run at the head. Each round makes `nout` larger, so 64 are enough.
unfoldable pub release : ℕ → (nout : ℕ) → Reorder → List ℕ × Reorder
release zero nout r = ([], r)
release (suc fuel) nout r = elim (ltb 0 r.stored && ltb nout max_buf) [
  | false ↦ ([], r)
  | true ↦ elim (r.buf (r.head % max_buf)) [
    | none ↦ ([], r)
    | some x ↦ (let rest = release fuel (nout + 1) (advance (taken r)) in (x ∷ rest.0, rest.1))
  ]
]

-- What a call hands on, what it frees, whether it arms the timer, and the window after it.
pub record Outcome : Type 0 where
  pub delivered : List ℕ
  pub freed : List ℕ
  pub timer : Bool
  pub after : Reorder

-- The frame goes into its slot unless that is taken.
abbrev pub stored_at : Option ℕ → (skb sn : ℕ) → Reorder → List ℕ × Reorder
stored_at (some y) skb sn r = (skb ∷ [], r)
stored_at none skb sn r = (
  [],
  record r { buf = update r.buf (sn % max_buf) (some skb); stored = (r.stored + 1) % 2 ^ 32 },
)

abbrev pub slid : (sn : ℕ) → Reorder → List ℕ × Reorder
slid sn r =
    if leb r.size (gap sn r.head) then slide 2048 ((sn + 1 + 4096 - r.size) % 4096) 0 r else ([], r)

-- `rxReorderInput` with an active window.
unfoldable pub input : (skb sn : ℕ) → Reorder → Outcome
unfolding slide release
input skb sn r =
    if leb 2048 (gap sn r.head)
    then record { delivered = []; freed = skb ∷ []; timer = false; after = r }
    else let (out, r1) = slid sn r in
      let (freed, r2) = stored_at (r1.buf (sn % max_buf)) skb sn r1 in
      let (run, r3) = release 64 (length out) r2 in
      record { delivered = out ++ run; freed = freed; timer = ltb 0 r3.stored; after = r3 }

-- The first loop of `rxReorderFlushStale`: past the holes.
unfoldable pub skip : (guard : ℕ) → Reorder → Reorder
skip zero r = r
skip (suc guard) r = elim (ltb 0 r.stored) [
  | false ↦ r
  | true ↦ elim (r.buf (r.head % max_buf)) [ none ↦ skip guard (advance r) | some x ↦ r ]
]

-- Its body for one window, with `nout` frames taken from the windows before.
unfoldable pub flush_one : (nout : ℕ) → Reorder → List ℕ × Reorder
unfolding skip release
flush_one nout r = if not r.active || r.stored == 0 then ([], r) else release 64 nout (skip 4096 r)

-- The windows of the TIDs, `none` where there is none.
abbrev pub Windows : Type 0
Windows = ℕ → Option Reorder

abbrev pub flush_at : (nout : ℕ) → Option Reorder → List ℕ × Option Reorder
flush_at nout none = ([], none)
flush_at nout (some r) = let (out, r') = flush_one nout r in (out, some r')

-- The loop over the TIDs from `tid` on, of which `more` are left.
unfoldable pub flush_from : (more tid nout : ℕ) → Windows → List ℕ × Windows
unfolding flush_one
flush_from zero tid nout w = ([], w)
flush_from (suc more) tid nout w =
    let (out, r) = flush_at nout (w tid) in
    let rest = flush_from more (tid + 1) (nout + length out) (update w tid r) in
    (out ++ rest.0, rest.1)

unfoldable pub flush_stale : Windows → List ℕ × Windows
unfolding flush_from
flush_stale w = flush_from num_tid 0 0 w

-- The frames in the slots from `i` on, of which `more` are left.
abbrev pub held : Option ℕ → List ℕ → List ℕ
held none xs = xs
held (some x) xs = x ∷ xs

unfoldable pub slots : (ℕ → Option ℕ) → (more i : ℕ) → List ℕ
slots buf zero i = []
slots buf (suc more) i = held (buf i) (slots buf more (i + 1))

abbrev pub capped : (bufsize : ℕ) → ℕ
capped bufsize = if bufsize == 0 || ltb max_buf bufsize then max_buf else bufsize

abbrev pub fresh : (ssn bufsize : ℕ) → Reorder
fresh ssn bufsize = record {
  active = true;
  head = ssn % 4096;
  size = capped bufsize;
  stored = 0;
  buf = λ i. none;
}

abbrev pub old_frames : Option Reorder → List ℕ
old_frames none = []
old_frames (some r) = slots r.buf max_buf 0

-- `rxBaSetup`: the frames that it frees, and the windows. `granted` says whether a new window can
-- be allocated.
unfoldable pub ba_setup : (granted : Bool) → (tid ssn bufsize : ℕ) → Windows → List ℕ × Windows
unfolding slots
ba_setup granted tid ssn bufsize w = if leb num_tid tid then ([], w) else elim (w tid) [
  | none ↦ ([], if granted then update w tid (some (fresh ssn bufsize)) else w)
  | some r ↦ (old_frames (some r), update w tid (some (fresh ssn bufsize)))
]

-- `rxBaTeardown` and `rxBaTeardownAll`
unfoldable pub ba_teardown : (tid : ℕ) → Windows → List ℕ × Windows
unfolding slots
ba_teardown tid w = if leb num_tid tid then ([], w) else (old_frames (w tid), update w tid none)

unfoldable pub teardown_from : (more tid : ℕ) → Windows → List ℕ × Windows
unfolding ba_teardown
teardown_from zero tid w = ([], w)
teardown_from (suc more) tid w =
    let (freed, w') = ba_teardown tid w in
    let rest = teardown_from more (tid + 1) w' in (freed ++ rest.0, rest.1)

unfoldable pub ba_teardown_all : Windows → List ℕ × Windows
unfolding teardown_from
ba_teardown_all w = teardown_from num_tid 0 w
