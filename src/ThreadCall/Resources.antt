-- ===== src/ThreadCall/Resources.antt =====
-- What `rtw88_thread_call_allocate` takes and `rtw88_thread_call_free` gives back.
use airport_rtw.Base.{ℕ, ◌+◌, ◌-◌, ◌≡◌, Bool, true, false, not, ◌&&◌, arith, if◌then◌else◌}

-- How many blocks, locks and native thread calls are held.
pub record Pool : Type 0 where
  pub blocks : ℕ
  pub locks : ℕ
  pub natives : ℕ

-- `fn` says whether the callback is set; the other flags say which of `IOMalloc`, `IOLockAlloc`
-- and the native `thread_call_allocate` succeed.
pub record Grants : Type 0 where
  pub fn : Bool
  pub block : Bool
  pub lock : Bool
  pub native : Bool

pub allocate : Grants → Pool → Bool × Pool
allocate g p =
    if not g.fn
    then (false, p)
    else if not g.block
    then (false, p)
    else let p1 = record p { blocks = p.blocks + 1 } in
      if not g.lock
      then (false, record p1 { blocks = p1.blocks - 1 })
      else let p2 = record p1 { locks = p1.locks + 1 } in
        if not g.native
        then (false, record p2 { locks = p2.locks - 1; blocks = p2.blocks - 1 })
        else (true, record p2 { natives = p2.natives + 1 })

-- `rtw88_thread_call_free` after its `rtw88_thread_call_cancel_wait`. `freed` is what the native
-- `thread_call_free` answers.
pub free : (handle : Bool) → (freed : Bool) → Pool → Bool × Pool
free handle freed p =
    if not handle
    then (false, p)
    else if not freed
    then (false, p)
    else (true, record p { natives = p.natives - 1; locks = p.locks - 1; blocks = p.blocks - 1 })

-- A handle is made exactly when the callback is set and every allocation succeeds; otherwise
-- nothing stays allocated. Freeing a handle gives back all that its allocation took, unless the
-- kernel refuses, and then nothing is given back.
pub free-allocate :
    (g : Grants) (p : Pool) (freed : Bool)
    → let (made, q) = allocate g p in
      (made ≡ (g.fn && (g.block && (g.lock && g.native))))
      × ((free made freed q).0 ≡ (made && freed))
      × ((free made freed q).1 ≡ (if made && not freed then q else p))
      × (made ≡ false → q ≡ p)
unfolding allocate free
free-allocate g p freed = ground arith
