-- ===== src/Reorder/Teardown.antt =====
-- Setting a window up and taking the windows down.
use airport_rtw.Base.{
  ℕ, zero, suc, ◌+◌, ◌%◌, ◌≤◌, ◌<◌, ◌≡◌, ◌≢◌, ◌⊎◌, refl, ap, ap₂, sym, ◌∙◌, inl, inr, Bool, true,
  false, Option, none, some, List, [], ◌++◌, arith, ◌==◌, leb, if◌then◌else◌, length, update,
  Bool-cases, is_some,
}
use airport_rtw.Reorder.{
  Reorder, slots, Windows, old_frames, fresh, ba_setup, ba_teardown, teardown_from, ba_teardown_all,
}
use airport_rtw.Reorder.Slots.{waiting-none}
use airport_rtw.Reorder.Window.{frames, IsWindow}

-- The frames of the windows of `more` TIDs from `tid` on.
abbrev pub all_frames : (more tid : ℕ) → Windows → List ℕ
all_frames zero tid w = []
all_frames (suc more) tid w = old_frames (w tid) ++ all_frames more (tid + 1) w

all_frames-update :
    (more tid i : ℕ) (w : Windows)
    → i < tid
    → all_frames more tid (update w i none) ≡ all_frames more tid w
unfolding slots
all_frames-update zero tid i w low = refl
all_frames-update (suc more) tid i w low =
    ap₂ (λ o ys. old_frames o ++ ys) {x = update w i none tid} {y = w tid} (ground arith)
      (all_frames-update more (tid + 1) i w (omega arith))

ba_teardown-in :
    (tid : ℕ) (w : Windows) → tid < 8 → ba_teardown tid w ≡ (old_frames (w tid), update w tid none)
unfolding ba_teardown slots
ba_teardown-in tid w low = let off : leb 8 tid ≡ false = ground arith in rw off refl

teardown_from_lem :
    (more tid : ℕ) (w : Windows)
    → tid + more ≤ 8
    → ((teardown_from more tid w).0 ≡ all_frames more tid w)
      × ((i : ℕ) → tid ≤ i → i < tid + more → (teardown_from more tid w).1 i ≡ none)
      × ((i : ℕ) → i < tid → (teardown_from more tid w).1 i ≡ w i)
unfolding teardown_from slots
teardown_from_lem zero tid w in_reach = (refl, λ i low high. absurd (omega arith), λ i low. refl)
teardown_from_lem (suc more) tid w in_reach =
    let (freed, gone, below) = teardown_from_lem more (tid + 1) (update w tid none) (omega arith) in
    rw (ba_teardown-in tid w (omega arith)) (
      ap (λ ys. old_frames (w tid) ++ ys)
          (freed ∙ all_frames-update more (tid + 1) tid w (omega arith)),
      λ i low high. elim (Bool-cases (i == tid)) [
        | inl here ↦ below i (ground arith) ∙ ground arith
        | inr later ↦ gone i (ground arith) (omega arith)
      ],
      λ i low. below i (omega arith) ∙ ground arith,
    )

-- Taking all windows down frees every frame that they hold, each once, and leaves no window.
pub ba_teardown_all_lem :
    (w : Windows)
    → ((ba_teardown_all w).0 ≡ all_frames 8 0 w)
      × ((i : ℕ) → i < 8 → (ba_teardown_all w).1 i ≡ none)
unfolding ba_teardown_all
ba_teardown_all_lem w =
    let (freed, gone, below) = teardown_from_lem 8 0 w (omega arith) in
    (freed, λ i low. gone i (omega arith) (omega (arith, low)))

ba_setup-slot :
    (granted : Bool) (tid ssn bufsize : ℕ) (w : Windows) (o : Option Reorder)
    → (granted ≡ true) ⊎ (is_some o ≡ true)
    → ◌≡◌ {A = List ℕ × Windows}
        (elim o [
          | none ↦ ([], if granted then update w tid (some (fresh ssn bufsize)) else w)
          | some r ↦ (old_frames (some r), update w tid (some (fresh ssn bufsize)))
        ])
        (old_frames o, update w tid (some (fresh ssn bufsize)))
unfolding slots
ba_setup-slot true tid ssn bufsize w none can = refl
ba_setup-slot false tid ssn bufsize w none can = absurd (ground (arith, can))
ba_setup-slot granted tid ssn bufsize w (some r) can = refl

ba_setup-done :
    (granted : Bool) (tid ssn bufsize : ℕ) (w : Windows)
    → tid < 8
    → (granted ≡ true) ⊎ (is_some (w tid) ≡ true)
    → ba_setup granted tid ssn bufsize w
      ≡ (old_frames (w tid), update w tid (some (fresh ssn bufsize)))
unfolding ba_setup slots
ba_setup-done granted tid ssn bufsize w low can =
    let inside : leb 8 tid ≡ false = ground arith in
    rw inside (ba_setup-slot granted tid ssn bufsize w (w tid) can)

module _ (sn_of : ℕ → ℕ) where
  pub fresh-IsWindow : (ssn bufsize : ℕ) → IsWindow sn_of (ssn % 4096) (fresh ssn bufsize)
  fresh-IsWindow ssn bufsize = record {
    at = omega arith;
    sized = ground arith;
    inside = λ p x low under found. absurd (ground (arith, found));
    counted = sym (ap length (waiting-none (λ i. none) 64 (ssn % 4096) (λ q low high. refl)));
  }

  -- A window that is set up, at a TID that had one or where memory is granted, starts at the
  -- sequence number that was agreed and holds nothing; the frames of the one before are freed,
  -- and the other TIDs keep their windows.
  pub ba_setup_lem :
      (granted : Bool) (tid ssn bufsize : ℕ) (w : Windows)
      → tid < 8
      → (granted ≡ true) ⊎ (is_some (w tid) ≡ true)
      → ((ba_setup granted tid ssn bufsize w).0 ≡ old_frames (w tid))
        × ((r : Reorder) × ((ba_setup granted tid ssn bufsize w).1 tid ≡ some r)
            × IsWindow sn_of (ssn % 4096) r
            × (frames (ssn % 4096) r ≡ []))
        × ((i : ℕ) → i ≢ tid → (ba_setup granted tid ssn bufsize w).1 i ≡ w i)
  ba_setup_lem granted tid ssn bufsize w low can =
      rw (ba_setup-done granted tid ssn bufsize w low can) (
        refl,
        (
          fresh ssn bufsize,
          ground arith,
          fresh-IsWindow ssn bufsize,
          waiting-none (λ i. none) 64 (ssn % 4096) (λ q low high. refl),
        ),
        λ i away. ground arith,
      )
