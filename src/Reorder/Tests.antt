-- ===== src/Reorder/Tests.antt =====
-- The reorder theorems at a window whose sequence numbers wrap round.
use airport_rtw.Base.{ℕ, ◌%◌, ◌<◌, ◌≡◌, refl, true, none, some, [], ◌∷◌, arith, length, update}
use airport_rtw.Reorder.{
  Reorder, Windows, fresh, input, flush_one, flush_stale, slide, release, skip,
}
use airport_rtw.Reorder.Window.{IsWindow}
use airport_rtw.Reorder.Moves.{Taken}
use airport_rtw.Reorder.Place.{put_in, put_in-IsPlaced}
use airport_rtw.Reorder.Input.{Handled, reorder_input}
use airport_rtw.Reorder.Flush.{flush_one-moves}
use airport_rtw.Reorder.Teardown.{fresh-IsWindow}

-- Each frame is named by its sequence number.
abbrev number_of : ℕ → ℕ
number_of x = x % 4096

-- The window waits for 4095 and holds frame 1, two places on.
abbrev waiting_one : Reorder
waiting_one = put_in 1 1 (fresh 4095 8)

waiting_one-IsWindow : IsWindow number_of 4095 waiting_one
waiting_one-IsWindow =
    (put_in-IsPlaced number_of 4095 2 1 1 (fresh 4095 8) (fresh-IsWindow number_of 4095 8) refl
      (omega arith) refl refl).window

-- The missing frame is handed on, and frame 1 still waits for frame 0.
missing_frame : (input 4095 4095 waiting_one).delivered ≡ 4095 ∷ []
unfolding input slide release
missing_frame = refl

far_frame : (input 8 8 waiting_one).delivered ≡ 1 ∷ []
unfolding input slide release
far_frame = refl

reorder_input_example : Handled number_of 4095 4095 4095 waiting_one (input 4095 4095 waiting_one)
reorder_input_example =
    reorder_input number_of 4095 4095 waiting_one waiting_one-IsWindow (omega arith) (omega arith)

abbrev two_windows : Windows
two_windows = update (update (λ tid. none) 0 (some waiting_one)) 5 (some waiting_one)

stale_frames : (flush_stale two_windows).0 ≡ 1 ∷ 1 ∷ []
unfolding flush_stale flush_one release skip
stale_frames = refl

flush_one-moves_example :
    Taken number_of 4095 waiting_one (flush_one 3 waiting_one)
    × (true ≡ true → 0 < 1 → 3 < 64 → 0 < length (flush_one 3 waiting_one).0)
flush_one-moves_example = flush_one-moves number_of 4095 3 waiting_one waiting_one-IsWindow
