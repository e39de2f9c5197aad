-- ===== src/Log/Tests.antt =====
-- Runs of the log, and its theorems at a ring about to go round.
use airport_rtw.Base.{ℕ, ◌≡◌, refl, true, false, List, [], ◌∷◌, ◌++◌, arith, keep_last}
use airport_rtw.Log.{LogRing, log_append}
use airport_rtw.Log.Inv.{IsValid}
use airport_rtw.Log.Refine.{contents, until_nul, log_append-keep_last}

abbrev near_end : LogRing
near_end = record { lock = true; ring = λ _. 46; head = 8190; tail = 8188 }

abbrev empty_ring : LogRing
empty_ring = record { lock = true; ring = λ _. 0; head = 8190; tail = 8190 }

-- "hey", its zero byte, and what happens to stand behind it.
abbrev hey : List ℕ
hey = 104 ∷ 101 ∷ 121 ∷ 0 ∷ 33 ∷ []

near_end-IsValid : IsValid near_end
near_end-IsValid = omega arith

goes_round : contents (log_append near_end hey) ≡ 46 ∷ 46 ∷ 104 ∷ 101 ∷ 121 ∷ []
unfolding log_append
goes_round = refl

unlocked_drops : (log_append (record near_end { lock = false }) hey).head ≡ 8190
unfolding log_append
unlocked_drops = refl

log_append-keep_last_example :
    contents (log_append near_end hey) ≡ keep_last 8191 (contents near_end ++ until_nul hey)
log_append-keep_last_example = log_append-keep_last near_end hey near_end-IsValid refl
