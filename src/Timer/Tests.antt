-- ===== src/Timer/Tests.antt =====
-- Runs of the timer helpers, and their theorems at a clock about to wrap.
use airport_rtw.Base.{◌≡◌, refl, true, false, some, none}
use airport_rtw.Timer.{Timer, mod_timer}

abbrev unset : Timer
unset = record { expires = 0; call = false; active = false }

armed_for_twenty : (mod_timer true 1000 unset 1020).interval ≡ some 20
unfolding mod_timer
armed_for_twenty = refl

no_memory : (mod_timer false 1000 unset 1020).interval ≡ none
unfolding mod_timer
no_memory = refl
