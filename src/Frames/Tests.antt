-- ===== src/Frames/Tests.antt =====
-- The theorems on frames and channels at one station.
use airport_rtw.Base.{◌≡◌, refl, true, none, some, [], ◌∷◌}
use airport_rtw.Skb.{Blocks}
use airport_rtw.Frames.{Vif, nullfunc_get}
use airport_rtw.Frames.Built.{pspoll_frame}

abbrev station : Vif
station = record {
  addr = record { b0 = 2; b1 = 17; b2 = 34; b3 = 51; b4 = 68; b5 = 85 };
  bssid = record { b0 = 160; b1 = 1; b2 = 2; b3 = 3; b4 = 4; b5 = 5 };
  aid = 3;
}

abbrev blocks : Blocks
blocks = record { buffer = some 65536; skb = true; bytes = λ a. 170 }

pspoll_runs :
    pspoll_frame station
    ≡ 0xA4 ∷ 0 ∷ 3 ∷ 0xC0 ∷ 160 ∷ 1 ∷ 2 ∷ 3 ∷ 4 ∷ 5 ∷ 2 ∷ 17 ∷ 34 ∷ 51 ∷ 68 ∷ 85 ∷ []
unfolding pspoll_frame
pspoll_runs = refl

no_interface : nullfunc_get blocks none true ≡ none
unfolding nullfunc_get
no_interface = refl
