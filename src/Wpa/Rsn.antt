-- ===== src/Wpa/Rsn.antt =====
-- The RSN element that the driver sends and the one that it accepts.
use airport_rtw.Base.{ℕ, ◌≡◌, refl, some, ◌==◌, if◌then◌else◌, Bool, true, false}
use airport_rtw.Wpa.{rsn_select_ccmp_psk, build_selected_rsn_ie, has_suite, group_suite, ccmp, tkip}
use airport_rtw.Base.{drop}

built-group :
    (group_cipher : ℕ) (b : Bool)
    → (group_cipher == tkip) ≡ b
    → rsn_select_ccmp_psk (drop 2 (build_selected_rsn_ie group_cipher))
      ≡ some (ccmp, if b then tkip else ccmp)
unfolding rsn_select_ccmp_psk build_selected_rsn_ie has_suite
built-group group_cipher true e = rw e refl
built-group group_cipher false e = rw e refl

-- The driver accepts the body of the element that it builds, and reads from it the pairwise
-- cipher CCMP and the group cipher TKIP where it was given TKIP, else CCMP.
pub rsn_select-build :
    (group_cipher : ℕ)
    → rsn_select_ccmp_psk (drop 2 (build_selected_rsn_ie group_cipher))
      ≡ some (ccmp, group_suite group_cipher)
rsn_select-build group_cipher = built-group group_cipher (group_cipher == tkip) refl
