-- ===== src/Beacon/Tests.antt =====
-- The theorems on scan results of src/kext/RTW88IEEE80211.cpp, at a beacon.
use airport_rtw.Base.{
  true, ℕ, ◌≡◌, refl, arith, if◌then◌else◌, some, List, [], ◌∷◌, ◌++◌, length, replicate,
}
use airport_rtw.Wpa.{same_bytes, ccmp, build_selected_rsn_ie}
use airport_rtw.Beacon.{Network, parse, add_network, process_scan_result}
use airport_rtw.Beacon.Parsed.{Fits, parse-Fits}
use airport_rtw.Beacon.Listed.{find, IsUnique, add_network_lem}

-- The network "hi" on channel 6 with WPA2, and an element that is cut off.
abbrev beacon : List ℕ
beacon =
    0x80 ∷ 0 ∷ 0 ∷ 0 ∷ replicate 6 255
    ++ (replicate 6 9
        ++ (replicate 6 9
            ++ (0 ∷ 0 ∷ replicate 8 0
                ++ (100 ∷ 0 ∷ 17 ∷ 4 ∷ 0 ∷ 2 ∷ 104 ∷ 105 ∷ 3 ∷ 1 ∷ 6 ∷ build_selected_rsn_ie ccmp
                    ++ (221 ∷ 9 ∷ 1 ∷ [])))))

beacon_read : (parse beacon 0 2437 3).ssid ≡ 104 ∷ 105 ∷ []
unfolding parse build_selected_rsn_ie
beacon_read = refl

beacon_cipher : (parse beacon 0 2437 3).cipher ≡ ccmp
unfolding parse build_selected_rsn_ie
beacon_cipher = refl

parse-Fits_example : Fits (parse beacon 0 2437 3)
unfolding build_selected_rsn_ie
parse-Fits_example = parse-Fits beacon 0 2437 3 (omega arith)

abbrev home : Network
home = record {
  ssid = 104 ∷ 105 ∷ [];
  bssid = replicate 6 9;
  rssi = 0;
  freq = 2437;
  channel = 6;
  capabilities = 17;
  beacon_interval = 100;
  cipher = ccmp;
  group_cipher = ccmp;
  akm = 2;
  last_seen_scan = 3;
  ies = [];
}

abbrev others : List Network
others = record home { bssid = replicate 6 8 } ∷ record home { channel = 1 } ∷ []

add_network_lem_example :
    ((a : List ℕ)
      → find a (add_network home others)
        ≡ (if same_bytes home.bssid a then some home else find a others))
    × IsUnique (add_network home others)
unfolding find IsUnique
add_network_lem_example = add_network_lem home others (refl, (refl, tt))

short_frame_ignored : process_scan_result true [] 0 0 0 others ≡ others
unfolding process_scan_result
short_frame_ignored = refl

home_updated : length (add_network home others) ≡ 2
unfolding add_network
home_updated = refl
