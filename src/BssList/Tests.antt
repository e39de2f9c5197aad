-- ===== src/BssList/Tests.antt =====
-- Two networks, written and read back; the second does not fit 39 bytes.
use airport_rtw.Base.{ℕ, ◌≡◌, refl, List, [], ◌∷◌, arith, min, replicate}
use airport_rtw.Frames.{Mac}
use airport_rtw.BssList.{
  Bss, get_bss_list, listed, overrun, read_entries, read_list, wpa2, open_network, security,
}
use airport_rtw.BssList.Round.{AllWellFormed, fitting, bss_list_round}

abbrev address : Mac
address = record { b0 = 0x00; b1 = 0xE0; b2 = 0x4C; b3 = 1; b4 = 2; b5 = 3 }

abbrev home : Bss
home = record {
  ssid = 104 ∷ 111 ∷ 109 ∷ 101 ∷ [];
  bssid = address;
  rssi = 65481;
  channel = 36;
  cipher = 0x000FAC04;
}

abbrev cafe : Bss
cafe = record {
  ssid = 99 ∷ 97 ∷ 102 ∷ 101 ∷ [];
  bssid = address;
  rssi = 65460;
  channel = 11;
  cipher = 0;
}

abbrev two : List Bss
two = home ∷ cafe ∷ []

two-AllWellFormed : AllWellFormed two
two-AllWellFormed = (
  record { short = omega arith; rssi_in = omega arith; cipher_in = omega arith },
  (record { short = omega arith; rssi_in = omega arith; cipher_in = omega arith }, tt),
)

small_buffer : read_list (get_bss_list 39 two) ≡ listed (home ∷ [])
unfolding get_bss_list read_list
small_buffer = refl

ciphers : (security 0x000FAC04 ≡ wpa2) × (security 0 ≡ open_network)
unfolding security
ciphers = (refl, refl)

bss_list_round_example : read_list (get_bss_list 8192 two) ≡ listed (fitting (min 8192 4095) 4 two)
bss_list_round_example = bss_list_round 8192 two (omega arith) two-AllWellFormed

abbrev long_name : List ℕ
long_name = 34 ∷ replicate 47 0

overruns : read_entries 48 long_name ≡ overrun
unfolding read_entries
overruns = refl
