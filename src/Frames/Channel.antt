-- ===== src/Frames/Channel.antt =====
-- Channel numbers and frequencies, of src/compat/rtw88_compat.c.
use airport_rtw.Base.{ℕ, ◌+◌, ◌-◌, ◌*◌, ◌/◌, ◌≤◌, ◌<◌, ◌≡◌, ◌&&◌, arith, leb, if◌then◌else◌}

pub data Band : Type 0 where
  ghz2 ghz5 ghz60 : Band

pub freq_to_channel : ℕ → ℕ
freq_to_channel freq =
    if leb 2412 freq && leb freq 2484
    then (freq - 2407) / 5
    else if leb 5180 freq && leb freq 5825
    then (freq - 5000) / 5
    else 0

pub channel_to_frequency : ℕ → Band → ℕ
channel_to_frequency chan ghz2 = 2407 + chan * 5
channel_to_frequency chan ghz5 = 5000 + chan * 5
channel_to_frequency chan ghz60 = 5000 + chan * 5

-- A channel number goes through its frequency and comes back: from 1 to 15 in the 2.4 GHz band
-- (15 is what 2484 MHz is read as), from 36 to 165 in the 5 GHz band. A frequency of a band is that
-- of its channel or up to 4 MHz above it; one outside both bands has channel 0.
pub channel_round :
    (chan freq : ℕ)
    → (1 ≤ chan → chan ≤ 15 → freq_to_channel (channel_to_frequency chan ghz2) ≡ chan)
      × (36 ≤ chan → chan ≤ 165 → freq_to_channel (channel_to_frequency chan ghz5) ≡ chan)
      × (2412 ≤ freq
          → freq ≤ 2484
          → (channel_to_frequency (freq_to_channel freq) ghz2 ≤ freq)
            × (freq ≤ channel_to_frequency (freq_to_channel freq) ghz2 + 4))
      × (5180 ≤ freq
          → freq ≤ 5825
          → (channel_to_frequency (freq_to_channel freq) ghz5 ≤ freq)
            × (freq ≤ channel_to_frequency (freq_to_channel freq) ghz5 + 4))
      × (freq < 2412 → freq_to_channel freq ≡ 0)
      × (2484 < freq → freq < 5180 → freq_to_channel freq ≡ 0)
      × (5825 < freq → freq_to_channel freq ≡ 0)
unfolding freq_to_channel channel_to_frequency
channel_round chan freq = (
  λ a b. ground arith,
  λ a b. ground arith,
  λ a b. ground arith,
  λ a b. ground arith,
  λ a. ground arith,
  λ a b. ground arith,
  λ a. ground arith,
)
