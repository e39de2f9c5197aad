-- ===== src/Frames/Control.antt =====
-- The frame control tests of src/compat/net/mac80211.h.
use Prim.Native.Nat.{bit_and, bit_or}
use airport_rtw.Base.{
  ℕ, ◌+◌, ◌*◌, ◌%◌, ◌≡◌, refl, ◌∙◌, Bool, true, false, not, ◌&&◌, ◌||◌, List, arith, ◌==◌,
  if◌then◌else◌, length, get_or,
}
use airport_rtw.Bits.Laws.{bit_and-byte}
use airport_rtw.Bits.Table.{holds_from, table_entry}
use airport_rtw.Frames.{Vif}
use airport_rtw.Frames.Built.{nullfunc_frame}

unfoldable pub is_mgmt : ℕ → Bool
is_mgmt fc = bit_and fc 0x0c == 0

unfoldable pub is_data : ℕ → Bool
is_data fc = bit_and fc 0x0c == 8

pub is_ctl : ℕ → Bool
is_ctl fc = bit_and fc 0x0c == 4

unfoldable pub has_tods : ℕ → Bool
has_tods fc = not (bit_and fc 0x0100 == 0)

unfoldable pub has_fromds : ℕ → Bool
has_fromds fc = not (bit_and fc 0x0200 == 0)

unfoldable pub has_protected : ℕ → Bool
has_protected fc = not (bit_and fc 0x4000 == 0)

pub has_moredata : ℕ → Bool
has_moredata fc = not (bit_and fc 0x2000 == 0)

pub is_beacon : ℕ → Bool
is_beacon fc = bit_and fc (bit_or 0x0c 0xf0) == bit_or 0 0x80

pub is_probe_resp : ℕ → Bool
is_probe_resp fc = bit_and fc (bit_or 0x0c 0xf0) == bit_or 0 0x50

pub is_action : ℕ → Bool
is_action fc = bit_and fc (bit_or 0x0c 0xf0) == bit_or 0 0xd0

pub is_nullfunc : ℕ → Bool
is_nullfunc fc = bit_and fc (bit_or 0xfc 0x0c) == bit_or 0x48 8

unfoldable pub is_data_qos : ℕ → Bool
is_data_qos fc = bit_and fc (bit_or 0x0c 0x80) == bit_or 8 0x80

-- `ieee80211_get_hdrlen_from_skb`, of the frame control field that it reads.
unfoldable pub get_hdrlen : ℕ → ℕ
get_hdrlen fc =
    let has_a4 = bit_and fc (bit_or 0x0100 0x0200) == bit_or 0x0100 0x0200 in
    let is_qos = not (bit_and fc 0x80 == 0) && bit_and fc 0x0c == 8 in
    24 + (if has_a4 then 6 else 0) + (if is_qos then 2 else 0)

abbrev pub implies : Bool → Bool → Bool
implies a b = not a || b

-- What the tests say together.
abbrev agree : ℕ → Bool
agree fc =
    implies (is_beacon fc) (is_mgmt fc)
    && (implies (is_probe_resp fc) (is_mgmt fc)
        && (implies (is_action fc) (is_mgmt fc)
            && (implies (is_nullfunc fc) (is_data fc && not (is_data_qos fc))
                && (implies (is_data_qos fc) (is_data fc)
                    && not (is_beacon fc && is_probe_resp fc)))))

agree_table : holds_from agree 0 255 ≡ true
unfolding holds_from is_mgmt is_data is_beacon is_probe_resp is_action is_nullfunc is_data_qos
agree_table = refl

agree-low : (fc : ℕ) → agree fc ≡ agree (fc % 256)
unfolding is_mgmt is_data is_beacon is_probe_resp is_action is_nullfunc is_data_qos
agree-low fc = rw (
  bit_and-byte fc 0x0c (omega arith),
  bit_and-byte fc 0xfc (omega arith),
  bit_and-byte fc 0x8c (omega arith),
)

exclusive_mgmt : (fc : ℕ) → is_mgmt fc ≡ true → (is_data fc ≡ false) × (is_ctl fc ≡ false)
unfolding is_mgmt is_data is_ctl
exclusive_mgmt fc e = ground arith

exclusive_data : (fc : ℕ) → is_data fc ≡ true → is_ctl fc ≡ false
unfolding is_data is_ctl
exclusive_data fc e = ground arith

-- Of any frame control field: a beacon, a probe response and an action frame are management
-- frames, a Null Function frame is a data frame without QoS, a QoS data frame is a data frame, and
-- no frame is of two of the three types.
pub types_agree :
    (fc : ℕ)
    → (is_beacon fc ≡ true → is_mgmt fc ≡ true)
      × (is_probe_resp fc ≡ true → is_mgmt fc ≡ true)
      × (is_action fc ≡ true → is_mgmt fc ≡ true)
      × (is_nullfunc fc ≡ true → (is_data fc ≡ true) × (is_data_qos fc ≡ false))
      × (is_data_qos fc ≡ true → is_data fc ≡ true)
      × (is_mgmt fc ≡ true → (is_data fc ≡ false) × (is_ctl fc ≡ false))
      × (is_data fc ≡ true → is_ctl fc ≡ false)
types_agree fc =
    let h =
      agree-low fc ∙ table_entry agree 0 255 (fc % 256) agree_table (omega arith) (omega arith) in
    (
      λ e. ground arith,
      λ e. ground arith,
      λ e. ground arith,
      λ e. ground arith,
      λ e. ground arith,
      λ e. exclusive_mgmt fc e,
      λ e. exclusive_data fc e,
    )

abbrev frame_control : List ℕ → ℕ
frame_control frame = get_or frame 0 0 + 256 * get_or frame 1 0

-- The Null Function frame that is built is read back as what it is: a data frame to the access
-- point, with QoS as asked, whose header is the whole frame.
pub nullfunc_read_back :
    (vif : Vif) (qos_ok : Bool)
    → let fc = frame_control (nullfunc_frame vif qos_ok) in
      (is_data fc ≡ true)
      × (is_nullfunc fc ≡ not qos_ok)
      × (is_data_qos fc ≡ qos_ok)
      × (has_tods fc ≡ true)
      × (has_fromds fc ≡ false)
      × (has_protected fc ≡ false)
      × (get_hdrlen fc ≡ length (nullfunc_frame vif qos_ok))
unfolding nullfunc_frame is_data is_nullfunc is_data_qos has_tods has_fromds has_protected
    get_hdrlen
nullfunc_read_back vif false = (refl, refl, refl, refl, refl, refl, refl)
nullfunc_read_back vif true = (refl, refl, refl, refl, refl, refl, refl)
