-- ===== src/BssList.antt =====
-- The list of scan results as it travels from the kernel to the control program: written by
-- `cmdGetBSSList` of src/kext/RTW88IEEE80211.cpp, read by `cmd_list` of ctl/main.c.
pub mod Round
mod Tests
use airport_rtw.Base.{
  ℕ, zero, suc, ◌+◌, ◌-◌, ◌*◌, ◌/◌, ◌%◌, ◌^◌, min, Bool, true, false, not, ◌||◌, Option, none, some,
  List, [], ◌∷◌, ◌++◌, ltb, leb, ◌==◌, if◌then◌else◌, length, take, drop, get_or,
}
use airport_rtw.Frames.{Mac, mac_bytes}

-- The fields of `struct RTW88BSS` that are written: `ssid` holds the `ssid_len` bytes, `rssi` the
-- 16 bits of the signed number.
pub record Bss : Type 0 where
  pub ssid : List ℕ
  pub bssid : Mac
  pub rssi : ℕ
  pub channel : ℕ
  pub cipher : ℕ

-- `memcpy` of a `uint32_t`, little-endian, and back.
abbrev pub le32_bytes : ℕ → List ℕ
le32_bytes n = n % 256 ∷ n / 2 ^ 8 % 256 ∷ n / 2 ^ 16 % 256 ∷ n / 2 ^ 24 % 256 ∷ []

abbrev pub read_le32 : List ℕ → ℕ
read_le32 p = get_or p 0 0 + get_or p 1 0 * 2 ^ 8 + get_or p 2 0 * 2 ^ 16 + get_or p 3 0 * 2 ^ 24

unfoldable pub entry_bytes : Bss → List ℕ
entry_bytes b =
    length b.ssid
    ∷ (b.ssid
        ++ (mac_bytes b.bssid
            ++ (b.rssi / 2 ^ 8 % 256 ∷ b.rssi % 256 ∷ b.channel ∷ le32_bytes b.cipher)))

abbrev pub entry_size : Bss → ℕ
entry_size b = 1 + length b.ssid + 6 + 2 + 1 + 4

-- The loop over the list: an entry that does not fit ends it.
unfoldable pub write_entries : (max written : ℕ) → List Bss → List ℕ
unfolding entry_bytes
write_entries max written [] = []
write_entries max written (b ∷ bs) =
    let rest = write_entries max (written + entry_size b) bs in
    if ltb max (written + entry_size b) then [] else entry_bytes b ++ rest

-- `cmdGetBSSList` with its pointers set: the bytes written, whose number goes to `*len`.
unfoldable pub get_bss_list : (len : ℕ) → List Bss → List ℕ
unfolding write_entries
get_bss_list len bs =
    let max = if ltb 4095 len then 4095 else len in
    if ltb max 4
    then []
    else let body = write_entries max 4 bs in le32_bytes (4 + length body) ++ body

-- What `cmd_list` makes of the bytes. `overrun` is a copy of more than 33 bytes into `ssid`.
pub data Listing : Type 0 where
  listed : List Bss → Listing
  overrun : Listing

abbrev pub prepend : Bss → Listing → Listing
prepend b (listed bs) = listed (b ∷ bs)
prepend b overrun = overrun

abbrev pub read_mac : List ℕ → Mac
read_mac p = record {
  b0 = get_or p 0 0;
  b1 = get_or p 1 0;
  b2 = get_or p 2 0;
  b3 = get_or p 3 0;
  b4 = get_or p 4 0;
  b5 = get_or p 5 0;
}

-- The fields behind the name, of 13 bytes.
abbrev pub read_entry : List ℕ → List ℕ → Bss
read_entry ssid p = record {
  ssid = ssid;
  bssid = read_mac p;
  rssi = get_or p 6 0 * 2 ^ 8 + get_or p 7 0;
  channel = get_or p 8 0;
  cipher = read_le32 (drop 9 p);
}

-- The loop of `cmd_list` over the bytes from `p` to `end`. A round takes 14 bytes or more, so as
-- much fuel as there are bytes is enough.
unfoldable pub read_entries : ℕ → List ℕ → Listing
read_entries zero p = listed []
read_entries (suc fuel) [] = listed []
read_entries (suc fuel) (ssid_len ∷ p) =
    let rest = read_entries fuel (drop (ssid_len + 13) p) in
    if ltb (length p) (ssid_len + 6 + 2 + 1 + 4)
    then listed []
    else if ltb 33 ssid_len
    then overrun
    else prepend (read_entry (take ssid_len p) (drop ssid_len p)) rest

-- `explicit_len`, no more than what was copied back.
abbrev pub explicit_len : List ℕ → ℕ
explicit_len buf =
    if ltb (length buf) 4
    then 0
    else if ltb (length buf) (read_le32 buf)
    then length buf
    else read_le32 buf

unfoldable pub read_list : List ℕ → Listing
unfolding read_entries
read_list buf =
    let end = explicit_len buf in
    read_entries (length buf) (drop (if ltb (length buf) 4 then 0 else 4) (take end buf))

-- The name that is printed for a cipher.
pub data Security : Type 0 where
  wpa2 tkip open_network unknown : Security

unfoldable pub security : ℕ → Security
security cipher =
    if cipher == 0x000FAC04
    then wpa2
    else if cipher == 0x000FAC02
    then tkip
    else if cipher == 0
    then open_network
    else unknown
