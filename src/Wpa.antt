-- ===== src/Wpa.antt =====
-- The WPA2 arithmetic of src/kext/RTW88IEEE80211.cpp: keys from a passphrase and from nonces, the
-- key wrapping of RFC 3394, the integrity code of an EAPOL-Key frame and the key data in it. Bytes
-- are numbers below 256. HMAC-SHA1 and the AES block cipher are the record Cipher.
pub mod Xor
pub mod Unwrap
pub mod Ptk
pub mod Frame
pub mod Kde
pub mod Rsn
mod Tests
use Prim.Native.Nat.{bit_and, bit_or, bit_xor}
use airport_rtw.Base.{
  ℕ, zero, suc, ◌+◌, ◌-◌, ◌*◌, ◌/◌, ◌%◌, ◌^◌, Bool, true, false, not, ◌&&◌, ◌||◌, Option, none,
  some, List, [], ◌∷◌, ◌++◌, ltb, leb, ◌==◌, if◌then◌else◌, length, take, drop, get_or, replicate,
}

-- `kern_hmac_sha1` gives 20 bytes, `aes128_decrypt_block` takes and gives 16.
pub record Cipher : Type 0 where
  pub hmac_sha1 : (key text : List ℕ) → List ℕ
  pub aes128_decrypt_block : (key block : List ℕ) → List ℕ

-- `^=` byte by byte.
unfoldable pub xor_bytes : List ℕ → List ℕ → List ℕ
xor_bytes [] ys = []
xor_bytes (x ∷ xs) [] = x ∷ xs
xor_bytes (x ∷ xs) (y ∷ ys) = bit_xor x y ∷ xor_bytes xs ys

abbrev pub same_bytes : List ℕ → List ℕ → Bool
same_bytes [] [] = true
same_bytes [] (y ∷ ys) = false
same_bytes (x ∷ xs) [] = false
same_bytes (x ∷ xs) (y ∷ ys) = (x == y) && same_bytes xs ys

-- `memcmp(x, y, n) < 0`, for as many bytes on both sides.
unfoldable pub before : List ℕ → List ℕ → Bool
before [] ys = false
before (x ∷ xs) [] = false
before (x ∷ xs) (y ∷ ys) = let rest = before xs ys in if x == y then rest else ltb x y

-- A big-endian number of four and of eight bytes.
abbrev pub be32 : ℕ → List ℕ
be32 n = n / 2 ^ 24 % 256 ∷ n / 2 ^ 16 % 256 ∷ n / 2 ^ 8 % 256 ∷ n % 256 ∷ []

abbrev pub be64 : ℕ → List ℕ
be64 n = be32 (n / 2 ^ 32) ++ be32 n

-- The loop over the iterations of PBKDF2, of which `more` are left.
unfoldable pub stretch : (more : ℕ) → Cipher → (passphrase u t : List ℕ) → List ℕ
unfolding xor_bytes
stretch zero c passphrase u t = t
stretch (suc more) c passphrase u t =
    let next = c.hmac_sha1 passphrase u in stretch more c passphrase next (xor_bytes t next)

unfoldable pub pmk_block : Cipher → (passphrase ssid : List ℕ) → (block : ℕ) → List ℕ
unfolding stretch
pmk_block c passphrase ssid block =
    let u = c.hmac_sha1 passphrase (take 120 ssid ++ be32 block) in stretch 4095 c passphrase u u

-- `derivePMK`
unfoldable pub derive_pmk : Cipher → (passphrase ssid : List ℕ) → List ℕ
unfolding pmk_block
derive_pmk c passphrase ssid =
    take 20 (pmk_block c passphrase ssid 1) ++ take 12 (pmk_block c passphrase ssid 2)

abbrev pub lower : List ℕ → List ℕ → List ℕ
lower x y = if before x y then x else y

abbrev pub upper : List ℕ → List ℕ → List ℕ
upper x y = if before x y then y else x

-- "Pairwise key expansion" and the NUL behind it.
abbrev pub label : List ℕ
label =
    0x50 ∷ 0x61 ∷ 0x69 ∷ 0x72 ∷ 0x77 ∷ 0x69 ∷ 0x73 ∷ 0x65 ∷ 0x20 ∷ 0x6b ∷ 0x65 ∷ 0x79 ∷ 0x20 ∷ 0x65
    ∷ 0x78 ∷ 0x70 ∷ 0x61 ∷ 0x6e ∷ 0x73 ∷ 0x69 ∷ 0x6f ∷ 0x6e ∷ 0 ∷ []

abbrev pub expansion : (anonce snonce spa aa : List ℕ) → List ℕ
expansion anonce snonce spa aa =
    label ++ (lower spa aa ++ (upper spa aa ++ (lower snonce anonce ++ upper snonce anonce)))

abbrev pub ptk_part : Cipher → (pmk seed : List ℕ) → ℕ → List ℕ
ptk_part c pmk seed i = c.hmac_sha1 pmk (seed ++ i ∷ [])

abbrev pub ptk_of : Cipher → (pmk seed : List ℕ) → List ℕ
ptk_of c pmk seed =
    take 20 (ptk_part c pmk seed 0)
    ++ (take 20 (ptk_part c pmk seed 1)
        ++ (take 20 (ptk_part c pmk seed 2) ++ take 4 (ptk_part c pmk seed 3)))

-- `derivePTK`: the key confirmation key, the key encryption key and the temporal key.
unfoldable pub derive_ptk : Cipher → (pmk anonce snonce spa aa : List ℕ) → List ℕ
unfolding before
derive_ptk c pmk anonce snonce spa aa = ptk_of c pmk (expansion anonce snonce spa aa)

-- One step of `aes_unwrap_128`: the register and a word, with the step's number `t`.
abbrev pub unstep : Cipher → (kek : List ℕ) → (t : ℕ) → (a r : List ℕ) → List ℕ × List ℕ
unstep c kek t a r =
    let plain = c.aes128_decrypt_block kek (xor_bytes a (be64 t) ++ r) in
    (take 8 plain, drop 8 plain)

-- Its inner loop: from the last word to the first one, whose number is `t`.
unfoldable pub unpass :
    Cipher → (kek : List ℕ) → (t : ℕ) → (a : List ℕ) → List (List ℕ) → List ℕ × List (List ℕ)
unpass c kek t a [] = (a, [])
unpass c kek t a (r ∷ rs) =
    let (a1, rest) = unpass c kek (t + 1) a rs in
    let (a2, word) = unstep c kek t a1 r in (a2, word ∷ rest)

-- Its outer loop, from `more - 1` down to 0.
unfoldable pub unwrap_rounds :
    (more : ℕ) → Cipher → (kek a : List ℕ) → List (List ℕ) → List ℕ × List (List ℕ)
unfolding unpass
unwrap_rounds zero c kek a rs = (a, rs)
unwrap_rounds (suc more) c kek a rs =
    let (a1, words) = unpass c kek (length rs * more + 1) a rs in unwrap_rounds more c kek a1 words

-- The words of eight bytes, and their bytes in a row.
abbrev pub words : (n : ℕ) → List ℕ → List (List ℕ)
words zero p = []
words (suc n) p = take 8 p ∷ words n (drop 8 p)

abbrev pub joined : List (List ℕ) → List ℕ
joined [] = []
joined (r ∷ rs) = r ++ joined rs

abbrev pub wrap_iv : List ℕ
wrap_iv = replicate 8 0xa6

-- `aes_unwrap_128`
unfoldable pub aes_unwrap_128 : Cipher → (kek input : List ℕ) → Option (List ℕ)
unfolding unwrap_rounds
aes_unwrap_128 c kek input =
    let n = length input / 8 - 1 in
    if ltb (length input) 16 || not (bit_and (length input) 7 == 0)
    then none
    else if n == 0 || ltb 32 n
    then none
    else let (a, rs) = unwrap_rounds 6 c kek (take 8 input) (words n (drop 8 input)) in
      if same_bytes a wrap_iv then some (joined rs) else none

-- `eapol_mic_ok`. `granted` says whether its copy can be allocated.
unfoldable pub eapol_mic_ok : Cipher → (granted : Bool) → (kck eapol : List ℕ) → Bool
eapol_mic_ok c granted kck eapol =
    if ltb (length eapol) 99 || not granted
    then false
    else same_bytes (take 16 (drop 81 eapol))
        (take 16 (c.hmac_sha1 kck (take 81 eapol ++ (replicate 16 0 ++ drop 97 eapol))))

-- The group key in the key data of message 3: its index and its bytes.
pub record Gtk : Type 0 where
  pub idx : ℕ
  pub bytes : List ℕ

abbrev pub is_gtk : (id len : ℕ) → (body : List ℕ) → Bool
is_gtk id len body =
    (id == 0xdd) && (leb 6 len && same_bytes (take 4 body) (0x00 ∷ 0x0f ∷ 0xac ∷ 0x01 ∷ []))

-- `extract_gtk_from_kde`, on the bytes from `pos` on. Each round takes two bytes at least, so as
-- much fuel as there are bytes is enough.
unfoldable pub find_gtk : (fuel : ℕ) → List ℕ → Option Gtk
find_gtk zero p = none
find_gtk (suc fuel) p =
    let id = get_or p 0 0 in
    let len = get_or p 1 0 in
    let body = drop 2 p in
    let rest = find_gtk fuel (drop len body) in
    if ltb (length p) 2
    then none
    else if ltb (length p) (2 + len)
    then none
    else if is_gtk id len body
    then (if ltb 32 (len - 6)
        then none
        else some
            (record { idx = bit_and (get_or body 4 0) 0x3; bytes = take (len - 6) (drop 6 body) }))
    else rest

unfoldable pub extract_gtk_from_kde : List ℕ → Option Gtk
unfolding find_gtk
extract_gtk_from_kde key_data = find_gtk (length key_data) key_data

abbrev pub ccmp : ℕ
ccmp = 0x000FAC04

abbrev pub tkip : ℕ
tkip = 0x000FAC02

-- The AKM suite 00-0F-AC:2, a pre-shared key.
abbrev pub psk : ℕ
psk = 0x000FAC02

-- `rtw88ReadSuite`; `rtw88WriteSuite` is `be32`.
abbrev pub read_suite : List ℕ → ℕ
read_suite p = get_or p 0 0 * 2 ^ 24 + get_or p 1 0 * 2 ^ 16 + get_or p 2 0 * 2 ^ 8 + get_or p 3 0

-- The loops over the suites: is `suite` one of the next `count`?
unfoldable pub has_suite : (suite count : ℕ) → List ℕ → Bool
has_suite suite zero p = false
has_suite suite (suc count) p =
    let rest = has_suite suite count (drop 4 p) in (read_suite p == suite) || rest

abbrev pub le16 : List ℕ → ℕ
le16 p = get_or p 0 0 + get_or p 1 0 * 2 ^ 8

-- A list of suites behind its count: whether `suite` is in it, and what follows it. `none` where
-- the bytes end too early.
abbrev pub suites : (suite : ℕ) → List ℕ → Option (Bool × List ℕ)
unfolding has_suite
suites suite p =
    if ltb (length p) 2
    then none
    else if ltb (length (drop 2 p) / 4) (le16 p)
    then none
    else some (has_suite suite (le16 p) (drop 2 p), drop (4 * le16 p) (drop 2 p))

-- What `rtw88RsnSelectCcmpPsk` makes of the answers: the pairwise and the group cipher.
abbrev pub selected : (has_ccmp has_psk : Bool) → (group : ℕ) → Option (ℕ × ℕ)
selected has_ccmp has_psk group =
    if not has_ccmp || not has_psk
    then none
    else if not (group == ccmp) && not (group == tkip)
    then none
    else some (ccmp, group)

unfoldable pub rsn_select_ccmp_psk : List ℕ → Option (ℕ × ℕ)
unfolding suites
rsn_select_ccmp_psk rsn =
    if ltb (length rsn) 8
    then none
    else if not (get_or rsn 0 0 == 1) || not (get_or rsn 1 0 == 0)
    then none
    else elim (suites ccmp (drop 6 rsn)) [
      | none ↦ none
      | some (has_ccmp, p) ↦ elim (suites psk p) [
        | none ↦ none
        | some (has_psk, q) ↦ selected has_ccmp has_psk (read_suite (drop 2 rsn))
      ]
    ]

abbrev pub group_suite : ℕ → ℕ
group_suite group_cipher = if group_cipher == tkip then tkip else ccmp

-- `rtw88BuildSelectedRsnIe`
unfoldable pub build_selected_rsn_ie : (group_cipher : ℕ) → List ℕ
build_selected_rsn_ie group_cipher =
    48
    ∷ 20
    ∷ 1
    ∷ 0
    ∷ (be32 (group_suite group_cipher)
        ++ (1 ∷ 0 ∷ (be32 ccmp ++ (1 ∷ 0 ∷ (be32 psk ++ (0 ∷ 0 ∷ []))))))

-- The bits of the key information that `sendEAPOLKey` sets.
abbrev pub key_info : (step : ℕ) → (install ack mic : Bool) → ℕ
key_info step install ack mic =
    0x000A
    + (if mic then 0x0100 else 0)
    + (if install then 0x0040 else 0)
    + (if ack then 0x0080 else 0)
    + (if step == 4 then 0x0200 else 0)

abbrev pub key_data_of : (step group_cipher : ℕ) → List ℕ
unfolding build_selected_rsn_ie
key_data_of step group_cipher =
    if step == 2
    then (if ltb 498 (99 + length (build_selected_rsn_ie group_cipher))
        then []
        else build_selected_rsn_ie group_cipher)
    else []

-- The EAPOL frame before its integrity code, of 81 bytes, and behind it.
unfoldable pub eapol_head : (info data_len : ℕ) → (replay snonce : List ℕ) → List ℕ
eapol_head info data_len replay snonce =
    2
    ∷ 3
    ∷ (95 + data_len) / 256
    ∷ (95 + data_len) % 256
    ∷ 2
    ∷ info / 256
    ∷ info % 256
    ∷ 0
    ∷ 16
    ∷ (replay ++ (snonce ++ replicate 32 0))

abbrev pub eapol_tail : List ℕ → List ℕ
eapol_tail key_data = length key_data / 256 ∷ length key_data % 256 ∷ key_data

abbrev pub eapol_with : (code head key_data : List ℕ) → List ℕ
eapol_with code head key_data = head ++ (code ++ eapol_tail key_data)

-- The frame that `sendEAPOLKey` hands to `txDataFrame`, Ethernet header first.
unfoldable pub eapol_key_frame :
    Cipher
    → (step : ℕ) → (install ack mic : Bool) → (replay snonce kck bssid mac : List ℕ)
    → (group_cipher : ℕ) → List ℕ
unfolding eapol_head
eapol_key_frame c step install ack mic replay snonce kck bssid mac group_cipher =
    let key_data = key_data_of step group_cipher in
    let head = eapol_head (key_info step install ack mic) (length key_data) replay snonce in
    let code = take 16 (c.hmac_sha1 kck (eapol_with (replicate 16 0) head key_data)) in
    (bssid ++ (mac ++ (0x88 ∷ 0x8e ∷ [])))
    ++ eapol_with (if mic then code else replicate 16 0) head key_data
