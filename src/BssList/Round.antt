-- ===== src/BssList/Round.antt =====
-- From the kernel's writer, `cmdGetBSSList`, to the control program's reader, `cmd_list`.
use airport_rtw.Base.{
  ℕ, zero, suc, ◌+◌, ◌/◌, ◌%◌, ◌^◌, ◌<◌, ◌≤◌, ◌≡◌, refl, ap, ap₂, ◌∙◌, Bool, true, false, List, [],
  ◌∷◌, ◌++◌, append_assoc, arith, ltb, if◌then◌else◌, min, length, length-append, take, drop,
  take-all,
}
use airport_rtw.Frames.{mac_bytes}
use airport_rtw.BssList.{
  Bss, le32_bytes, entry_bytes, entry_size, write_entries, get_bss_list, listed, prepend,
  read_entry, read_entries, explicit_len, read_list,
}

-- A name of 802.11 length, and numbers of their widths.
pub record IsWellFormed (b : Bss) : Type 0 where
  pub short : length b.ssid ≤ 32
  pub rssi_in : b.rssi < 2 ^ 16
  pub cipher_in : b.cipher < 2 ^ 32

abbrev pub AllWellFormed : List Bss → Type 0
AllWellFormed [] = Unit
AllWellFormed (b ∷ bs) = IsWellFormed b × AllWellFormed bs

-- The entries that fit: as many from the front as there is room for.
pub fitting : (max written : ℕ) → List Bss → List Bss
fitting max written [] = []
fitting max written (b ∷ bs) =
    let rest = fitting max (written + entry_size b) bs in
    if ltb max (written + entry_size b) then [] else b ∷ rest

take-append : (xs ys : List ℕ) → take (length xs) (xs ++ ys) ≡ xs
take-append [] ys = refl
take-append (x ∷ xs) ys = ap (λ t. x ∷ t) (take-append xs ys)

drop-append : (xs ys : List ℕ) → drop (length xs) (xs ++ ys) ≡ ys
drop-append [] ys = refl
drop-append (x ∷ xs) ys = drop-append xs ys

drop-append_add : (n : ℕ) (xs ys : List ℕ) → drop (length xs + n) (xs ++ ys) ≡ drop n ys
drop-append_add n [] ys = ap (λ k. drop k ys) {x = 0 + n} (omega arith)
drop-append_add n (x ∷ xs) ys =
    ap (λ k. drop k (x ∷ (xs ++ ys))) {x = suc (length xs) + n} {y = suc (length xs + n)}
      (omega arith)
    ∙ drop-append_add n xs ys

-- The 13 bytes behind the name.
abbrev tail_bytes : Bss → List ℕ
tail_bytes b =
    mac_bytes b.bssid ++ (b.rssi / 2 ^ 8 % 256 ∷ b.rssi % 256 ∷ b.channel ∷ le32_bytes b.cipher)

read_entry-tail :
    (b : Bss) (rest : List ℕ) → IsWellFormed b → read_entry b.ssid (tail_bytes b ++ rest) ≡ b
read_entry-tail b rest v = ground arith

read_entries-fits :
    (fuel n : ℕ) (p : List ℕ)
    → n + 13 ≤ length p
    → n ≤ 33
    → read_entries (suc fuel) (n ∷ p)
      ≡ prepend (read_entry (take n p) (drop n p)) (read_entries fuel (drop (n + 13) p))
unfolding read_entries
read_entries-fits fuel n p h g = ground arith

length-tail : (b : Bss) (rest : List ℕ) → length (tail_bytes b ++ rest) ≡ 13 + length rest
length-tail b rest = omega arith

entry_bytes-append :
    (b : Bss) (rest : List ℕ)
    → entry_bytes b ++ rest ≡ length b.ssid ∷ (b.ssid ++ (tail_bytes b ++ rest))
unfolding entry_bytes
entry_bytes-append b rest = ap (λ t. length b.ssid ∷ t) (append_assoc b.ssid (tail_bytes b) rest)

read_entries-cons :
    (fuel : ℕ) (b : Bss) (rest : List ℕ)
    → IsWellFormed b
    → read_entries (suc fuel) (entry_bytes b ++ rest) ≡ prepend b (read_entries fuel rest)
read_entries-cons fuel b rest v =
    let p : List ℕ = b.ssid ++ (tail_bytes b ++ rest) in
    ap (read_entries (suc fuel)) (entry_bytes-append b rest)
    ∙ read_entries-fits fuel (length b.ssid) p
        (omega (arith, length-append b.ssid (tail_bytes b ++ rest), length-tail b rest))
        (omega (arith, v.short))
    ∙ ap₂ prepend
        (ap₂ read_entry (take-append b.ssid (tail_bytes b ++ rest))
            (drop-append b.ssid (tail_bytes b ++ rest))
          ∙ read_entry-tail b rest v)
        (ap (read_entries fuel) (drop-append_add 13 b.ssid (tail_bytes b ++ rest)))

read_entries-nil : (fuel : ℕ) → read_entries fuel [] ≡ listed []
unfolding read_entries
read_entries-nil zero = refl
read_entries-nil (suc fuel) = refl

length-entry_bytes : (b : Bss) → length (entry_bytes b) ≡ entry_size b
unfolding entry_bytes
length-entry_bytes b = omega (arith, length-append b.ssid (tail_bytes b))

write_entries-in :
    (max written : ℕ) (bs : List Bss)
    → written ≤ max
    → written + length (write_entries max written bs) ≤ max
unfolding write_entries
write_entries-in max written [] h = omega arith
write_entries-in max written (b ∷ bs) h =
    let rest : List ℕ = write_entries max (written + entry_size b) bs in
    grind (
      arith,
      write_entries-in max (written + entry_size b) bs,
      length-entry_bytes b,
      length-append (entry_bytes b) rest,
    )

if-round :
    (c : Bool) (fuel : ℕ) (xs : List ℕ) (bs : List Bss)
    → (length xs ≤ fuel → read_entries fuel xs ≡ listed bs)
    → length (if c then [] else xs) ≤ fuel
    → read_entries fuel (if c then [] else xs) ≡ listed (if c then [] else bs)
if-round true fuel xs bs e h = read_entries-nil fuel
if-round false fuel xs bs e h = e h

-- Bytes of an entry leave fuel for a round of the loop.
cons_round :
    (fuel : ℕ) (b : Bss) (xs : List ℕ) (bs : List Bss)
    → IsWellFormed b
    → ((n : ℕ) → length xs ≤ n → read_entries n xs ≡ listed bs)
    → length (entry_bytes b ++ xs) ≤ fuel
    → read_entries fuel (entry_bytes b ++ xs) ≡ listed (b ∷ bs)
cons_round zero b xs bs v e h =
    absurd (omega (arith, length-append (entry_bytes b) xs, length-entry_bytes b))
cons_round (suc fuel) b xs bs v e h =
    read_entries-cons fuel b xs v
    ∙ ap (prepend b)
        (e fuel (omega (arith, h, length-append (entry_bytes b) xs, length-entry_bytes b)))

entries_round :
    (max written : ℕ) (bs : List Bss)
    → AllWellFormed bs
    → (fuel : ℕ) → length (write_entries max written bs) ≤ fuel
    → read_entries fuel (write_entries max written bs) ≡ listed (fitting max written bs)
unfolding write_entries fitting
entries_round max written [] w fuel h = read_entries-nil fuel
entries_round max written (b ∷ bs) (v, w) fuel h =
    let rest : List ℕ = write_entries max (written + entry_size b) bs in
    if-round (ltb max (written + entry_size b)) fuel (entry_bytes b ++ rest)
      (b ∷ fitting max (written + entry_size b) bs)
      (cons_round fuel b rest (fitting max (written + entry_size b) bs) v
        (entries_round max (written + entry_size b) bs w))
      h

explicit_len-framed :
    (xs : List ℕ)
    → length xs < 2 ^ 16
    → explicit_len (le32_bytes (4 + length xs) ++ xs) ≡ suc (suc (suc (suc (length xs))))
explicit_len-framed xs h = ground arith

header_size :
    (xs : List ℕ) → ◌≡◌ {A = ℕ} (if ltb (suc (suc (suc (suc (length xs))))) 4 then 0 else 4) 4
header_size xs = ground arith

-- A list that carries its own length, in a buffer that holds no more.
read_list-framed :
    (xs : List ℕ)
    → length xs < 2 ^ 16
    → read_list (le32_bytes (4 + length xs) ++ xs)
      ≡ read_entries (suc (suc (suc (suc (length xs))))) xs
unfolding read_list
read_list-framed xs h =
    let buf : List ℕ = le32_bytes (4 + length xs) ++ xs in
    ap₂ (λ o e. read_entries (length buf) (drop o (take e buf))) (header_size xs)
      (explicit_len-framed xs h)
    ∙ ap (read_entries (length buf)) (take-all (length xs) xs (omega arith))

list_or_nothing : (max : ℕ) (xs ys : List ℕ) → 4 ≤ max → (if ltb max 4 then xs else ys) ≡ ys
list_or_nothing max xs ys h = ground arith

capped : (len : ℕ) → (if ltb 4095 len then 4095 else len) ≡ min len 4095
capped len = ground arith

framed :
    (len : ℕ) (bs : List Bss)
    → 4 ≤ len
    → get_bss_list len bs
      ≡ le32_bytes (4 + length (write_entries (min len 4095) 4 bs))
        ++ write_entries (min len 4095) 4 bs
unfolding get_bss_list
framed len bs h =
    ap
      (λ max.
        if ltb max 4
        then []
        else le32_bytes (4 + length (write_entries max 4 bs)) ++ write_entries max 4 bs)
      (capped len)
    ∙ list_or_nothing (min len 4095) []
        (le32_bytes (4 + length (write_entries (min len 4095) 4 bs))
          ++ write_entries (min len 4095) 4 bs)
        (omega arith)

-- The scan results that fit a buffer of 4 to 4095 bytes (a larger one is used to 4095) are read
-- by the control program as the kernel had them, in their order: names up to 32 bytes, addresses,
-- signal, channel and cipher. The loop ends at the first entry that does not fit.
pub bss_list_round :
    (len : ℕ) (bs : List Bss)
    → 4 ≤ len
    → AllWellFormed bs
    → read_list (get_bss_list len bs) ≡ listed (fitting (min len 4095) 4 bs)
bss_list_round len bs h w =
    let max : ℕ = min len 4095 in
    let body : List ℕ = write_entries max 4 bs in
    ap read_list (framed len bs h)
    ∙ read_list-framed body (omega (arith, write_entries-in max 4 bs (omega arith)))
    ∙ entries_round max 4 bs w (suc (suc (suc (suc (length body))))) (omega arith)
