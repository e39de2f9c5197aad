-- ===== src/Wpa/Kde.antt =====
-- The group key among the key data elements of message 3.
use airport_rtw.Base.{
  ℕ, zero, suc, ◌+◌, ◌-◌, ◌≤◌, ◌<◌, ◌≡◌, refl, ap, ◌∙◌, arith, List, [], ◌∷◌, ◌++◌, length, take,
  drop, get_or, Bool, true, false, none, some, length-append, append_assoc, ◌==◌, ltb, leb, ◌&&◌,
  if◌then◌else◌, Bool-cases, inl, inr,
}
use Prim.Native.Nat.{bit_and}
use airport_rtw.Wpa.{is_gtk, find_gtk, extract_gtk_from_kde, same_bytes}
use airport_rtw.Wpa.Unwrap.{take-append, drop-append}

-- An element: its identifier, and its body behind the length.
pub record Kde : Type 0 where
  pub id : ℕ
  pub body : List ℕ

abbrev pub kde_bytes : Kde → List ℕ
kde_bytes k = k.id ∷ length k.body ∷ k.body

abbrev pub all_bytes : List Kde → List ℕ
all_bytes [] = []
all_bytes (k ∷ ks) = kde_bytes k ++ all_bytes ks

-- Not a group key.
abbrev pub Others : List Kde → Type 0
Others [] = Unit
Others (k ∷ ks) = (is_gtk k.id (length k.body) k.body ≡ false) × Others ks

-- The element of a group key: the OUI and type, the index, a reserved byte, the key.
abbrev pub gtk_kde : (idx : ℕ) → (key : List ℕ) → Kde
gtk_kde idx key = record { id = 0xdd; body = 0x00 ∷ 0x0f ∷ 0xac ∷ 0x01 ∷ idx ∷ 0 ∷ key }

take-inside : (n : ℕ) (xs ys : List ℕ) → n ≤ length xs → take n (xs ++ ys) ≡ take n xs
take-inside zero xs ys h = refl
take-inside (suc n) [] ys h = absurd (omega (arith, h))
take-inside (suc n) (x ∷ xs) ys h = ap (λ t. x ∷ t) (take-inside n xs ys (omega (arith, h)))

is_gtk-append :
    (id : ℕ) (body rest : List ℕ)
    → is_gtk id (length body) (body ++ rest) ≡ is_gtk id (length body) body
is_gtk-append id body rest = elim (Bool-cases (leb 6 (length body))) [
  | inl long ↦
      ap
        (λ t.
          (id == 0xdd) && (leb 6 (length body) && same_bytes t (0x00 ∷ 0x0f ∷ 0xac ∷ 0x01 ∷ [])))
        (take-inside 4 body rest (ground arith))
  | inr short ↦ rw short refl
]

-- One round of the loop, at an element that the bytes hold whole.
find_gtk-round :
    (fuel id len : ℕ) (body : List ℕ) (b : Bool)
    → len ≤ length body
    → is_gtk id len body ≡ b
    → find_gtk (suc fuel) (id ∷ len ∷ body) ≡ (
        if b
        then (if ltb 32 (len - 6)
            then none
            else some (record {
              idx = bit_and (get_or body 4 0) 0x3;
              bytes = take (len - 6) (drop 6 body);
            }))
        else find_gtk fuel (drop len body))
unfolding find_gtk
find_gtk-round fuel id len body b held e =
    let two : ltb (suc (suc (length body))) 2 ≡ false = ground arith in
    let whole : ltb (suc (suc (length body))) (2 + len) ≡ false = ground arith in
    rw two (rw whole (rw e refl))

find_gtk-found :
    (fuel idx : ℕ) (key rest : List ℕ)
    → length key ≤ 32
    → find_gtk (suc fuel) (kde_bytes (gtk_kde idx key) ++ rest)
      ≡ some (record { idx = bit_and idx 0x3; bytes = key })
find_gtk-found fuel idx key rest short =
    let len : ℕ = length (gtk_kde idx key).body in
    let small : ltb 32 (len - 6) ≡ false = ground arith in
    let six : leb 6 len ≡ true = ground arith in
    find_gtk-round fuel 0xdd len (0x00 ∷ 0x0f ∷ 0xac ∷ 0x01 ∷ idx ∷ 0 ∷ (key ++ rest)) true
      (omega (arith, length-append key rest)) (rw six refl)
    ∙ rw small (
        ap (λ k. some (record { idx = bit_and idx 0x3; bytes = k }))
          (take-append key rest (len - 6) (omega arith)))

find_gtk-skip :
    (fuel : ℕ) (k : Kde) (rest : List ℕ)
    → is_gtk k.id (length k.body) k.body ≡ false
    → find_gtk (suc fuel) (kde_bytes k ++ rest) ≡ find_gtk fuel rest
find_gtk-skip fuel k rest other =
    find_gtk-round fuel k.id (length k.body) (k.body ++ rest) false
      (omega (arith, length-append k.body rest)) (is_gtk-append k.id k.body rest ∙ other)
    ∙ ap (find_gtk fuel) (drop-append k.body rest (length k.body) refl)

find_gtk-all :
    (ks : List Kde) (fuel idx : ℕ) (key rest : List ℕ)
    → Others ks
    → length key ≤ 32
    → length ks < fuel
    → find_gtk fuel (all_bytes ks ++ (kde_bytes (gtk_kde idx key) ++ rest))
      ≡ some (record { idx = bit_and idx 0x3; bytes = key })
find_gtk-all ks zero idx key rest others short enough = absurd (omega (arith, enough))
find_gtk-all [] (suc fuel) idx key rest others short enough = find_gtk-found fuel idx key rest short
find_gtk-all (k ∷ ks) (suc fuel) idx key rest (other, others) short enough =
    let more : List ℕ = kde_bytes (gtk_kde idx key) ++ rest in
    ap (find_gtk (suc fuel)) (append_assoc (kde_bytes k) (all_bytes ks) more)
    ∙ find_gtk-skip fuel k (all_bytes ks ++ more) other
    ∙ find_gtk-all ks fuel idx key rest others short (omega (arith, enough))

length-all_bytes : (ks : List Kde) → length ks ≤ length (all_bytes ks)
length-all_bytes [] = omega arith
length-all_bytes (k ∷ ks) =
    omega (arith, length-all_bytes ks, length-append (k.body) (all_bytes ks))

-- A group key of at most 32 bytes is found behind any elements that are none, whatever follows
-- it, with the two low bits of its index.
pub extract-gtk_kde :
    (ks : List Kde) (idx : ℕ) (key rest : List ℕ)
    → Others ks
    → length key ≤ 32
    → extract_gtk_from_kde (all_bytes ks ++ (kde_bytes (gtk_kde idx key) ++ rest))
      ≡ some (record { idx = bit_and idx 0x3; bytes = key })
unfolding extract_gtk_from_kde
extract-gtk_kde ks idx key rest others short =
    let more : List ℕ = kde_bytes (gtk_kde idx key) ++ rest in
    find_gtk-all ks (length (all_bytes ks ++ more)) idx key rest others short
      (omega (arith, length-append (all_bytes ks) more, length-all_bytes ks))
