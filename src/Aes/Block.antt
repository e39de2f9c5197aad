-- ===== src/Aes/Block.antt =====
-- `aes128_decrypt_block` of src/kext/RTW88IEEE80211.cpp undoes the cipher of FIPS 197.
use airport_rtw.Base.{ℕ, suc, ◌<◌, ◌≡◌, refl, ap, ap₂, arith, List, [], ◌∷◌, ◌++◌, length, get_or}
use airport_rtw.Wpa.{xor_bytes}
use airport_rtw.Aes.Fips.{fips_sbox}
use airport_rtw.Aes.{aes_inv_shift_rows, aes_inv_sub_bytes, aes_inv_mix_columns}
use airport_rtw.Aes.Table.{rsbox-sbox, xtime-xor}
use airport_rtw.Aes.Column.{Col, mixed, mixed-IsCol, inv_mix_column-mixed}

-- Sixteen bytes, taken apart.
pub data Sixteen : List ℕ → Type 0 where
  sixteen :
      (a b c d e f g h i j k l m n o p : ℕ)
      → Sixteen (a ∷ b ∷ c ∷ d ∷ e ∷ f ∷ g ∷ h ∷ i ∷ j ∷ k ∷ l ∷ m ∷ n ∷ o ∷ p ∷ [])

pub length-Sixteen : (s : List ℕ) → length s ≡ 16 → Sixteen s
length-Sixteen (a ∷ b ∷ c ∷ d ∷ e ∷ f ∷ g ∷ h ∷ i ∷ j ∷ k ∷ l ∷ m ∷ n ∷ o ∷ p ∷ []) size =
    sixteen a b c d e f g h i j k l m n o p
length-Sixteen ([]) size = absurd (omega arith)
length-Sixteen (a ∷ []) size = absurd (omega arith)
length-Sixteen (a ∷ b ∷ []) size = absurd (omega arith)
length-Sixteen (a ∷ b ∷ c ∷ []) size = absurd (omega arith)
length-Sixteen (a ∷ b ∷ c ∷ d ∷ []) size = absurd (omega arith)
length-Sixteen (a ∷ b ∷ c ∷ d ∷ e ∷ []) size = absurd (omega arith)
length-Sixteen (a ∷ b ∷ c ∷ d ∷ e ∷ f ∷ []) size = absurd (omega arith)
length-Sixteen (a ∷ b ∷ c ∷ d ∷ e ∷ f ∷ g ∷ []) size = absurd (omega arith)
length-Sixteen (a ∷ b ∷ c ∷ d ∷ e ∷ f ∷ g ∷ h ∷ []) size = absurd (omega arith)
length-Sixteen (a ∷ b ∷ c ∷ d ∷ e ∷ f ∷ g ∷ h ∷ i ∷ []) size = absurd (omega arith)
length-Sixteen (a ∷ b ∷ c ∷ d ∷ e ∷ f ∷ g ∷ h ∷ i ∷ j ∷ []) size = absurd (omega arith)
length-Sixteen (a ∷ b ∷ c ∷ d ∷ e ∷ f ∷ g ∷ h ∷ i ∷ j ∷ k ∷ []) size = absurd (omega arith)
length-Sixteen (a ∷ b ∷ c ∷ d ∷ e ∷ f ∷ g ∷ h ∷ i ∷ j ∷ k ∷ l ∷ []) size = absurd (omega arith)
length-Sixteen (a ∷ b ∷ c ∷ d ∷ e ∷ f ∷ g ∷ h ∷ i ∷ j ∷ k ∷ l ∷ m ∷ []) size = absurd (omega arith)
length-Sixteen (a ∷ b ∷ c ∷ d ∷ e ∷ f ∷ g ∷ h ∷ i ∷ j ∷ k ∷ l ∷ m ∷ n ∷ []) size =
    absurd (omega arith)
length-Sixteen (a ∷ b ∷ c ∷ d ∷ e ∷ f ∷ g ∷ h ∷ i ∷ j ∷ k ∷ l ∷ m ∷ n ∷ o ∷ []) size =
    absurd (omega arith)
length-Sixteen (a ∷ b ∷ c ∷ d ∷ e ∷ f ∷ g ∷ h ∷ i ∷ j ∷ k ∷ l ∷ m ∷ n ∷ o ∷ p ∷ q ∷ s) size =
    absurd (omega arith)

abbrev pub AreBytes : List ℕ → Type 0
AreBytes [] = Unit
AreBytes (b ∷ s) = (b < 256) × AreBytes s

-- FIPS 197: ShiftRows, SubBytes and MixColumns.
unfoldable pub shift_rows : List ℕ → List ℕ
shift_rows s =
    get_or s 0 0
    ∷ get_or s 5 0
    ∷ get_or s 10 0
    ∷ get_or s 15 0
    ∷ get_or s 4 0
    ∷ get_or s 9 0
    ∷ get_or s 14 0
    ∷ get_or s 3 0
    ∷ get_or s 8 0
    ∷ get_or s 13 0
    ∷ get_or s 2 0
    ∷ get_or s 7 0
    ∷ get_or s 12 0
    ∷ get_or s 1 0
    ∷ get_or s 6 0
    ∷ get_or s 11 0
    ∷ []

unfoldable pub sub_bytes : List ℕ → List ℕ
sub_bytes [] = []
sub_bytes (x ∷ s) = fips_sbox x ∷ sub_bytes s

abbrev spelled : Col → List ℕ
spelled u = u.c0 ∷ u.c1 ∷ u.c2 ∷ u.c3 ∷ []

unfoldable pub mix_columns : List ℕ → List ℕ
unfolding mixed
mix_columns s =
    spelled (mixed (get_or s 0 0) (get_or s 1 0) (get_or s 2 0) (get_or s 3 0))
    ++ (spelled (mixed (get_or s 4 0) (get_or s 5 0) (get_or s 6 0) (get_or s 7 0))
        ++ (spelled (mixed (get_or s 8 0) (get_or s 9 0) (get_or s 10 0) (get_or s 11 0))
            ++ spelled (mixed (get_or s 12 0) (get_or s 13 0) (get_or s 14 0) (get_or s 15 0))))

-- A block: sixteen bytes.
abbrev pub IsBlock : List ℕ → Type 0
IsBlock s = (length s ≡ 16) × AreBytes s

shifted : (s : List ℕ) → Sixteen s → aes_inv_shift_rows (shift_rows s) ≡ s
unfolding aes_inv_shift_rows shift_rows
shifted _ (sixteen _ _ _ _ _ _ _ _ _ _ _ _ _ _ _ _) = refl

pub inv_shift_rows-shift_rows : (s : List ℕ) → length s ≡ 16 → aes_inv_shift_rows (shift_rows s) ≡ s
unfolding aes_inv_shift_rows shift_rows
inv_shift_rows-shift_rows s e = shifted s (length-Sixteen s e)

pub inv_sub_bytes-sub_bytes : (s : List ℕ) → AreBytes s → aes_inv_sub_bytes (sub_bytes s) ≡ s
unfolding aes_inv_sub_bytes sub_bytes
inv_sub_bytes-sub_bytes [] v = refl
inv_sub_bytes-sub_bytes (x ∷ s) (h, v) =
    ap₂ (λ y t. y ∷ t) (rsbox-sbox x h).0 (inv_sub_bytes-sub_bytes s v)

pub sub_bytes-IsBlock :
    (s : List ℕ) → AreBytes s → AreBytes (sub_bytes s) × (length (sub_bytes s) ≡ length s)
unfolding sub_bytes
sub_bytes-IsBlock [] v = (tt, refl)
sub_bytes-IsBlock (x ∷ s) (h, v) =
    let (w, e) = sub_bytes-IsBlock s v in (((rsbox-sbox x h).1, w), ap (λ n. suc n) e)

pub xor_bytes-AreBytes : (s k : List ℕ) → AreBytes s → AreBytes k → AreBytes (xor_bytes s k)
unfolding xor_bytes
xor_bytes-AreBytes [] k v w = tt
xor_bytes-AreBytes (x ∷ s) [] v w = v
xor_bytes-AreBytes (x ∷ s) (y ∷ k) (h, v) (g, w) =
    ((xtime-xor x y h g).1, xor_bytes-AreBytes s k v w)

shifted-IsBlock : (s : List ℕ) → Sixteen s → AreBytes s → IsBlock (shift_rows s)
unfolding shift_rows
shifted-IsBlock _ (sixteen _ _ _ _ _ _ _ _ _ _ _ _ _ _ _ _) v =
    let (
      h0,
      (
        h1,
        (h2, (h3, (h4, (h5, (h6, (h7, (h8, (h9, (h10, (h11, (h12, (h13, (h14, (h15, _)))))))))))))),
      ),
    ) =
      v in
    (
      refl,
      (
        h0,
        (
          h5,
          (
            h10,
            (h15, (h4, (h9, (h14, (h3, (h8, (h13, (h2, (h7, (h12, (h1, (h6, (h11, tt))))))))))))),
          ),
        ),
      ),
    )

mixed_columns : (s : List ℕ) → Sixteen s → AreBytes s → IsBlock (mix_columns s)
unfolding mix_columns
mixed_columns _ (sixteen a b c d e f g h i j k l m n o p) v =
    let (
      h0,
      (
        h1,
        (h2, (h3, (h4, (h5, (h6, (h7, (h8, (h9, (h10, (h11, (h12, (h13, (h14, (h15, _)))))))))))))),
      ),
    ) =
      v in
    let col0 = mixed-IsCol a b c d h0 h1 h2 h3 in
    let col1 = mixed-IsCol e f g h h4 h5 h6 h7 in
    let col2 = mixed-IsCol i j k l h8 h9 h10 h11 in
    let col3 = mixed-IsCol m n o p h12 h13 h14 h15 in
    (
      refl,
      (
        col0.byte0,
        (
          col0.byte1,
          (
            col0.byte2,
            (
              col0.byte3,
              (
                col1.byte0,
                (
                  col1.byte1,
                  (
                    col1.byte2,
                    (
                      col1.byte3,
                      (
                        col2.byte0,
                        (
                          col2.byte1,
                          (
                            col2.byte2,
                            (
                              col2.byte3,
                              (col3.byte0, (col3.byte1, (col3.byte2, (col3.byte3, tt)))),
                            ),
                          ),
                        ),
                      ),
                    ),
                  ),
                ),
              ),
            ),
          ),
        ),
      ),
    )

unmixed : (s : List ℕ) → Sixteen s → AreBytes s → aes_inv_mix_columns (mix_columns s) ≡ s
unfolding aes_inv_mix_columns mix_columns
unmixed _ (sixteen a b c d e f g h i j k l m n o p) v =
    let (
      h0,
      (
        h1,
        (h2, (h3, (h4, (h5, (h6, (h7, (h8, (h9, (h10, (h11, (h12, (h13, (h14, (h15, _)))))))))))))),
      ),
    ) =
      v in
    ap₂ (λ x y. x ++ y) (inv_mix_column-mixed a b c d h0 h1 h2 h3)
      (ap₂ (λ x y. x ++ y) (inv_mix_column-mixed e f g h h4 h5 h6 h7)
        (ap₂ (λ x y. x ++ y) (inv_mix_column-mixed i j k l h8 h9 h10 h11)
          (inv_mix_column-mixed m n o p h12 h13 h14 h15)))

pub shift_rows-IsBlock : (s : List ℕ) → IsBlock s → IsBlock (shift_rows s)
shift_rows-IsBlock s (e, v) = shifted-IsBlock s (length-Sixteen s e) v

pub mix_columns-IsBlock : (s : List ℕ) → IsBlock s → IsBlock (mix_columns s)
mix_columns-IsBlock s (e, v) = mixed_columns s (length-Sixteen s e) v

-- Every column comes back.
pub inv_mix_columns-mix_columns : (s : List ℕ) → IsBlock s → aes_inv_mix_columns (mix_columns s) ≡ s
inv_mix_columns-mix_columns s (e, v) = unmixed s (length-Sixteen s e) v
