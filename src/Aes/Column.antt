-- ===== src/Aes/Column.antt =====
-- `aes_inv_mix_columns` of src/kext/RTW88IEEE80211.cpp undoes the MixColumns of FIPS 197, column by
-- column: both are sums over the bytes, and for one byte alone the tables say so.
use Prim.Native.Nat.{bit_xor}
use airport_rtw.Base.{
  ℕ, ◌<◌, ◌≡◌, refl, ap, ap₂, ◌∙◌, Bool, true, ◌&&◌, ◌==◌, ==_iff, [], ◌∷◌, arith,
}
use airport_rtw.Bits.Table.{holds_from, table_entry}
use airport_rtw.Wpa.Xor.{bit_xor-zero, bit_xor_comm, bit_xor-interchange}
use airport_rtw.Aes.{aes_mul, row, inv_mix_column}
use airport_rtw.Aes.Fips.{times_x}
use airport_rtw.Aes.Table.{xtime-xor, times_x-lt}
use airport_rtw.Aes.Field.{aes_mul-xor}

-- A column of the state, or a row of the matrix.
pub record Col : Type 0 where
  pub c0 : ℕ
  pub c1 : ℕ
  pub c2 : ℕ
  pub c3 : ℕ

abbrev along : (w u : Col) → ℕ
along w u = row u.c0 u.c1 u.c2 u.c3 w.c0 w.c1 w.c2 w.c3

abbrev plus : Col → Col → Col
plus u v = record {
  c0 = bit_xor u.c0 v.c0;
  c1 = bit_xor u.c1 v.c1;
  c2 = bit_xor u.c2 v.c2;
  c3 = bit_xor u.c3 v.c3;
}

pub record IsCol (u : Col) : Type 0 where
  pub byte0 : u.c0 < 256
  pub byte1 : u.c1 < 256
  pub byte2 : u.c2 < 256
  pub byte3 : u.c3 < 256

plus-IsCol : (u v : Col) → IsCol u → IsCol v → IsCol (plus u v)
plus-IsCol u v p q = record {
  byte0 = (xtime-xor u.c0 v.c0 p.byte0 q.byte0).1;
  byte1 = (xtime-xor u.c1 v.c1 p.byte1 q.byte1).1;
  byte2 = (xtime-xor u.c2 v.c2 p.byte2 q.byte2).1;
  byte3 = (xtime-xor u.c3 v.c3 p.byte3 q.byte3).1;
}

along-plus :
    (w u v : Col) → IsCol u → IsCol v → along w (plus u v) ≡ bit_xor (along w u) (along w v)
along-plus w u v p q =
    let m0 = aes_mul-xor u.c0 v.c0 w.c0 p.byte0 q.byte0 in
    let m1 = aes_mul-xor u.c1 v.c1 w.c1 p.byte1 q.byte1 in
    let m2 = aes_mul-xor u.c2 v.c2 w.c2 p.byte2 q.byte2 in
    let m3 = aes_mul-xor u.c3 v.c3 w.c3 p.byte3 q.byte3 in
    let two =
      ap₂ bit_xor m0 m1
      ∙ bit_xor-interchange (aes_mul u.c0 w.c0) (aes_mul v.c0 w.c0) (aes_mul u.c1 w.c1)
          (aes_mul v.c1 w.c1) in
    let three = ap₂ bit_xor two m2 ∙ bit_xor-interchange _ _ _ _ in
    ap₂ bit_xor three m3 ∙ bit_xor-interchange _ _ _ _

-- FIPS 197: multiplication by two and three, and what one byte adds to its column.
abbrev pub twofold : ℕ → ℕ
twofold a = times_x a

abbrev pub threefold : ℕ → ℕ
threefold a = bit_xor (times_x a) a

abbrev from0 : ℕ → Col
from0 a = record { c0 = twofold a; c1 = a; c2 = a; c3 = threefold a }

abbrev from1 : ℕ → Col
from1 a = record { c0 = threefold a; c1 = twofold a; c2 = a; c3 = a }

abbrev from2 : ℕ → Col
from2 a = record { c0 = a; c1 = threefold a; c2 = twofold a; c3 = a }

abbrev from3 : ℕ → Col
from3 a = record { c0 = a; c1 = a; c2 = threefold a; c3 = twofold a }

threefold-lt : (a : ℕ) → a < 256 → threefold a < 256
threefold-lt a h = (xtime-xor (times_x a) a (times_x-lt a h) h).1

-- MixColumns on one column.
unfoldable pub mixed : (a0 a1 a2 a3 : ℕ) → Col
unfolding times_x
mixed a0 a1 a2 a3 = plus (plus (plus (from0 a0) (from1 a1)) (from2 a2)) (from3 a3)

abbrev weights0 : Col
weights0 = record { c0 = 0x0e; c1 = 0x0b; c2 = 0x0d; c3 = 0x09 }

abbrev weights1 : Col
weights1 = record { c0 = 0x09; c1 = 0x0e; c2 = 0x0b; c3 = 0x0d }

abbrev weights2 : Col
weights2 = record { c0 = 0x0d; c1 = 0x09; c2 = 0x0e; c3 = 0x0b }

abbrev weights3 : Col
weights3 = record { c0 = 0x0b; c1 = 0x0d; c2 = 0x09; c3 = 0x0e }

-- A byte comes back in its own place, and nowhere else.
abbrev places : (from : ℕ → Col) (b0 b1 b2 b3 : ℕ → ℕ) → ℕ → Bool
places from b0 b1 b2 b3 a =
    ((along weights0 (from a) == b0 a) && (along weights1 (from a) == b1 a))
    && ((along weights2 (from a) == b2 a) && (along weights3 (from a) == b3 a))

abbrev self : ℕ → ℕ
self a = a

abbrev nought : ℕ → ℕ
nought a = 0

table0 : holds_from (places from0 self nought nought nought) 0 255 ≡ true
unfolding holds_from aes_mul times_x
table0 = refl

table1 : holds_from (places from1 nought self nought nought) 0 255 ≡ true
unfolding holds_from aes_mul times_x
table1 = refl

table2 : holds_from (places from2 nought nought self nought) 0 255 ≡ true
unfolding holds_from aes_mul times_x
table2 = refl

table3 : holds_from (places from3 nought nought nought self) 0 255 ≡ true
unfolding holds_from aes_mul times_x
table3 = refl

four :
    (a b c d : Bool)
    → ((a && b) && (c && d)) ≡ true
    → (a ≡ true) × (b ≡ true) × (c ≡ true) × (d ≡ true)
four a b c d h = (ground arith, ground arith, ground arith, ground arith)

placed :
    (from : ℕ → Col) (b0 b1 b2 b3 : ℕ → ℕ) (a : ℕ)
    → holds_from (places from b0 b1 b2 b3) 0 255 ≡ true
    → a < 256
    → (along weights0 (from a) ≡ b0 a)
      × (along weights1 (from a) ≡ b1 a)
      × (along weights2 (from a) ≡ b2 a)
      × (along weights3 (from a) ≡ b3 a)
placed from b0 b1 b2 b3 a t h =
    let e =
      four _ _ _ _ (table_entry (places from b0 b1 b2 b3) 0 255 a t (omega arith) (omega arith)) in
    ((==_iff _ _).0 e.0, (==_iff _ _).0 e.1, (==_iff _ _).0 e.2, (==_iff _ _).0 e.3)

right-zero : (a : ℕ) → bit_xor a 0 ≡ a
right-zero a = bit_xor_comm a 0 ∙ bit_xor-zero a

-- Sums in which one part is not nought.
alone0 : (a : ℕ) → bit_xor (bit_xor (bit_xor a 0) 0) 0 ≡ a
alone0 a = right-zero (bit_xor (bit_xor a 0) 0) ∙ right-zero (bit_xor a 0) ∙ right-zero a

alone1 : (a : ℕ) → bit_xor (bit_xor (bit_xor 0 a) 0) 0 ≡ a
alone1 a = right-zero (bit_xor (bit_xor 0 a) 0) ∙ right-zero (bit_xor 0 a) ∙ bit_xor-zero a

alone2 : (a : ℕ) → bit_xor (bit_xor (bit_xor 0 0) a) 0 ≡ a
alone2 a = right-zero (bit_xor 0 a) ∙ bit_xor-zero a

alone3 : (a : ℕ) → bit_xor (bit_xor (bit_xor 0 0) 0) a ≡ a
alone3 a = bit_xor-zero a

module _ (a0 a1 a2 a3 : ℕ) (h0 : a0 < 256) (h1 : a1 < 256) (h2 : a2 < 256) (h3 : a3 < 256) where
  from-IsCol : IsCol (from0 a0) × IsCol (from1 a1) × IsCol (from2 a2) × IsCol (from3 a3)
  from-IsCol = (
    record { byte0 = times_x-lt a0 h0; byte1 = h0; byte2 = h0; byte3 = threefold-lt a0 h0 },
    record { byte0 = threefold-lt a1 h1; byte1 = times_x-lt a1 h1; byte2 = h1; byte3 = h1 },
    record { byte0 = h2; byte1 = threefold-lt a2 h2; byte2 = times_x-lt a2 h2; byte3 = h2 },
    record { byte0 = h3; byte1 = h3; byte2 = threefold-lt a3 h3; byte3 = times_x-lt a3 h3 },
  )

  pub mixed-IsCol : IsCol (mixed a0 a1 a2 a3)
  unfolding mixed
  mixed-IsCol =
      let (p0, p1, p2, p3) = from-IsCol in
      plus-IsCol _ _ (plus-IsCol _ _ (plus-IsCol _ _ p0 p1) p2) p3

  along-mixed :
      (w : Col)
      → along w (mixed a0 a1 a2 a3)
        ≡ bit_xor
            (bit_xor (bit_xor (along w (from0 a0)) (along w (from1 a1))) (along w (from2 a2)))
            (along w (from3 a3))
  unfolding mixed
  along-mixed w =
      let (p0, p1, p2, p3) = from-IsCol in
      let u1 = plus (from0 a0) (from1 a1) in
      let u2 = plus u1 (from2 a2) in
      let q1 = plus-IsCol (from0 a0) (from1 a1) p0 p1 in
      let q2 = plus-IsCol u1 (from2 a2) q1 p2 in
      along-plus w u2 (from3 a3) q2 p3
      ∙ ap (λ x. bit_xor x (along w (from3 a3)))
          (along-plus w u1 (from2 a2) q1 p2
            ∙ ap (λ x. bit_xor x (along w (from2 a2))) (along-plus w (from0 a0) (from1 a1) p0 p1))

  sum_of :
      {x y z t x' y' z' t' : ℕ}
      → x ≡ x'
      → y ≡ y'
      → z ≡ z'
      → t ≡ t'
      → bit_xor (bit_xor (bit_xor x y) z) t ≡ bit_xor (bit_xor (bit_xor x' y') z') t'
  sum_of p q r s = ap₂ bit_xor (ap₂ bit_xor (ap₂ bit_xor p q) r) s

  -- Every byte of a column comes back.
  pub inv_mix_column-mixed :
      let m = mixed a0 a1 a2 a3 in inv_mix_column m.c0 m.c1 m.c2 m.c3 ≡ a0 ∷ a1 ∷ a2 ∷ a3 ∷ []
  unfolding inv_mix_column
  inv_mix_column-mixed =
      let t0 = placed from0 self nought nought nought a0 table0 h0 in
      let t1 = placed from1 nought self nought nought a1 table1 h1 in
      let t2 = placed from2 nought nought self nought a2 table2 h2 in
      let t3 = placed from3 nought nought nought self a3 table3 h3 in
      let r0 = along-mixed weights0 ∙ sum_of t0.0 t1.0 t2.0 t3.0 ∙ alone0 a0 in
      let r1 = along-mixed weights1 ∙ sum_of t0.1 t1.1 t2.1 t3.1 ∙ alone1 a1 in
      let r2 = along-mixed weights2 ∙ sum_of t0.2 t1.2 t2.2 t3.2 ∙ alone2 a2 in
      let r3 = along-mixed weights3 ∙ sum_of t0.3 t1.3 t2.3 t3.3 ∙ alone3 a3 in
      λ i. r0 i ∷ r1 i ∷ r2 i ∷ r3 i ∷ []
