-- ===== src/Wpa/Xor.antt =====
-- Exclusive or of numbers and of bytes in a row.
use Prim.Native.Nat.{digits, bit_xor, bit_xor-bitwise, differ}
use airport_rtw.Base.{
  ℕ, zero, suc, ◌+◌, ◌*◌, ◌/◌, ◌%◌, ◌≤◌, ◌<◌, ◌≡◌, refl, ap, ap₂, sym, ◌∙◌, arith, List, [], ◌∷◌,
  length,
}
use airport_rtw.Wpa.{xor_bytes}

-- The digits of the exclusive or, as far as `steps` of those of the first number are asked for.
abbrev odd_ones : (steps : ℕ) (a b : ℕ) → ℕ
odd_ones = digits (λ rest. rest) differ

odd_ones-zero : (steps b : ℕ) → odd_ones steps 0 b ≡ b
odd_ones-zero zero b = refl
odd_ones-zero (suc steps) b = refl

odd_ones-settles : (a b i j : ℕ) → a ≤ i → a ≤ j → odd_ones i a b ≡ odd_ones j a b
odd_ones-settles zero b i j hi hj = odd_ones-zero i b ∙ sym (odd_ones-zero j b)
odd_ones-settles (suc a) b (suc i) (suc j) hi hj =
    ap (λ high. high * 2 + differ (suc a % 2) (b % 2))
      (odd_ones-settles (suc a / 2) (b / 2) i j (omega arith) (omega arith))
odd_ones-settles (suc a) b zero j hi hj = absurd (omega arith)
odd_ones-settles (suc a) b i zero hi hj = absurd (omega arith)

pub bit_xor-zero : (b : ℕ) → bit_xor 0 b ≡ b
bit_xor-zero b = bit_xor-bitwise 0 b

bit_xor-suc :
    (a b : ℕ) → bit_xor (suc a) b ≡ bit_xor (suc a / 2) (b / 2) * 2 + differ (suc a % 2) (b % 2)
bit_xor-suc a b =
    bit_xor-bitwise (suc a) b
    ∙ ap (λ h. h * 2 + differ (suc a % 2) (b % 2))
        (odd_ones-settles (suc a / 2) (b / 2) a (suc a / 2) (omega arith) (omega arith)
          ∙ sym (bit_xor-bitwise (suc a / 2) (b / 2)))

differ-zero : (d : ℕ) → differ d 0 ≡ d
differ-zero zero = refl
differ-zero (suc d) = refl

differ-bit : (x y : ℕ) → x < 2 → y < 2 → (differ (differ x y) y ≡ x) × (differ x y < 2)
differ-bit zero zero h g = (refl, omega arith)
differ-bit zero (suc zero) h g = (refl, omega arith)
differ-bit (suc zero) zero h g = (refl, omega arith)
differ-bit (suc zero) (suc zero) h g = (refl, omega arith)
differ-bit (suc (suc x)) y h g = absurd (omega arith)
differ-bit x (suc (suc y)) h g = absurd (omega arith)

-- The halves of an exclusive or, for any first number.
bit_xor-halves : (a b : ℕ) → bit_xor a b ≡ bit_xor (a / 2) (b / 2) * 2 + differ (a % 2) (b % 2)
bit_xor-halves zero b = omega (arith, bit_xor-zero b, bit_xor-zero (b / 2))
bit_xor-halves (suc a) b = bit_xor-suc a b

halved :
    (a b : ℕ)
    → (bit_xor a b / 2 ≡ bit_xor (a / 2) (b / 2)) × (bit_xor a b % 2 ≡ differ (a % 2) (b % 2))
halved a b =
    let bit : differ (a % 2) (b % 2) < 2 =
      (differ-bit (a % 2) (b % 2) (omega arith) (omega arith)).1 in
    (omega (arith, bit_xor-halves a b, bit), omega (arith, bit_xor-halves a b, bit))

twice : (steps a b : ℕ) → a ≤ steps → b ≤ steps → bit_xor (bit_xor a b) b ≡ a
twice zero a b h g =
    ap (λ x. bit_xor (bit_xor x b) b) {x = a} {y = 0} (omega arith)
    ∙ ap (λ y. bit_xor (bit_xor 0 y) y) {x = b} {y = 0} (omega arith)
    ∙ omega arith
twice (suc steps) a b h g = omega (
  arith,
  bit_xor-halves (bit_xor a b) b,
  ap (λ x. bit_xor x (b / 2)) (halved a b).0,
  ap (λ x. differ x (b % 2)) (halved a b).1,
  twice steps (a / 2) (b / 2) (omega arith) (omega arith),
  (differ-bit (a % 2) (b % 2) (omega arith) (omega arith)).0,
)

pub bit_xor-twice : (a b : ℕ) → bit_xor (bit_xor a b) b ≡ a
bit_xor-twice a b = twice (a + b) a b (omega arith) (omega arith)

pub xor_bytes-twice : (xs ys : List ℕ) → xor_bytes (xor_bytes xs ys) ys ≡ xs
unfolding xor_bytes
xor_bytes-twice [] ys = refl
xor_bytes-twice (x ∷ xs) [] = refl
xor_bytes-twice (x ∷ xs) (y ∷ ys) = ap₂ (λ z zs. z ∷ zs) (bit_xor-twice x y) (xor_bytes-twice xs ys)

pub length-xor_bytes : (xs ys : List ℕ) → length (xor_bytes xs ys) ≡ length xs
unfolding xor_bytes
length-xor_bytes [] ys = refl
length-xor_bytes (x ∷ xs) [] = refl
length-xor_bytes (x ∷ xs) (y ∷ ys) = omega (arith, length-xor_bytes xs ys)

differ_comm : (x y : ℕ) → x < 2 → y < 2 → differ x y ≡ differ y x
differ_comm zero zero h g = refl
differ_comm zero (suc zero) h g = refl
differ_comm (suc zero) zero h g = refl
differ_comm (suc zero) (suc zero) h g = refl
differ_comm (suc (suc x)) y h g = absurd (omega arith)
differ_comm x (suc (suc y)) h g = absurd (omega arith)

differ_assoc : (x y z : ℕ) → x < 2 → y < 2 → z < 2 → differ (differ x y) z ≡ differ x (differ y z)
differ_assoc zero zero z h g k = refl
differ_assoc zero (suc zero) zero h g k = refl
differ_assoc zero (suc zero) (suc zero) h g k = refl
differ_assoc (suc zero) zero zero h g k = refl
differ_assoc (suc zero) zero (suc zero) h g k = refl
differ_assoc (suc zero) (suc zero) zero h g k = refl
differ_assoc (suc zero) (suc zero) (suc zero) h g k = refl
differ_assoc (suc (suc x)) y z h g k = absurd (omega arith)
differ_assoc x (suc (suc y)) z h g k = absurd (omega arith)
differ_assoc x y (suc (suc z)) h g k = absurd (omega arith)

comm_steps : (steps a b : ℕ) → a ≤ steps → b ≤ steps → bit_xor a b ≡ bit_xor b a
comm_steps zero a b h g = let e : a ≡ b = omega arith in ap₂ bit_xor e (sym e)
comm_steps (suc steps) a b h g = omega (
  arith,
  bit_xor-halves a b,
  bit_xor-halves b a,
  comm_steps steps (a / 2) (b / 2) (omega arith) (omega arith),
  differ_comm (a % 2) (b % 2) (omega arith) (omega arith),
)

pub bit_xor_comm : (a b : ℕ) → bit_xor a b ≡ bit_xor b a
bit_xor_comm a b = comm_steps (a + b) a b (omega arith) (omega arith)

assoc_steps :
    (steps a b c : ℕ)
    → a ≤ steps
    → b ≤ steps
    → c ≤ steps
    → bit_xor (bit_xor a b) c ≡ bit_xor a (bit_xor b c)
assoc_steps zero a b c h g k =
    let none : (x : ℕ) → x ≤ 0 → x ≡ 0 = λ x e. omega arith in
    rw (none a h, none b g, none c k) refl
assoc_steps (suc steps) a b c h g k = omega (
  arith,
  bit_xor-halves (bit_xor a b) c,
  bit_xor-halves a (bit_xor b c),
  ap (λ x. bit_xor x (c / 2)) (halved a b).0,
  ap (λ x. differ x (c % 2)) (halved a b).1,
  ap (bit_xor (a / 2)) (halved b c).0,
  ap (differ (a % 2)) (halved b c).1,
  assoc_steps steps (a / 2) (b / 2) (c / 2) (omega arith) (omega arith) (omega arith),
  differ_assoc (a % 2) (b % 2) (c % 2) (omega arith) (omega arith) (omega arith),
)

pub bit_xor_assoc : (a b c : ℕ) → bit_xor (bit_xor a b) c ≡ bit_xor a (bit_xor b c)
bit_xor_assoc a b c = assoc_steps (a + b + c) a b c (omega arith) (omega arith) (omega arith)

-- Two sums of two, taken the other way.
pub bit_xor-interchange :
    (a b c d : ℕ) → bit_xor (bit_xor a b) (bit_xor c d) ≡ bit_xor (bit_xor a c) (bit_xor b d)
bit_xor-interchange a b c d =
    bit_xor_assoc a b (bit_xor c d)
    ∙ ap (bit_xor a)
        (sym (bit_xor_assoc b c d) ∙ ap (λ x. bit_xor x d) (bit_xor_comm b c) ∙ bit_xor_assoc c b d)
    ∙ sym (bit_xor_assoc a c (bit_xor b d))
