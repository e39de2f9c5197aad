-- ===== src/Bits/Laws.antt =====
-- Facts about `bit_and` at variables, from the digits that the native operation stands for.
use Prim.Native.Nat.{digits, bit_and, bit_and-bitwise, min}
use airport_rtw.Base.{
  ℕ, zero, suc, ◌+◌, ◌-◌, ◌*◌, ◌/◌, ◌%◌, ◌≤◌, ◌<◌, ◌≡◌, refl, ap, ap₂, sym, ◌∙◌, arith,
}
use native.Mathlib.Nat.{div-add-mod, mod-lt, mod-eq_of_lt, mul-add-mod_self_left}

-- The digits of a conjunction, as far as `steps` of them are asked for.
abbrev conj : (steps : ℕ) (a b : ℕ) → ℕ
conj = digits (λ rest. 0) min

conj-none : (steps b : ℕ) → conj steps 0 b ≡ 0
conj-none zero b = refl
conj-none (suc steps) b = refl

-- One step more than the number itself has no digit left to find.
conj-settles : (a b : ℕ) (i j : ℕ) → a ≤ i → a ≤ j → conj i a b ≡ conj j a b
conj-settles zero b i j hi hj = conj-none i b ∙ sym (conj-none j b)
conj-settles (suc a) b (suc i) (suc j) hi hj =
    ap (λ high. high * 2 + min (suc a % 2) (b % 2))
      (conj-settles (suc a / 2) (b / 2) i j (omega arith) (omega arith))
conj-settles (suc a) b zero j hi hj = absurd (omega arith)
conj-settles (suc a) b i zero hi hj = absurd (omega arith)

-- The lowest digit, and the others.
pub bit_and-halves : (a b : ℕ) → bit_and a b ≡ bit_and (a / 2) (b / 2) * 2 + min (a % 2) (b % 2)
bit_and-halves zero b =
    let none : (c : ℕ) → bit_and 0 c ≡ 0 = bit_and-bitwise 0 in omega (arith, none b, none (b / 2))
bit_and-halves (suc a) b =
    let high : bit_and (suc a / 2) (b / 2) ≡ conj a (suc a / 2) (b / 2) =
      bit_and-bitwise (suc a / 2) (b / 2)
      ∙ conj-settles (suc a / 2) (b / 2) (suc a / 2) a (omega arith) (omega arith) in
    bit_and-bitwise (suc a) b ∙ ap (λ h. h * 2 + min (suc a % 2) (b % 2)) (sym high)

empty_mask : (a steps : ℕ) → a ≤ steps → bit_and a 0 ≡ 0
empty_mask a zero h = ap (λ k. bit_and k 0) {y = 0} (omega arith)
empty_mask a (suc steps) h =
    omega (arith, empty_mask (a / 2) steps (omega arith), bit_and-halves a 0)

pub bit_and-zero : (a : ℕ) → bit_and a 0 ≡ 0
bit_and-zero a = empty_mask a a (omega arith)

mod_half : (a p : ℕ) → 0 < p → (a % (2 * p) / 2 ≡ a / 2 % p) × (a % (2 * p) % 2 ≡ a % 2)
mod_half a p h =
    let q = a / (2 * p) in
    let r = a % (2 * p) in
    let e : a / 2 ≡ p * q + r / 2 = omega (arith, div-add-mod a (2 * p)) in
    let small : r / 2 < p = omega (arith, mod-lt a {m = 2 * p} (omega arith)) in
    (
      sym (ap (λ t. t % p) e ∙ mul-add-mod_self_left p q (r / 2) ∙ mod-eq_of_lt small),
      omega (arith, div-add-mod a (2 * p)),
    )

abbrev pow2 : ℕ → ℕ
pow2 zero = 1
pow2 (suc k) = 2 * pow2 k

pow2-pos : (k : ℕ) → 0 < pow2 k
pow2-pos zero = omega arith
pow2-pos (suc k) = omega (arith, pow2-pos k)

-- A mask of `k` digits sees the last `k` digits of a word.
bit_and-low : (k a m : ℕ) → m < pow2 k → bit_and a m ≡ bit_and (a % pow2 k) m
bit_and-low zero a m h =
    ap (bit_and a) {y = 0} (omega arith)
    ∙ bit_and-zero a
    ∙ sym (ap (bit_and (a % 1)) {y = 0} (omega arith) ∙ bit_and-zero (a % 1))
bit_and-low (suc k) a m h = omega (
  arith,
  bit_and-halves a m,
  bit_and-halves (a % (2 * pow2 k)) m,
  ap (λ t. bit_and t (m / 2)) (mod_half a (pow2 k) (pow2-pos k)).0,
  (mod_half a (pow2 k) (pow2-pos k)).1,
  bit_and-low k (a / 2) (m / 2) (omega arith),
)

pub bit_and-byte : (a m : ℕ) → m < 256 → bit_and a m ≡ bit_and (a % 256) m
bit_and-byte a m h = bit_and-low 8 a m h

-- A mask of ones keeps the last `k` digits.
bit_and-ones : (k a : ℕ) → bit_and a (pow2 k - 1) ≡ a % pow2 k
bit_and-ones zero a = bit_and-zero a ∙ omega arith
bit_and-ones (suc k) a =
    let pos = pow2-pos k in
    omega (
      arith,
      bit_and-halves a (2 * pow2 k - 1),
      ap (bit_and (a / 2)) {x = (2 * pow2 k - 1) / 2} {y = pow2 k - 1} (omega arith),
      bit_and-ones k (a / 2),
      mod_half a (pow2 k) pos,
    )

pub bit_and-ones_lem :
    (a : ℕ) → (bit_and a 0xf ≡ a % 16) × (bit_and a 0x3ff ≡ a % 1024) × (bit_and a 0xfff ≡ a % 4096)
bit_and-ones_lem a = (bit_and-ones 4 a, bit_and-ones 10 a, bit_and-ones 12 a)

bit_and-double : (a b : ℕ) → bit_and (a * 2) (b * 2) ≡ bit_and a b * 2
bit_and-double a b =
    let half : (c : ℕ) → c * 2 / 2 ≡ c = λ c. omega arith in
    omega (arith, bit_and-halves (a * 2) (b * 2), ap₂ bit_and (half a) (half b))

abbrev sixteenfold : ℕ → ℕ
sixteenfold a = a * 2 * 2 * 2 * 2

bit_and-sixteenfold :
    (a b : ℕ) → bit_and (sixteenfold a) (sixteenfold b) ≡ sixteenfold (bit_and a b)
bit_and-sixteenfold a b =
    bit_and-double (a * 2 * 2 * 2) (b * 2 * 2 * 2)
    ∙ ap (λ x. x * 2) (bit_and-double (a * 2 * 2) (b * 2 * 2))
    ∙ ap (λ x. x * 2 * 2) (bit_and-double (a * 2) (b * 2))
    ∙ ap (λ x. x * 2 * 2 * 2) (bit_and-double a b)

-- A mask that leaves out the last four of sixteen digits, of a word that has none there.
pub bit_and-above : (n : ℕ) → n < 4096 → bit_and (n * 16) 0xfff0 ≡ n * 16
bit_and-above n h =
    let apart : n * 16 ≡ sixteenfold n = omega arith in
    ap (λ x. bit_and x 0xfff0) apart
    ∙ bit_and-sixteenfold n 0xfff
    ∙ omega (arith, (bit_and-ones_lem n).2)

-- A mask of six digits, three places up.
pub bit_and-eights : (q : ℕ) → bit_and (q * 8) 504 ≡ q % 64 * 8
bit_and-eights q =
    let apart : q * 8 ≡ q * 2 * 2 * 2 = omega arith in
    ap (λ x. bit_and x 504) apart
    ∙ bit_and-double (q * 2 * 2) 252
    ∙ ap (λ x. x * 2) (bit_and-double (q * 2) 126)
    ∙ ap (λ x. x * 2 * 2) (bit_and-double q 63)
    ∙ omega (arith, bit_and-ones 6 q)
