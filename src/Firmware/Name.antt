-- ===== src/Firmware/Name.antt =====
-- The last part of a path, as `load_fw` of src/compat/rtw88_firmware.c finds it.
use airport_rtw.Base.{
  ℕ, ◌≡◌, ◌⊎◌, inl, inr, refl, ap, sym, ◌∙◌, List, [], ◌∷◌, ◌++◌, arith, ◌==◌, if◌then◌else◌, count,
  Bool-cases,
}
use airport_rtw.Firmware.{base_loop}

abbrev pub slash : ℕ
slash = 47

base_loop-none : (p base : List ℕ) → count slash p ≡ 0 → base_loop p base ≡ base
unfolding base_loop count
base_loop-none [] base h = refl
base_loop-none (c ∷ p) base h = ground (arith, base_loop-none p base)

base_loop-slash :
    (dir after base : List ℕ)
    → count slash after ≡ 0
    → base_loop (dir ++ slash ∷ after) base ≡ after
unfolding base_loop
base_loop-slash [] after base h = base_loop-none after after h
base_loop-slash (c ∷ dir) after base h =
    base_loop-slash dir after (if c == slash then dir ++ slash ∷ after else base) h

-- A name without a slash, or one cut at its last slash.
Cut : List ℕ → Type 0
Cut name =
    (count slash name ≡ 0)
    ⊎ ((dir : List ℕ) × (after : List ℕ) × (dir ++ slash ∷ after ≡ name) × (count slash after ≡ 0))

Cut-cons : (c : ℕ) (name : List ℕ) → Cut name → Cut (c ∷ name)
unfolding Cut count
Cut-cons c name (inr (dir, after, e, h)) = inr (c ∷ dir, after, ap (λ t. c ∷ t) e, h)
Cut-cons c name (inl h) = elim (Bool-cases (slash == c)) [
  | inl e ↦ inr ([], name, ap (λ k. k ∷ name) {x = slash} {y = c} (ground arith), h)
  | inr e ↦ inl (ground arith)
]

cut : (name : List ℕ) → Cut name
unfolding Cut count
cut [] = inl refl
cut (c ∷ name) = Cut-cons c name (cut name)

-- The name under which a firmware is looked up has no slash; it is the whole name, or what
-- follows a slash of it.
pub base_name :
    (name : List ℕ)
    → let base = base_loop name name in
      (count slash base ≡ 0) × ((base ≡ name) ⊎ ((dir : List ℕ) × (dir ++ slash ∷ base ≡ name)))
unfolding Cut
base_name name = elim (cut name) [
  | inl h ↦ (let b = base_loop-none name name h in (ap (count slash) b ∙ h, inl b))
  | inr (dir, after, e, h) ↦
      (let b : base_loop name name ≡ after =
          ap (λ n. base_loop n name) (sym e) ∙ base_loop-slash dir after name h in
        (ap (count slash) b ∙ h, inr (dir, ap (λ t. dir ++ slash ∷ t) b ∙ e)))
]
