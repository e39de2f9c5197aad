-- ===== src/Base/Memory.antt =====
-- A store as a function from an index to its value, written at one index.
use Prim.Native.Nat.{ℕ}
use airport_rtw.Base.Tests.{◌==◌, if◌then◌else◌}

module _ {ℓ} {A : Type ℓ} where
  abbrev pub update : (ℕ → A) → ℕ → A → ℕ → A
  update m i v j = if j == i then v else m j
