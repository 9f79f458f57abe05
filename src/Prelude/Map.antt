-- ===== src/Prelude/Map.antt =====
-- Arrays and memories as functions of the index.
use Prim.Native.Nat.{ℕ}
use oslab_riscv.Prelude.Tests.{◌==◌, if◌then◌else◌}

module _ {ℓ} {A : Type ℓ} where
  -- `f[i] = v`
  abbrev pub update : (ℕ → A) → ℕ → A → ℕ → A
  update f i v j = if i == j then v else f j
