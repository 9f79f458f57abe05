-- ===== src/Strings/Tests.antt =====
-- The theorems about strings at one memory: "ab" at 10, "ac" at 20.
use oslab_riscv.Prelude.{
  ℕ, ◌+◌, ◌<◌, ◌≡◌, ◌≢◌, ◌↔◌, refl, some, List, [], ◌∷◌, ◌==◌, if◌then◌else◌, arith,
}
use oslab_riscv.Prelude.Int.{ℤ, pos}
use oslab_riscv.Strings.{strcmp}
use oslab_riscv.Strings.Compare.{strcmp-IsString}

abbrev bytes : ℕ → ℕ
bytes p =
    if p == 10
    then 97
    else if p == 11
    then 98
    else if p == 20
    then 97
    else if p == 21
    then 99
    else 0

abbrev ab : List ℕ
ab = 97 ∷ 98 ∷ []

abbrev ac : List ℕ
ac = 97 ∷ 99 ∷ []

strcmp-IsString_example :
    (d : ℤ) × (strcmp 5 10 20 bytes bytes ≡ some d) × ((d ≡ pos 0) ↔ (ab ≡ ac))
strcmp-IsString_example =
    strcmp-IsString 5 10 20 ab ac bytes bytes (refl, ground arith, (refl, ground arith, refl))
      (refl, ground arith, (refl, ground arith, refl)) (omega arith)

agree : (j : ℕ) → j < 1 → (bytes (10 + j) ≡ bytes (20 + j)) × (bytes (10 + j) ≢ 0)
agree j l = let z : j ≡ 0 = omega arith in rw z (refl, ground arith)
