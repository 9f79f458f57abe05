-- ===== src/Prelude/Loops.antt =====
-- The counted loops of the source: one that runs to its end, and one that looks for an index.
use Prim.Native.Nat.{ℕ, zero, suc, ◌+◌, ◌≤◌, ◌<◌}
use mathlib.Core.Path.{◌≡◌}
use mathlib.Core.Logic.{◌⊎◌, inl, inr}
use mathlib.Core.Bool.{Bool, true, false}
use native.Mathlib.Omega.{arith}
use oslab_riscv.Prelude.Tests.{◌==◌, Bool-cases}

-- `for (k = i; k != i + n; ++k) s = body k s;`
unfoldable pub for_range {ℓ} : {S : Type ℓ} → (rounds first : ℕ) → (ℕ → S → S) → S → S
for_range zero k step = λ s. s
for_range (suc rounds) k step = λ s. for_range rounds (k + 1) step (step k s)

-- `for (k = i; k != i + n; ++k) if (test k) break;`: the last value of `k`.
unfoldable pub find_from : ℕ → ℕ → (ℕ → Bool) → ℕ
find_from zero i test = i
find_from (suc n) i test = elim (test i) [ true ↦ i | false ↦ find_from n (i + 1) test ]

pub find_from-le : (n i : ℕ) (test : ℕ → Bool) → find_from n i test ≤ i + n
unfolding find_from
find_from-le zero i test = omega arith
find_from-le (suc n) i test = ground (arith, find_from-le n (i + 1) test)

pub find_from-ge : (n i : ℕ) (test : ℕ → Bool) → i ≤ find_from n i test
unfolding find_from
find_from-ge zero i test = omega arith
find_from-ge (suc n) i test = ground (arith, find_from-ge n (i + 1) test)

-- Below the index that it stops at, the test fails.
pub find_from-below :
    (n i : ℕ) (test : ℕ → Bool) (j : ℕ) → i ≤ j → j < find_from n i test → test j ≡ false
unfolding find_from
find_from-below zero i test j a b = absurd (omega arith)
find_from-below (suc n) i test j a b = ground (arith, find_from-below n (i + 1) test j)

-- Where it stops before the end, the test holds.
pub find_from-holds :
    (n i : ℕ) (test : ℕ → Bool) → find_from n i test < i + n → test (find_from n i test) ≡ true
unfolding find_from
find_from-holds zero i test h = absurd (omega arith)
find_from-holds (suc n) i test h = ground (arith, find_from-holds n (i + 1) test)

-- It stops at the first index at which the test holds.
pub find_from-first :
    (n i j : ℕ) (test : ℕ → Bool)
    → i ≤ j
    → j < i + n
    → ((m : ℕ) → i ≤ m → m < j → test m ≡ false)
    → test j ≡ true
    → find_from n i test ≡ j
unfolding find_from
find_from-first zero i j test a b f t = absurd (omega arith)
find_from-first (suc n) i j test a b f t = ground (arith, f i, find_from-first n (i + 1) j test)

-- A search from 0 ends at an index at which the test holds, or holds nowhere.
pub find_from-cases :
    (n : ℕ) (test : ℕ → Bool)
    → ((find_from n 0 test < n) × (test (find_from n 0 test) ≡ true))
      ⊎ ((find_from n 0 test ≡ n) × ((j : ℕ) → j < n → test j ≡ false))
find_from-cases n test = elim (Bool-cases (find_from n 0 test == n)) [
  | inl e ↦
      let same : find_from n 0 test ≡ n = ground (arith, e) in
      inr (same, λ j l. find_from-below n 0 test j (omega arith) (omega arith))
  | inr e ↦
      let l : find_from n 0 test < n = ground (arith, e, find_from-le n 0 test) in
      inl (l, find_from-holds n 0 test (omega arith))
]
