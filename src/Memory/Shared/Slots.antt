-- ===== src/Memory/Shared/Slots.antt =====
-- The slots of shm_page_table in kernel/mm/mm.c.
use oslab_riscv.Prelude.{
  ℕ, ◌<◌, ◌≡◌, ◌⊎◌, inl, inr, Bool, true, false, not, ◌&&◌, ◌==◌, find_from, find_from-cases, arith,
}
use oslab_riscv.Memory.{ShmPage}
use oslab_riscv.Memory.Pages.{num_max_shm}
use oslab_riscv.Memory.Shared.{find_shm}

test_lt : (a b : ℕ) → a < b → (a == b) ≡ false
test_lt a b l = ground arith

test_eq : (a b : ℕ) → a ≡ b → (a == b) ≡ true
test_eq a b e = ground arith

keyed : (a b : ℕ) (v : Bool) → (a == b && v) ≡ true → (a ≡ b) × (v ≡ true)
keyed a b v e = ground arith

not-true : (v : Bool) → not v ≡ true → v ≡ false
not-true v e = ground arith

not-false : (v : Bool) → not v ≡ false → v ≡ true
not-false v e = ground arith

-- Where a valid slot has the key, `shm_page_get` takes a valid slot with the key; else it takes a
-- free slot if there is one, and fails only if all slots are taken by other keys.
pub find_shm_lem :
    (key : ℕ) (table : ℕ → ShmPage)
    → let i = find_shm key table in
      ((i < num_max_shm) × ((table i).key ≡ key) × ((table i).valid ≡ true))
      ⊎ (((j : ℕ) → j < num_max_shm → ((table j).key == key && (table j).valid) ≡ false)
          × (((i < num_max_shm) × ((table i).valid ≡ false))
              ⊎ ((i ≡ num_max_shm) × ((j : ℕ) → j < num_max_shm → (table j).valid ≡ true))))
unfolding find_shm
find_shm_lem key table =
    let test = λ (j : ℕ). (table j).key == key && (table j).valid in
    let free = λ (j : ℕ). not (table j).valid in
    elim (find_from-cases num_max_shm test) [
      | inl (l, h) ↦
          let here : (find_from num_max_shm 0 test == num_max_shm) ≡ false = test_lt _ _ l in
          let (a, b) = keyed (table (find_from num_max_shm 0 test)).key key _ h in
          rw here (inl (l, a, b))
      | inr (e, absent) ↦
          let gone : (find_from num_max_shm 0 test == num_max_shm) ≡ true = test_eq _ _ e in
          rw gone (
            inr (
              absent,
              elim (find_from-cases num_max_shm free) [
                | inl (l, h) ↦ inl (l, not-true _ h)
                | inr (f, taken) ↦ inr (f, λ j b. not-false _ (taken j b))
              ],
            ))
    ]
