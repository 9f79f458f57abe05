-- ===== src/FileSystem/Sectors/First.antt =====
-- The loops of kernel/fs/fs.c that look for the first entry of an array that was read from the card.
use oslab_riscv.Prelude.{
  ℕ, ◌<◌, ◌≡◌, ◌≢◌, sym, ◌∙◌, ◌⊎◌, inl, inr, Bool-cases, true, false, ◌==◌, find_from,
  find_from-below, find_from-le, find_from-holds, arith,
}

pub test-ne : (a b : ℕ) → (a == b) ≡ false → a ≢ b
test-ne a b e = ground (arith, e)

pub test-eq : (a b : ℕ) → (a == b) ≡ true → a ≡ b
test-eq a b e = ground (arith, e)

-- The first of `n` entries that is `x`.
pub record FirstWith (n x : ℕ) (card : ℕ → ℕ) (i : ℕ) : Type 0 where
  pub range : i < n
  pub here : card i ≡ x
  pub below : (j : ℕ) → j < i → card j ≢ x

pub first_with :
    (n x : ℕ) (m card : ℕ → ℕ)
    → ((j : ℕ) → j < n → m j ≡ card j)
    → let i = find_from n 0 (λ j. m j == x) in
      (((i == n) ≡ true) × ((j : ℕ) → j < n → card j ≢ x))
      ⊎ (((i == n) ≡ false) × FirstWith n x card i)
first_with n x m card on_card =
    let test = λ (j : ℕ). m j == x in
    let i = find_from n 0 test in
    let below = λ (j : ℕ) (l : j < i) (k : j < n) (z : card j ≡ x).
      test-ne _ _ (find_from-below n 0 test j (omega arith) l) (on_card j k ∙ z) in
    elim (Bool-cases (i == n)) [
      | inl e ↦ inl (e, λ j l. below j (rw (test-eq _ _ e) l) l)
      | inr e ↦
          let l : i < n = ground (arith, e, find_from-le n 0 test) in
          let z = test-eq _ _ (find_from-holds n 0 test (omega arith)) in
          inr (
            e,
            record {
              range = l;
              here = sym (on_card i l) ∙ z;
              below = λ j k. below j k (omega arith);
            },
          )
    ]

-- The search for an entry that is 0.
pub record FirstFree (n : ℕ) (card : ℕ → ℕ) (i : ℕ) : Type 0 where
  pub range : i < n
  pub free : card i ≡ 0
  pub below : (j : ℕ) → j < i → card j ≢ 0

pub first_free :
    (n : ℕ) (m card : ℕ → ℕ)
    → ((j : ℕ) → j < n → m j ≡ card j)
    → let i = find_from n 0 (λ j. m j == 0) in
      (((i == n) ≡ true) × ((j : ℕ) → j < n → card j ≢ 0))
      ⊎ (((i == n) ≡ false) × FirstFree n card i)
first_free n m card on_card = elim (first_with n 0 m card on_card) [
  | inl t ↦ inl t
  | inr (e, f) ↦ inr (e, record { range = f.range; free = f.here; below = f.below })
]
