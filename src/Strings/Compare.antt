-- ===== src/Strings/Compare.antt =====
-- What strcmp and strncmp of libs/string.c say of strings in memory.
use oslab_riscv.Prelude.{
  ℕ, zero, suc, ◌+◌, ◌<◌, ◌≡◌, ◌≢◌, ◌↔◌, refl, sym, ap, ◌∙◌, inl, inr, Bool-cases, true, false,
  ◌||◌, some, List, [], ◌∷◌, length, ◌==◌, arith,
}
use oslab_riscv.Prelude.Int.{ℤ, pos}
use oslab_riscv.Strings.{char_diff, strcmp, strncmp}
use oslab_riscv.Strings.Copy.{IsString}

char_diff_iff : (a b : ℕ) → (char_diff a b ≡ pos 0) ↔ (a ≡ b)
char_diff_iff a b = ground arith

-- On two strings, with fuel for the characters of the first, `strcmp` returns, and it returns 0
-- exactly if they are equal.
pub strcmp-IsString :
    (n p q : ℕ) (s t : List ℕ) (m k : ℕ → ℕ)
    → IsString p s m
    → IsString q t k
    → length s < n
    → (d : ℤ) × (strcmp n p q m k ≡ some d) × ((d ≡ pos 0) ↔ (s ≡ t))
unfolding strcmp
strcmp-IsString zero p q s t m k v w l = absurd (omega arith)
strcmp-IsString (suc n) p q [] [] m k v w l =
    let ends : (m p == 0 || k q == 0) ≡ true = ground (arith, v) in
    (char_diff (m p) (k q), rw ends refl, (λ d. refl, λ e. ground (arith, v, w)))
strcmp-IsString (suc n) p q [] (d ∷ t) m k v (f, ne, w) l =
    let ends : (m p == 0 || k q == 0) ≡ true = ground (arith, v) in
    (char_diff (m p) (k q), rw ends refl, (λ d. ground (arith, v), λ e. cc))
strcmp-IsString (suc n) p q (c ∷ s) [] m k (e, ne, v) w l =
    let ends : (m p == 0 || k q == 0) ≡ true = ground (arith, w) in
    (char_diff (m p) (k q), rw ends refl, (λ d. ground (arith, w), λ e. cc))
strcmp-IsString (suc n) p q (c ∷ s) (d ∷ t) m k (e, ne, v) (f, ne', w) l =
    let live : (m p == 0 || k q == 0) ≡ false = ground arith in
    let (r, g, h) = strcmp-IsString n (p + 1) (q + 1) s t m k v w (omega arith) in
    elim (Bool-cases (m p == k q)) [
      | inl x ↦ (r, rw live (rw x g), (λ z. ground (arith, h.0 z), λ z. h.1 (ground (arith, z))))
      | inr x ↦ (
        char_diff (m p) (k q),
        rw live (rw x refl),
        (λ z. ground (arith, x, z), λ z. ground (arith, x, z)),
      )
    ]

head_at : (p q : ℕ) (m : ℕ → ℕ) → m (p + 0) ≡ m (q + 0) → m p ≡ m q
head_at p q m e =
    let x : p + 0 ≡ p = omega arith in let y : q + 0 ≡ q = omega arith in sym (ap m x) ∙ e ∙ ap m y

head_zero : (p : ℕ) (m : ℕ → ℕ) → m p ≡ 0 → m (p + 0) ≡ 0
head_zero p m e = let x : p + 0 ≡ p = omega arith in rw x e

shift :
    (p q j : ℕ) (m : ℕ → ℕ)
    → (m (p + suc j) ≡ m (q + suc j)) × (m (p + suc j) ≢ 0)
    → (m (p + 1 + j) ≡ m (q + 1 + j)) × (m (p + 1 + j) ≢ 0)
shift p q j m h =
    let x : p + 1 + j ≡ p + suc j = omega arith in
    let y : q + 1 + j ≡ q + suc j = omega arith in rw (x, y) h

-- `strncmp` compares one character too many: on strings that agree in their first n characters, all
-- of them before the end, it returns the difference of the next two.
pub strncmp-beyond :
    (p q n : ℕ) (m : ℕ → ℕ)
    → ((j : ℕ) → j < n → (m (p + j) ≡ m (q + j)) × (m (p + j) ≢ 0))
    → strncmp p q n m ≡ char_diff (m (p + n)) (m (q + n))
unfolding strncmp
strncmp-beyond p q zero m a =
    let x : p + 0 ≡ p = omega arith in let y : q + 0 ≡ q = omega arith in rw (x, y) refl
strncmp-beyond p q (suc n) m a =
    let x : p + 1 + n ≡ p + suc n = omega arith in
    let y : q + 1 + n ≡ q + suc n = omega arith in
    let (e, ne) = a 0 (omega arith) in
    let e' : m p ≡ m q = head_at p q m e in
    let ne' : m p ≢ 0 = λ z. ne (head_zero p m z) in
    let live : (m p == 0 || m q == 0) ≡ false = ground arith in
    let same : (m p == m q) ≡ true = ground arith in
    let r = strncmp-beyond (p + 1) (q + 1) n m (λ j l. shift p q j m (a (suc j) (omega arith))) in
    rw (live, strncmp) (rw same (r ∙ rw (x, y) refl))
