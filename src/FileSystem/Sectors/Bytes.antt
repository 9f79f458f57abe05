-- ===== src/FileSystem/Sectors/Bytes.antt =====
-- The words of the buffers of kernel/fs/fs.c.
use oslab_riscv.Prelude.{ℕ, ◌+◌, ◌/◌, ◌%◌, ◌≤◌, ◌<◌, ◌≡◌, refl, sym, ap, ◌∙◌, ◌⊎◌, arith, ◌^◌}
use oslab_riscv.FileSystem.{get32, set32}

-- A byte that is not one of the word's stays.
pub set32-out : (b : ℕ → ℕ) (o v j : ℕ) → (j < o) ⊎ (o + 4 ≤ j) → set32 b o v j ≡ b j
unfolding set32
set32-out b o v j x = ground arith

-- A word keeps the low 32 bits of what is stored in it.
pub get32-set32_mod : (b : ℕ → ℕ) (o v : ℕ) → get32 (set32 b o v) o ≡ v % 2 ^ 32
unfolding get32 set32
get32-set32_mod b o v =
    let e0 : set32 b o v o ≡ v % 256 = ground arith in
    let e1 : set32 b o v (o + 1) ≡ v / 256 % 256 = ground arith in
    let e2 : set32 b o v (o + 2) ≡ v / 65536 % 256 = ground arith in
    let e3 : set32 b o v (o + 3) ≡ v / 16777216 % 256 = ground arith in
    rw (e0, e1, e2, e3) (omega arith)

pub get32-set32 : (b : ℕ → ℕ) (o v : ℕ) → v < 2 ^ 32 → get32 (set32 b o v) o ≡ v
get32-set32 b o v l = get32-set32_mod b o v ∙ omega arith

-- Two arrays that agree on the four bytes have the same word.
pub get32-congr :
    (b c : ℕ → ℕ) (o p : ℕ) → ((j : ℕ) → j < 4 → b (o + j) ≡ c (p + j)) → get32 b o ≡ get32 c p
unfolding get32
get32-congr b c o p f =
    let zero_o : o + 0 ≡ o = omega arith in
    let zero_p : p + 0 ≡ p = omega arith in
    let e0 : b o ≡ c p = sym (ap b zero_o) ∙ f 0 (omega arith) ∙ ap c zero_p in
    rw (e0, f 1 (omega arith), f 2 (omega arith), f 3 (omega arith)) refl

pub get32-set32_ne :
    (b : ℕ → ℕ) (o p v : ℕ) → (p + 4 ≤ o) ⊎ (o + 4 ≤ p) → get32 (set32 b o v) p ≡ get32 b p
unfolding get32
get32-set32_ne b o p v x =
    let e0 = set32-out b o v p (ground arith) in
    let e1 = set32-out b o v (p + 1) (ground arith) in
    let e2 = set32-out b o v (p + 2) (ground arith) in
    let e3 = set32-out b o v (p + 3) (ground arith) in rw (e0, e1, e2, e3) refl
