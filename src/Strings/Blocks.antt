-- ===== src/Strings/Blocks.antt =====
-- What memset, memcpy and strncpy of libs/string.c leave at each byte.
use oslab_riscv.Prelude.{
  ℕ, zero, suc, ◌+◌, ◌-◌, ◌≤◌, ◌<◌, ◌≡◌, ◌≢◌, refl, ap, ◌∙◌, ◌⊎◌, inl, inr, Bool-cases, false,
  update, ◌==◌, arith,
}
use oslab_riscv.Strings.{memset, copy_bytes, strncpy}

pub memset-out : (p v n : ℕ) (m : ℕ → ℕ) (j : ℕ) → (j < p) ⊎ (p + n ≤ j) → memset p v n m j ≡ m j
unfolding memset
memset-out p v zero m j o = refl
memset-out p v (suc n) m j o = memset-out (p + 1) v n (update m p v) j (ground arith) ∙ ground arith

pub memset-in : (p v n : ℕ) (m : ℕ → ℕ) (j : ℕ) → j < n → memset p v n m (p + j) ≡ v
unfolding memset
memset-in p v zero m j l = absurd (omega arith)
memset-in p v (suc n) m zero l =
    memset-out (p + 1) v n (update m p v) (p + 0) (ground arith) ∙ ground arith
memset-in p v (suc n) m (suc j) l =
    let step : p + suc j ≡ p + 1 + j = omega arith in
    rw step (memset-in (p + 1) v n (update m p v) j (omega arith))

pub copy_bytes-out :
    (d s n : ℕ) (from m : ℕ → ℕ) (j : ℕ) → (j < d) ⊎ (d + n ≤ j) → copy_bytes d s n from m j ≡ m j
unfolding copy_bytes
copy_bytes-out d s zero from m j o = refl
copy_bytes-out d s (suc n) from m j o =
    copy_bytes-out (d + 1) (s + 1) n from (update m d (from s)) j (ground arith) ∙ ground arith

pub copy_bytes-in :
    (d s n : ℕ) (from m : ℕ → ℕ) (j : ℕ) → j < n → copy_bytes d s n from m (d + j) ≡ from (s + j)
unfolding copy_bytes
copy_bytes-in d s zero from m j l = absurd (omega arith)
copy_bytes-in d s (suc n) from m zero l =
    let here : s + 0 ≡ s = omega arith in
    copy_bytes-out (d + 1) (s + 1) n from (update m d (from s)) (d + 0) (ground arith)
    ∙ rw here (ground arith)
copy_bytes-in d s (suc n) from m (suc j) l =
    let step : d + suc j ≡ d + 1 + j = omega arith in
    let step' : s + suc j ≡ s + 1 + j = omega arith in
    rw (step, step') (copy_bytes-in (d + 1) (s + 1) n from (update m d (from s)) j (omega arith))

pub strncpy-out : (d s n : ℕ) (m : ℕ → ℕ) (j : ℕ) → (j < d) ⊎ (d + n ≤ j) → strncpy d s n m j ≡ m j
unfolding strncpy
strncpy-out d s zero m j o = refl
strncpy-out d s (suc n) m j o = elim (Bool-cases (m s == 0)) [
  | inl t ↦ rw (t, strncpy) (memset-out d 0 (suc n) m j o)
  | inr f ↦
      rw (f, strncpy)
        (strncpy-out (d + 1) (s + 1) n (update m d (m s)) j (ground arith) ∙ ground arith)
]

-- Where the source starts after the destination and has no NUL in its first `n` characters.
pub strncpy-in :
    (d s n : ℕ) (m : ℕ → ℕ) (j : ℕ)
    → d + n ≤ s
    → ((i : ℕ) → i < n → m (s + i) ≢ 0)
    → j < n
    → strncpy d s n m (d + j) ≡ m (s + j)
unfolding strncpy
strncpy-in d s zero m j o live l = absurd (omega arith)
strncpy-in d s (suc n) m j o live l =
    let here : s + 0 ≡ s = omega arith in
    let first : m s ≢ 0 = λ e. live 0 (omega arith) (ap m here ∙ e) in
    let f : (m s == 0) ≡ false = ground (arith, first) in
    let m1 = update m d (m s) in
    let next : (i : ℕ) → i < n → m1 (s + 1 + i) ≢ 0 =
      λ i b e. live (i + 1) (omega (arith, b)) (ground (arith, e, o)) in
    rw (f, strncpy)
      (elim (Bool-cases (j == 0)) [
        | inl t ↦
            let z : j ≡ 0 = ground (arith, t) in
            rw z (strncpy-out (d + 1) (s + 1) n m1 (d + 0) (ground arith) ∙ ground arith)
        | inr g ↦
            let p : 0 < j = ground (arith, g) in
            let step : d + j ≡ d + 1 + (j - 1) = omega (arith, p) in
            let step' : s + 1 + (j - 1) ≡ s + j = omega (arith, p) in
            ap (strncpy (d + 1) (s + 1) n m1) step
            ∙ strncpy-in (d + 1) (s + 1) n m1 (j - 1) (omega (arith, o)) next (omega (arith, p, l))
            ∙ ap m1 step'
            ∙ ground (arith, o, l)
      ])
