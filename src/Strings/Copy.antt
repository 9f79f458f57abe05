-- ===== src/Strings/Copy.antt =====
-- What strlen, strcpy and strcat of libs/string.c do to strings in memory.
use oslab_riscv.Prelude.{
  ℕ, zero, suc, ◌+◌, ◌<◌, ◌≡◌, ◌≢◌, refl, ◌∙◌, ◌⊎◌, inl, true, false, some, List, [], ◌∷◌, length,
  update, ◌==◌, arith,
}
use oslab_riscv.Strings.{strlen_from, strlen, strcpy}

-- The string `s` stands at `p`, with its final NUL.
abbrev pub IsString : ℕ → List ℕ → (ℕ → ℕ) → Type 0
IsString p [] m = m p ≡ 0
IsString p (c ∷ cs) m = (m p ≡ c) × (c ≢ 0) × IsString (p + 1) cs m

-- A write outside of the string leaves it there.
pub IsString-update :
    (p : ℕ) (s : List ℕ) (m : ℕ → ℕ) (d v : ℕ)
    → (d < p) ⊎ (p + length s < d)
    → IsString p s m
    → IsString p s (update m d v)
IsString-update p [] m d v o e = ground arith
IsString-update p (c ∷ cs) m d v o (e, ne, r) =
    (ground arith, ne, IsString-update (p + 1) cs m d v (ground arith) r)

strlen_from-IsString :
    (n p i : ℕ) (s : List ℕ) (m : ℕ → ℕ)
    → IsString (p + i) s m
    → length s < n
    → strlen_from n p i m ≡ some (i + length s)
unfolding strlen_from
strlen_from-IsString zero p i s m v l = absurd (omega arith)
strlen_from-IsString (suc n) p i [] m v l = ground (arith, v)
strlen_from-IsString (suc n) p i (c ∷ cs) m (e, ne, v) l =
    let step : p + i + 1 ≡ p + (i + 1) = omega arith in
    let r = strlen_from-IsString n p (i + 1) cs m (rw (← step) v) (omega arith) in
    let live : (m (p + i) == 0) ≡ false = ground arith in rw live (r ∙ ground arith)

-- On a string, with fuel for its characters, `strlen` returns their number.
pub strlen-IsString :
    (n p : ℕ) (s : List ℕ) (m : ℕ → ℕ)
    → IsString p s m
    → length s < n
    → strlen n p m ≡ some (length s)
unfolding strlen
strlen-IsString n p s m v l =
    let here : p + 0 ≡ p = omega arith in
    strlen_from-IsString n p 0 s m (rw here v) l ∙ ground arith

-- `strcpy` of a string to a place that does not overlap it, with fuel for its characters, makes a
-- copy there and writes nothing else.
pub strcpy-IsString :
    (n dest src : ℕ) (s : List ℕ) (m : ℕ → ℕ)
    → IsString src s m
    → (dest + length s < src) ⊎ (src + length s < dest)
    → length s < n
    → (m' : ℕ → ℕ) × (strcpy n dest src m ≡ some m')
      × IsString dest s m'
      × ((j : ℕ) → (j < dest) ⊎ (dest + length s < j) → m' j ≡ m j)
unfolding strcpy
strcpy-IsString zero dest src s m v o l = absurd (omega arith)
strcpy-IsString (suc n) dest src [] m v o l =
    let ends : (m src == 0) ≡ true = ground (arith, v) in
    (update m dest 0, rw ends refl, ground arith, λ j a. ground arith)
strcpy-IsString (suc n) dest src (c ∷ cs) m (e, ne, v) o l =
    let m1 = update m dest (m src) in
    let live : (m src == 0) ≡ false = ground arith in
    let kept = IsString-update (src + 1) cs m dest (m src) (ground arith) v in
    let (m', r, w, f) =
      strcpy-IsString n (dest + 1) (src + 1) cs m1 kept (ground arith) (omega arith) in
    let first : m' dest ≡ c = f dest (inl (omega arith)) ∙ ground arith in
    (m', rw live r, (first, ne, w), λ j a. f j (ground arith) ∙ ground arith)
