-- ===== src/FileSystem/Names/Cut.antt =====
-- What getDir and getSubdir of kernel/fs/fs.c make of a path.
use oslab_riscv.Prelude.{
  ℕ, zero, suc, ◌+◌, ◌≤◌, ◌<◌, ◌≡◌, ◌≢◌, refl, none, some, List, [], ◌∷◌, length, ◌++◌, update,
  arith,
}
use oslab_riscv.Strings.Copy.{IsString, IsString-update}
use oslab_riscv.FileSystem.{d_name}
use oslab_riscv.FileSystem.Names.{cut_from, get_dir, after_nul, get_subdir}

-- Characters that are neither '/' nor the NUL.
pub data IsPart : List ℕ → Type 0 where
  last : IsPart []
  more : {x : ℕ} {xs : List ℕ} → x ≢ 0 → x ≢ b'/' → IsPart xs → IsPart (x ∷ xs)

cut_from-slash :
    (n p : ℕ) (xs ys : List ℕ) (m : ℕ → ℕ)
    → IsPart xs
    → IsString p (xs ++ b'/' ∷ ys) m
    → length xs < n
    → cut_from n p m ≡ some (update m (p + length xs) 0)
unfolding cut_from
cut_from-slash zero p xs ys m w v l = absurd (omega arith)
cut_from-slash (suc n) p [] ys m w (e, ne, v) l =
    let here : p + 0 ≡ p = omega arith in rw (e, cut_from, here) refl
cut_from-slash (suc n) p (x ∷ xs) ys m (more a b w) (e, ne, v) l =
    let rest = cut_from-slash n (p + 1) xs ys m w v (omega arith) in
    let there : p + suc (length xs) ≡ p + 1 + length xs = omega arith in
    rw there (ground (arith, rest, a, b, e))

cut_from-end :
    (n p : ℕ) (xs : List ℕ) (m : ℕ → ℕ)
    → IsPart xs
    → IsString p xs m
    → length xs < n
    → cut_from n p m ≡ some m
unfolding cut_from
cut_from-end zero p xs m w v l = absurd (omega arith)
cut_from-end (suc n) p [] m w e l = rw (e, cut_from) refl
cut_from-end (suc n) p (x ∷ xs) m (more a b w) (e, ne, v) l =
    let rest = cut_from-end n (p + 1) xs m w v (omega arith) in ground (arith, rest, a, b, e)

cut_from_long :
    (n p : ℕ) (xs ys : List ℕ) (m : ℕ → ℕ)
    → IsPart xs
    → IsString p (xs ++ ys) m
    → length xs ≡ n
    → cut_from n p m ≡ none
unfolding cut_from
cut_from_long zero p xs ys m w v l = refl
cut_from_long (suc n) p [] ys m w v l = absurd (omega arith)
cut_from_long (suc n) p (x ∷ xs) ys m (more a b w) (e, ne, v) l =
    let rest = cut_from_long n (p + 1) xs ys m w v (omega arith) in ground (arith, rest, a, b, e)

after_nul-IsString :
    (n p : ℕ) (xs : List ℕ) (m : ℕ → ℕ)
    → IsString p xs m
    → length xs + 1 < n
    → after_nul n p m ≡ some (p + length xs + 1)
unfolding after_nul
after_nul-IsString zero p xs m v l = absurd (omega arith)
after_nul-IsString (suc n) p [] m e l =
    let here : p + 0 ≡ p = omega arith in rw (e, after_nul, here) (ground arith)
after_nul-IsString (suc n) p (x ∷ xs) m (e, ne, v) l =
    let rest = after_nul-IsString n (p + 1) xs m v (omega arith) in
    let there : p + suc (length xs) + 1 ≡ p + 1 + length xs + 1 = omega arith in
    rw there (ground (arith, rest, ne, e))

-- The part before the cut and the part after it.
cut-IsString :
    (p : ℕ) (xs ys : List ℕ) (m : ℕ → ℕ)
    → IsPart xs
    → IsString p (xs ++ b'/' ∷ ys) m
    → IsString p xs (update m (p + length xs) 0)
      × IsString (p + length xs + 1) ys (update m (p + length xs) 0)
cut-IsString p [] ys m w (e, ne, v) =
    let here : p + 0 ≡ p = omega arith in
    rw here (ground arith, IsString-update (p + 1) ys m p 0 (ground arith) v)
cut-IsString p (x ∷ xs) ys m (more a b w) (e, ne, v) =
    let (left, right) = cut-IsString (p + 1) xs ys m w v in
    let there : p + suc (length xs) ≡ p + 1 + length xs = omega arith in
    rw there ((ground arith, ne, left), right)

-- On a path whose first component, of at most 22 characters, ends in '/', `getDir` cuts the path
-- there: the first component is then a string where the path was, and `getSubdir` returns the place
-- of the rest of the path; nothing but the '/' is written.
pub get_subdir-splits :
    (p : ℕ) (xs ys : List ℕ) (m : ℕ → ℕ)
    → IsPart xs
    → IsString p (xs ++ b'/' ∷ ys) m
    → length xs ≤ 22
    → (m' : ℕ → ℕ) × (get_dir p m ≡ some m')
      × (get_subdir p m' ≡ some (p + length xs + 1))
      × IsString p xs m'
      × IsString (p + length xs + 1) ys m'
      × ((j : ℕ) → j ≢ p + length xs → m' j ≡ m j)
unfolding get_dir get_subdir
get_subdir-splits p xs ys m w v l =
    let m' = update m (p + length xs) 0 in
    let (left, right) = cut-IsString p xs ys m w v in
    (
      m',
      cut_from-slash d_name p xs ys m w v (omega arith),
      after_nul-IsString d_name p xs m' left (omega arith),
      left,
      right,
      λ j ne. ground arith,
    )

-- On a last component of at most 22 characters `getDir` changes nothing, and `getSubdir` returns the
-- place after the NUL that ends the path, which is no longer part of it.
pub get_subdir-beyond :
    (p : ℕ) (xs : List ℕ) (m : ℕ → ℕ)
    → IsPart xs
    → IsString p xs m
    → length xs ≤ 22
    → (get_dir p m ≡ some m) × (get_subdir p m ≡ some (p + length xs + 1)) × (m (p + length xs) ≡ 0)
unfolding get_dir get_subdir
get_subdir-beyond p xs m w v l = (
  cut_from-end d_name p xs m w v (omega arith),
  after_nul-IsString d_name p xs m v (omega arith),
  ends p xs v,
)
  where
    ends : (p : ℕ) (xs : List ℕ) → IsString p xs m → m (p + length xs) ≡ 0
    ends p [] e = let here : p + 0 ≡ p = omega arith in rw here e
    ends p (x ∷ xs) (e, ne, v) =
        let there : p + suc (length xs) ≡ p + 1 + length xs = omega arith in
        rw there (ends (p + 1) xs v)

-- On a path that has no '/' in its first 24 characters `getDir` returns the null pointer.
pub get_dir_long :
    (p : ℕ) (xs ys : List ℕ) (m : ℕ → ℕ)
    → IsPart xs
    → IsString p (xs ++ ys) m
    → length xs ≡ 24
    → get_dir p m ≡ none
unfolding get_dir
get_dir_long p xs ys m w v l = cut_from_long d_name p xs ys m w v l
