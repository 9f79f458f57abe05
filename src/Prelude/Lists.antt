-- ===== src/Prelude/Lists.antt =====
-- Lists measured, indexed and counted by native numbers, under the library's names.
use Prim.Native.Nat.{ℕ, zero, suc, ◌+◌, ◌≤◌}
use mathlib.Core.Path.{◌≡◌, refl}
use mathlib.Core.Logic.{◌≢◌}
use mathlib.Core.List.{List, [], ◌∷◌, ◌++◌}
use native.Mathlib.Omega.{arith}
use oslab_riscv.Prelude.Tests.{◌==◌, if◌then◌else◌}

module _ {ℓ} {A : Type ℓ} where
  abbrev pub length : List A → ℕ
  length [] = 0
  length (x ∷ xs) = suc (length xs)

  abbrev pub get_or : List A → ℕ → A → A
  get_or [] i d = d
  get_or (x ∷ xs) zero d = x
  get_or (x ∷ xs) (suc i) d = get_or xs i d

  pub length-append : (xs ys : List A) → length (xs ++ ys) ≡ length xs + length ys
  length-append [] ys = omega arith
  length-append (x ∷ xs) ys = omega (arith, length-append xs ys)

-- How often `a` occurs.
abbrev pub count : (h : ℕ) (hs : List ℕ) → ℕ
count h [] = 0
count h (g ∷ hs) = count h hs + (if g == h then 1 else 0)

-- The list without the occurrences of `a`.
abbrev pub remove : ℕ → List ℕ → List ℕ
remove a [] = []
remove a (x ∷ xs) = if x == a then remove a xs else x ∷ remove a xs

pub count-append :
    (h : ℕ) (front back : List ℕ) → count h (front ++ back) ≡ count h front + count h back
count-append h [] back = omega arith
count-append h (g ∷ front) back = ground (arith, count-append h front back)

pub count-remove_self : (a : ℕ) (xs : List ℕ) → count a (remove a xs) ≡ 0
count-remove_self a [] = refl
count-remove_self a (x ∷ xs) = ground (arith, count-remove_self a xs)

pub count-remove_ne : (a b : ℕ) (xs : List ℕ) → a ≢ b → count b (remove a xs) ≡ count b xs
count-remove_ne a b [] h = refl
count-remove_ne a b (x ∷ xs) h = ground (arith, count-remove_ne a b xs h)

pub count-remove-le : (a b : ℕ) (xs : List ℕ) → count b (remove a xs) ≤ count b xs
count-remove-le a b [] = omega arith
count-remove-le a b (x ∷ xs) = ground (arith, count-remove-le a b xs)

pub remove_of_count_zero : (a : ℕ) (xs : List ℕ) → count a xs ≡ 0 → remove a xs ≡ xs
remove_of_count_zero a [] h = refl
remove_of_count_zero a (x ∷ xs) h = ground (arith, remove_of_count_zero a xs)

pub remove-append : (a : ℕ) (xs ys : List ℕ) → remove a (xs ++ ys) ≡ remove a xs ++ remove a ys
remove-append a [] ys = refl
remove-append a (x ∷ xs) ys = ground (arith, remove-append a xs ys)

pub length-remove-le : (a : ℕ) (xs : List ℕ) → length (remove a xs) ≤ length xs
length-remove-le a [] = omega arith
length-remove-le a (x ∷ xs) = ground (arith, length-remove-le a xs)
