-- ===== src/Loader/Pages.antt =====
-- The pages that load_task_img of kernel/loader/loader.c loads, page by page.
use oslab_riscv.Prelude.{
  ℕ, zero, suc, ◌+◌, ◌-◌, ◌*◌, ◌/◌, ◌%◌, ◌^◌, ◌≤◌, ◌<◌, ◌≡◌, refl, ap, ◌∙◌, ◌⊎◌, inl, inr,
  Bool-cases, Option-cases, true, false, none, some, List, [], ◌∷◌, ltb, arith, subst,
}
use oslab_riscv.Memory.{
  SdCard, Memory, kva2pa, pa2kva, unswapable, clear_words, clear_pgdir, store_word,
}
use oslab_riscv.Memory.Bytes.{get_byte, load_byte}
use oslab_riscv.Memory.Tables.{alloc_page_helper}
use oslab_riscv.Loader.{load_sectors, load_pages}
use oslab_riscv.Loader.Page.{IsSdCard, IsPlan, IsPage, load_sectors-IsPage}

get_byte-zero : (i : ℕ) → get_byte i 0 ≡ 0
unfolding get_byte
get_byte-zero zero = refl
get_byte-zero (suc i) = get_byte-zero i

pub clear_words-out :
    {D : Type 0} (n p q : ℕ) (m : Memory D)
    → (q < p) ⊎ (p + 8 * n ≤ q)
    → (clear_words n p m).words q ≡ m.words q
clear_words-out zero p q m o = refl
clear_words-out (suc n) p q m o =
    clear_words-out n (p + 8) q (store_word p 0 m) (ground arith) ∙ ground arith

clear_words-in :
    {D : Type 0} (n p i : ℕ) (m : Memory D) → i < n → (clear_words n p m).words (p + 8 * i) ≡ 0
clear_words-in zero p i m l = absurd (omega arith)
clear_words-in (suc n) p zero m l =
    clear_words-out n (p + 8) (p + 8 * 0) (store_word p 0 m) (ground arith) ∙ ground arith
clear_words-in (suc n) p (suc i) m l =
    let step : p + 8 * suc i ≡ p + 8 + 8 * i = omega arith in
    rw step (clear_words-in n (p + 8) i (store_word p 0 m) (omega arith))

-- A page that is cleared is all zeros.
pub clear_pgdir-blank :
    {D : Type 0} (kva j : ℕ) (m : Memory D)
    → kva % 4096 ≡ 0
    → j < 4096
    → load_byte (clear_pgdir kva m).words (kva + j) ≡ 0
unfolding load_byte clear_pgdir
clear_pgdir-blank kva j m a l =
    let place : kva + j - (kva + j) % 8 ≡ kva + 8 * (j / 8) = omega (arith, a) in
    ap (λ q. get_byte ((kva + j) % 8) ((clear_words 512 kva m).words q)) place
    ∙ ap (get_byte ((kva + j) % 8)) (clear_words-in 512 kva (j / 8) m (omega arith))
    ∙ get_byte-zero ((kva + j) % 8)

-- The addresses of the pages that the loop is given.
abbrev pub loaded_pages :
    (sd : SdCard) (buffer entry_va filesz offset rounds it block : ℕ) → Memory sd.Disk → List ℕ
loaded_pages sd buffer entry_va filesz offset zero it block m = []
loaded_pages sd buffer entry_va filesz offset (suc n) it block m =
    elim (alloc_page_helper sd ((entry_va + it) % 2 ^ 64) unswapable m) [
      | none ↦ []
      | some (kva, m1) ↦ elim (ltb it filesz) [
        | true ↦
            kva
            ∷ loaded_pages sd buffer entry_va filesz offset n (it + 4096) ((block + 8) % 2 ^ 32)
                (load_sectors sd buffer kva block offset 8 0 (filesz - it) m1)
        | false ↦
            kva
            ∷ loaded_pages sd buffer entry_va filesz offset n (it + 4096) block (clear_pgdir kva m1)
      ]
    ]

-- Each page is aligned and has no byte of the loader's buffer.
abbrev pub AllClear : (buffer : ℕ) → List ℕ → Type 0
AllClear buffer [] = Unit {0}
AllClear buffer (kva ∷ kvas) =
    (kva % 4096 ≡ 0) × ((buffer + 1024 ≤ kva) ⊎ (kva + 4096 ≤ buffer)) × AllClear buffer kvas

module _ (sd : SdCard) (c : IsSdCard sd) (buffer entry_va filesz start : ℕ) where
  -- The pages of an image of `filesz` bytes that starts at byte `start` of the card, from the page at
  -- `it` on: a page within the image is filled from it, and one after it is cleared.
  pub data Loads : ℕ → ℕ → Memory sd.Disk → Memory sd.Disk → Type 0 where
    done : {it : ℕ} {m : Memory sd.Disk} → Loads 0 it m m
    filled :
        {n it kva : ℕ} {m m1 m2 m' : Memory sd.Disk}
        → alloc_page_helper sd ((entry_va + it) % 2 ^ 64) unswapable m ≡ some (kva, m1)
        → it < filesz
        → IsPage buffer kva
            (filesz - it)
            (λ j. c.byte_of m1.disk (start + it + j))
            m1.words
            m2.words
        → Loads n (it + 4096) m2 m'
        → Loads (suc n) it m m'
    cleared :
        {n it kva : ℕ} {m m1 m2 m' : Memory sd.Disk}
        → alloc_page_helper sd ((entry_va + it) % 2 ^ 64) unswapable m ≡ some (kva, m1)
        → filesz ≤ it
        → ((j : ℕ) → j < 4096 → load_byte m2.words (kva + j) ≡ 0)
        → Loads n (it + 4096) m2 m'
        → Loads (suc n) it m m'

  -- The sectors of the page at `it` start with `block`.
  pub load_pages_from :
      (offset n it block : ℕ) (m m' : Memory sd.Disk)
      → pa2kva (kva2pa buffer) ≡ buffer
      → offset < 512
      → start + filesz ≤ 2 ^ 32
      → (it < filesz → 512 * block + offset ≡ start + it)
      → AllClear buffer (loaded_pages sd buffer entry_va filesz offset n it block m)
      → load_pages sd buffer entry_va filesz offset n it block m ≡ some m'
      → Loads n it m m'
  unfolding load_pages
  load_pages_from offset zero it block m m' b o z s a e =
      let same : m ≡ m' = cc e in subst (λ x. Loads 0 it m x) same done
  load_pages_from offset (suc n) it block m m' b o z s a e =
      elim (Option-cases (alloc_page_helper sd ((entry_va + it) % 2 ^ 64) unswapable m)) [
        | inl x ↦ absurd (ground (arith, x, e))
        | inr ((kva, m1), x) ↦ elim (Bool-cases (ltb it filesz)) [
          | inl t ↦
              let l : it < filesz = ground (arith, t) in
              let (al, far, rest) = rw (t, loaded_pages) at (rw (x, loaded_pages, AllClear) at a) in
              let e' = rw (t, load_pages) at (rw (x, load_pages) at e) in
              let plan : IsPlan buffer kva block offset = record {
                mapped = b;
                apart = far;
                sector = omega (arith, s l, z, l, o);
                inside = o;
              } in
              let w = (load_sectors sd buffer kva block offset 8 0 (filesz - it) m1).words in
              let page =
                subst
                  (λ q. IsPage buffer kva (filesz - it) (λ j. c.byte_of m1.disk (q + j)) m1.words w)
                  (s l) (load_sectors-IsPage sd c buffer kva block offset (filesz - it) m1 plan) in
              filled x l page (
                load_pages_from offset n (it + 4096) ((block + 8) % 2 ^ 32) _ m' b o z
                  (λ l'. omega (arith, s l, z, l, l')) rest e')
          | inr f ↦
              let l : filesz ≤ it = ground (arith, f) in
              let (al, far, rest) = rw (f, loaded_pages) at (rw (x, loaded_pages, AllClear) at a) in
              let e' = rw (f, load_pages) at (rw (x, load_pages) at e) in
              cleared x l (λ j g. clear_pgdir-blank kva j m1 al g)
                (load_pages_from offset n (it + 4096) block _ m' b o z
                  (λ l'. absurd (omega (arith, l, l'))) rest e')
        ]
      ]
