-- ===== src/Loader/Final.antt =====
-- What the pages that load_task_img of kernel/loader/loader.c has loaded hold when it returns: a page
-- keeps its bytes while the later ones are loaded.
use oslab_riscv.Prelude.{
  ℕ, zero, suc, ◌+◌, ◌-◌, ◌*◌, ◌%◌, ◌^◌, ◌≤◌, ◌<◌, ◌≡◌, ◌≢◌, refl, ap, ◌∙◌, ◌⊎◌, inl, inr,
  Bool-cases, Option-cases, true, false, none, some, List, [], ◌∷◌, ltb, ◌==◌, arith, subst,
}
use oslab_riscv.Memory.{
  SdCard, Memory, kva2pa, pa2kva, unswapable, clear_words, clear_pgdir, store_word,
}
use oslab_riscv.Memory.Bytes.{get_byte, load_byte}
use oslab_riscv.Memory.Tables.{alloc_page_helper}
use oslab_riscv.Loader.{load_sector, load_sectors, load_pages}
use oslab_riscv.Loader.Page.{IsSdCard, IsPlan, IsPage, load_sectors-IsPage}
use oslab_riscv.Loader.Pages.{AllClear, loaded_pages, clear_words-out, clear_pgdir-blank}

load_sectors-disk :
    (sd : SdCard) (buffer kva block offset n k left : ℕ) (m : Memory sd.Disk)
    → (load_sectors sd buffer kva block offset n k left m).disk ≡ m.disk
unfolding load_sectors load_sector
load_sectors-disk sd buffer kva block offset zero k left m = refl
load_sectors-disk sd buffer kva block offset (suc n) k left m =
    let m1 = load_sector sd buffer kva block offset k left m in
    let ih = load_sectors-disk sd buffer kva block offset n (k + 1) (left - 512) m1 in
    elim (Bool-cases (left == 0)) [
      | inl e ↦ rw (e, load_sectors) refl
      | inr e ↦ elim (Bool-cases (ltb left 512)) [
        | inl f ↦ rw (e, load_sectors) (rw f refl)
        | inr f ↦ rw (e, load_sectors) (rw f ih)
      ]
    ]

clear_words-disk : {D : Type 0} (n p : ℕ) (m : Memory D) → (clear_words n p m).disk ≡ m.disk
clear_words-disk zero p m = refl
clear_words-disk (suc n) p m = clear_words-disk n (p + 8) (store_word p 0 m)

clear_pgdir-disk : {D : Type 0} (kva : ℕ) (m : Memory D) → (clear_pgdir kva m).disk ≡ m.disk
unfolding clear_pgdir
clear_pgdir-disk kva m = clear_words-disk 512 kva m

clear_pgdir-outside :
    {D : Type 0} (kva p : ℕ) (m : Memory D)
    → kva % 4096 ≡ 0
    → (p < kva) ⊎ (kva + 4096 ≤ p)
    → load_byte (clear_pgdir kva m).words p ≡ load_byte m.words p
unfolding load_byte clear_pgdir
clear_pgdir-outside kva p m a o =
    ap (get_byte (p % 8)) (clear_words-out 512 kva (p - p % 8) m (ground (arith, a, o)))

-- The same words in a page, so the same bytes.
same_bytes :
    (p j : ℕ) (w w' : ℕ → ℕ)
    → p % 4096 ≡ 0
    → j < 4096
    → ((q : ℕ) → p ≤ q → q < p + 4096 → w' q ≡ w q)
    → load_byte w' (p + j) ≡ load_byte w (p + j)
unfolding load_byte
same_bytes p j w w' a l f =
    ap (get_byte ((p + j) % 8)) (f (p + j - (p + j) % 8) (omega (arith, a)) (omega (arith, l)))

-- Taking the page `kva` leaves the words of the pages `ps` as they are, and it is none of them.
abbrev pub AllApart : {D : Type 0} → List ℕ → (kva : ℕ) (m m1 : Memory D) → Type 0
AllApart [] kva m m1 = Unit {0}
AllApart (p ∷ ps) kva m m1 =
    ((p + 4096 ≤ kva) ⊎ (kva + 4096 ≤ p))
    × ((q : ℕ) → p ≤ q → q < p + 4096 → m1.words q ≡ m.words q)
    × AllApart ps kva m m1

-- The pages `ps` hold the same bytes.
abbrev pub AllKept : List ℕ → (w w' : ℕ → ℕ) → Type 0
AllKept [] w w' = Unit {0}
AllKept (p ∷ ps) w w' =
    ((j : ℕ) → j < 4096 → load_byte w' (p + j) ≡ load_byte w (p + j)) × AllKept ps w w'

AllKept-refl : (ps : List ℕ) (w : ℕ → ℕ) → AllKept ps w w
AllKept-refl [] w = tt
AllKept-refl (p ∷ ps) w = (λ j l. refl, AllKept-refl ps w)

AllKept-trans : (ps : List ℕ) (a b c : ℕ → ℕ) → AllKept ps a b → AllKept ps b c → AllKept ps a c
AllKept-trans [] a b c x y = tt
AllKept-trans (p ∷ ps) a b c x y = (λ j l. y.0 j l ∙ x.0 j l, AllKept-trans ps a b c x.1 y.1)

-- Filling or clearing the page `kva` after it was taken keeps them.
AllApart-AllKept :
    {D : Type 0} (buffer : ℕ) (ps : List ℕ) (kva : ℕ) (m m1 : Memory D) (w : ℕ → ℕ)
    → AllClear buffer ps
    → AllApart ps kva m m1
    → ((p : ℕ)
        → (p < kva) ⊎ (kva + 4096 ≤ p)
        → (p < buffer) ⊎ (buffer + 1024 ≤ p)
        → load_byte w p ≡ load_byte m1.words p)
    → AllKept ps m.words w
AllApart-AllKept buffer [] kva m m1 w a x f = tt
AllApart-AllKept buffer (p ∷ ps) kva m m1 w (al, far, a) (o, same, x) f = (
  λ j l.
      f (p + j) (ground (arith, o, l)) (ground (arith, far, l))
      ∙ same_bytes p j m.words m1.words al l same,
  AllApart-AllKept buffer ps kva m m1 w a x f,
)

module _ (sd : SdCard) (c : IsSdCard sd) (buffer entry_va filesz start : ℕ) where
  -- Taking a page, in every round, writes to none of the pages taken before, which are `ps` at first,
  -- nor to the image on the card.
  abbrev pub Undisturbed : (ps : List ℕ) (offset rounds it block : ℕ) → Memory sd.Disk → Type 0
  Undisturbed ps offset zero it block m = Unit {0}
  Undisturbed ps offset (suc n) it block m =
      elim (alloc_page_helper sd ((entry_va + it) % 2 ^ 64) unswapable m) [
        | none ↦ Unit {0}
        | some (kva, m1) ↦
            AllApart ps kva m m1
            × ((j : ℕ) → j < filesz → c.byte_of m1.disk (start + j) ≡ c.byte_of m.disk (start + j))
            × (elim (ltb it filesz) [
              | true ↦
                  Undisturbed (kva ∷ ps) offset n (it + 4096) ((block + 8) % 2 ^ 32)
                    (load_sectors sd buffer kva block offset 8 0 (filesz - it) m1)
              | false ↦ Undisturbed (kva ∷ ps) offset n (it + 4096) block (clear_pgdir kva m1)
            ])
      ]

  -- The page `kva` holds the bytes of the image from `it` on, and zeros after them, if the image ends
  -- before the page or its size is not a multiple of 512.
  pub record HoldsPage (byte : ℕ → ℕ) (kva it : ℕ) (w : ℕ → ℕ) : Type 0 where
    pub image :
        (j : ℕ) → j < 4096 → it + j < filesz → load_byte w (kva + j) ≡ byte (start + (it + j))
    pub blank :
        (j : ℕ)
        → j < 4096
        → filesz ≤ it + j
        → (filesz ≤ it) ⊎ (filesz % 512 ≢ 0)
        → load_byte w (kva + j) ≡ 0

  abbrev pub Holds : (byte : ℕ → ℕ) → List ℕ → (it : ℕ) (w : ℕ → ℕ) → Type 0
  Holds byte [] it w = Unit {0}
  Holds byte (kva ∷ kvas) it w = HoldsPage byte kva it w × Holds byte kvas (it + 4096) w

  -- What holds of the page once it is loaded holds in the end.
  HoldsPage-kept :
      (byte : ℕ → ℕ) (kva it : ℕ) (w w' : ℕ → ℕ)
      → HoldsPage byte kva it w
      → ((j : ℕ) → j < 4096 → load_byte w' (kva + j) ≡ load_byte w (kva + j))
      → HoldsPage byte kva it w'
  HoldsPage-kept byte kva it w w' h k = record {
    image = λ j a b. k j a ∙ h.image j a b;
    blank = λ j a b o. k j a ∙ h.blank j a b o;
  }

  IsPage-HoldsPage :
      (byte : ℕ → ℕ) (d : sd.Disk) (kva it : ℕ) (w w' : ℕ → ℕ)
      → it % 4096 ≡ 0
      → it < filesz
      → ((j : ℕ) → j < filesz → c.byte_of d (start + j) ≡ byte (start + j))
      → IsPage buffer kva (filesz - it) (λ j. c.byte_of d (start + it + j)) w w'
      → HoldsPage byte kva it w'
  IsPage-HoldsPage byte d kva it w w' a l f p = record {
    image = λ j x y.
        let there : start + it + j ≡ start + (it + j) = omega arith in
        p.image j x (omega (arith, y)) ∙ ap (c.byte_of d) there ∙ f (it + j) y;
    blank = λ j x y o. p.blank j x (omega (arith, y)) (λ z. ground (arith, o, l, a, z));
  }

  pub load_pages-Holds :
      (byte : ℕ → ℕ) (ps : List ℕ) (offset n it block : ℕ) (m m' : Memory sd.Disk)
      → pa2kva (kva2pa buffer) ≡ buffer
      → offset < 512
      → start + filesz ≤ 2 ^ 32
      → it % 4096 ≡ 0
      → (it < filesz → 512 * block + offset ≡ start + it)
      → AllClear buffer ps
      → AllClear buffer (loaded_pages sd buffer entry_va filesz offset n it block m)
      → Undisturbed ps offset n it block m
      → ((j : ℕ) → j < filesz → c.byte_of m.disk (start + j) ≡ byte (start + j))
      → load_pages sd buffer entry_va filesz offset n it block m ≡ some m'
      → Holds byte (loaded_pages sd buffer entry_va filesz offset n it block m) it m'.words
        × AllKept ps m.words m'.words
  unfolding load_pages
  load_pages-Holds byte ps offset zero it block m m' b o z g s cl a u d e =
      let same : m ≡ m' = cc e in
      (tt, subst (λ x. AllKept ps m.words x.words) same (AllKept-refl ps m.words))
  load_pages-Holds byte ps offset (suc n) it block m m' b o z g s cl a u d e =
      elim (Option-cases (alloc_page_helper sd ((entry_va + it) % 2 ^ 64) unswapable m)) [
        | inl x ↦ absurd (ground (arith, x, e))
        | inr ((kva, m1), x) ↦ elim (Bool-cases (ltb it filesz)) [
          | inl t ↦
              let l : it < filesz = ground (arith, t) in
              let (al, far, rest) = rw (t, loaded_pages) at (rw (x, loaded_pages, AllClear) at a) in
              let (ap1, dk, u') = rw (t, Undisturbed) at (rw (x, Undisturbed) at u) in
              let e' = rw (t, load_pages) at (rw (x, load_pages) at e) in
              let plan : IsPlan buffer kva block offset = record {
                mapped = b;
                apart = far;
                sector = omega (arith, s l, z, l, o);
                inside = o;
              } in
              let m2 = load_sectors sd buffer kva block offset 8 0 (filesz - it) m1 in
              let page =
                subst
                  (λ q.
                    IsPage buffer kva (filesz - it) (λ j. c.byte_of m1.disk (q + j)) m1.words
                      m2.words)
                  (s l) (load_sectors-IsPage sd c buffer kva block offset (filesz - it) m1 plan) in
              let disk = load_sectors-disk sd buffer kva block offset 8 0 (filesz - it) m1 in
              let (h, k) =
                load_pages-Holds byte (kva ∷ ps) offset n (it + 4096) ((block + 8) % 2 ^ 32) m2 m' b
                  o z (omega (arith, g)) (λ l'. omega (arith, s l, z, l, l')) (al, far, cl) rest u'
                  (λ j y. ap (λ r. c.byte_of r (start + j)) disk ∙ dk j y ∙ d j y) e' in
              let here =
                IsPage-HoldsPage byte m1.disk kva it m1.words m2.words g l (λ j y. dk j y ∙ d j y)
                  page in
              let kept = AllApart-AllKept buffer ps kva m m1 m2.words cl ap1 page.outside in
              rw (x, loaded_pages)
                (rw (t, loaded_pages)
                  (
                    (HoldsPage-kept byte kva it m2.words m'.words here k.0, h),
                    AllKept-trans ps m.words m2.words m'.words kept k.1,
                  ))
          | inr f ↦
              let l : filesz ≤ it = ground (arith, f) in
              let (al, far, rest) = rw (f, loaded_pages) at (rw (x, loaded_pages, AllClear) at a) in
              let (ap1, dk, u') = rw (f, Undisturbed) at (rw (x, Undisturbed) at u) in
              let e' = rw (f, load_pages) at (rw (x, load_pages) at e) in
              let m2 = clear_pgdir kva m1 in
              let (h, k) =
                load_pages-Holds byte (kva ∷ ps) offset n (it + 4096) block m2 m' b o z
                  (omega (arith, g)) (λ l'. absurd (omega (arith, l, l'))) (al, far, cl) rest u'
                  (λ j y.
                    ap (λ r. c.byte_of r (start + j)) (clear_pgdir-disk kva m1) ∙ dk j y ∙ d j y)
                  e' in
              let here : HoldsPage byte kva it m2.words = record {
                image = λ j y w. absurd (omega (arith, l, w));
                blank = λ j y w o. clear_pgdir-blank kva j m1 al y;
              } in
              let kept =
                AllApart-AllKept buffer ps kva m m1 m2.words cl ap1
                  (λ p y w. clear_pgdir-outside kva p m1 al y) in
              rw (x, loaded_pages)
                (rw (f, loaded_pages)
                  (
                    (HoldsPage-kept byte kva it m2.words m'.words here k.0, h),
                    AllKept-trans ps m.words m2.words m'.words kept k.1,
                  ))
        ]
      ]
