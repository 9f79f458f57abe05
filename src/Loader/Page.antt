-- ===== src/Loader/Page.antt =====
-- What load_task_img of kernel/loader/loader.c leaves in a page.
use oslab_riscv.Prelude.{
  ℕ, zero, suc, ◌+◌, ◌-◌, ◌*◌, ◌%◌, ◌^◌, ◌≤◌, ◌<◌, ◌≡◌, ◌≢◌, refl, sym, ap, ◌∙◌, ◌⊎◌, inl, inr, min,
  Bool-cases, ◌==◌, ltb, arith,
}
use oslab_riscv.Memory.{SdCard, Memory, kva2pa, pa2kva}
use oslab_riscv.Memory.Bytes.{
  load_byte, fill_mem, copy_mem-in, copy_mem-out, fill_mem-in, fill_mem-out,
}
use oslab_riscv.Loader.{load_sector, load_sectors}

-- What the loader relies on: a read puts the bytes of the sectors at the address, and nothing else.
pub record IsSdCard (sd : SdCard) : Type 0 where
  pub byte_of : sd.Disk → ℕ → ℕ
  pub read_in :
      (d : sd.Disk) (pa n s : ℕ) (w : ℕ → ℕ) (j : ℕ)
      → j < 512 * n
      → load_byte (sd.sd_read d pa n s w) (pa2kva pa + j) ≡ byte_of d (512 * s + j)
  pub read_out :
      (d : sd.Disk) (pa n s : ℕ) (w : ℕ → ℕ) (p : ℕ)
      → (p < pa2kva pa) ⊎ (pa2kva pa + 512 * n ≤ p)
      → load_byte (sd.sd_read d pa n s w) p ≡ load_byte w p

-- Where the buffer stands, and where the bytes of the page start in the image.
pub record IsPlan (buffer kva block offset : ℕ) : Type 0 where
  pub mapped : pa2kva (kva2pa buffer) ≡ buffer
  pub apart : (buffer + 1024 ≤ kva) ⊎ (kva + 4096 ≤ buffer)
  pub sector : block + 8 ≤ 2 ^ 32
  pub inside : offset < 512

-- `from` is the position in the page, and `byte` what the image holds from there on: up to `left` it is
-- in the page, and after it there are zeros, or what was there if `left` is a multiple of the sector's
-- size.
pub record IsFilled (buffer kva from left : ℕ) (byte w w' : ℕ → ℕ) : Type 0 where
  pub image : (j : ℕ) → from + j < 4096 → j < left → load_byte w' (kva + from + j) ≡ byte j
  pub blank :
      (j : ℕ) → from + j < 4096 → left ≤ j → left % 512 ≢ 0 → load_byte w' (kva + from + j) ≡ 0
  pub stale :
      (j : ℕ)
      → from + j < 4096
      → left ≤ j
      → left % 512 ≡ 0
      → load_byte w' (kva + from + j) ≡ load_byte w (kva + from + j)
  pub outside :
      (p : ℕ)
      → (p < kva + from) ⊎ (kva + 4096 ≤ p)
      → (p < buffer) ⊎ (buffer + 1024 ≤ p)
      → load_byte w' p ≡ load_byte w p

-- The same of a whole page.
pub record IsPage (buffer kva left : ℕ) (byte w w' : ℕ → ℕ) : Type 0 where
  pub image : (j : ℕ) → j < 4096 → j < left → load_byte w' (kva + j) ≡ byte j
  pub blank : (j : ℕ) → j < 4096 → left ≤ j → left % 512 ≢ 0 → load_byte w' (kva + j) ≡ 0
  pub stale :
      (j : ℕ)
      → j < 4096
      → left ≤ j
      → left % 512 ≡ 0
      → load_byte w' (kva + j) ≡ load_byte w (kva + j)
  pub outside :
      (p : ℕ)
      → (p < kva) ⊎ (kva + 4096 ≤ p)
      → (p < buffer) ⊎ (buffer + 1024 ≤ p)
      → load_byte w' p ≡ load_byte w p

module _ (sd : SdCard) (c : IsSdCard sd) (buffer kva block offset : ℕ) where
  -- The bytes of the card from the image's start on.
  abbrev pub image_byte : Memory sd.Disk → ℕ → ℕ
  image_byte m j = c.byte_of m.disk (512 * block + offset + j)

  load_sector-in :
      (k left j : ℕ) (m : Memory sd.Disk)
      → IsPlan buffer kva block offset
      → k < 8
      → j < 512
      → j < left
      → load_byte (load_sector sd buffer kva block offset k left m).words (kva + k * 512 + j)
        ≡ image_byte m (k * 512 + j)
  unfolding load_sector
  load_sector-in k left j m v a b l =
      let read = sd.sd_read m.disk (kva2pa buffer) 2 ((block + k) % 2 ^ 32) m.words in
      let place : buffer + offset + j ≡ pa2kva (kva2pa buffer) + (offset + j) =
        omega (arith, v.mapped) in
      let there : 512 * ((block + k) % 2 ^ 32) + (offset + j)
          ≡ 512 * block + offset + (k * 512 + j) =
        omega (arith, v.sector, a) in
      copy_mem-in (kva + k * 512) (buffer + offset) (min 512 left) read j
        (ground (arith, v.apart, v.inside, a)) (omega (arith, b, l))
      ∙ ap (load_byte read) place
      ∙ c.read_in m.disk (kva2pa buffer) 2 ((block + k) % 2 ^ 32) m.words (offset + j)
          (omega (arith, v.inside, b))
      ∙ ap (c.byte_of m.disk) there

  load_sector-out :
      (k left p : ℕ) (m : Memory sd.Disk)
      → IsPlan buffer kva block offset
      → (p < kva + k * 512) ⊎ (kva + k * 512 + min 512 left ≤ p)
      → (p < buffer) ⊎ (buffer + 1024 ≤ p)
      → load_byte (load_sector sd buffer kva block offset k left m).words p ≡ load_byte m.words p
  unfolding load_sector
  load_sector-out k left p m v o b =
      let read = sd.sd_read m.disk (kva2pa buffer) 2 ((block + k) % 2 ^ 32) m.words in
      let far : (p < pa2kva (kva2pa buffer)) ⊎ (pa2kva (kva2pa buffer) + 512 * 2 ≤ p) =
        ground (arith, b, v.mapped) in
      copy_mem-out (kva + k * 512) (buffer + offset) (min 512 left) read p o
      ∙ c.read_out m.disk (kva2pa buffer) 2 ((block + k) % 2 ^ 32) m.words p far

  -- The last, incomplete sector.
  IsFilled-last :
      (k left : ℕ) (m : Memory sd.Disk)
      → IsPlan buffer kva block offset
      → k < 8
      → 0 < left
      → left < 512
      → let w = (load_sector sd buffer kva block offset k left m).words in
        IsFilled buffer kva
          (k * 512)
          left
          (λ j. image_byte m (k * 512 + j))
          m.words
          (fill_mem (kva + k * 512 + left) 0 (4096 - k * 512 - left) w)
  IsFilled-last k left m v a p l =
      let w = (load_sector sd buffer kva block offset k left m).words in
      let start = kva + k * 512 + left in
      let n = 4096 - k * 512 - left in
      record {
        image = λ j b i.
            fill_mem-out start 0 n w (kva + k * 512 + j) (ground arith)
            ∙ load_sector-in k left j m v a (omega arith) i;
        blank = λ j b i z.
            let place : kva + k * 512 + j ≡ start + (j - left) = omega (arith, i) in
            ap (load_byte (fill_mem start 0 n w)) place
            ∙ fill_mem-in start 0 n w (j - left) (omega (arith, b, i));
        stale = λ j b i z. absurd (omega (arith, p, l, z));
        outside = λ q o b.
            fill_mem-out start 0 n w q (ground (arith, o, a))
            ∙ load_sector-out k left q m v (ground (arith, o, a)) b;
      }

  -- A whole sector, and what follows it.
  IsFilled-step :
      (k left : ℕ) (m : Memory sd.Disk) (w' : ℕ → ℕ)
      → IsPlan buffer kva block offset
      → k < 8
      → 512 ≤ left
      → let w = (load_sector sd buffer kva block offset k left m).words in
        IsFilled buffer kva
          ((k + 1) * 512)
          (left - 512)
          (λ j. image_byte m ((k + 1) * 512 + j))
          w
          w'
        → IsFilled buffer kva (k * 512) left (λ j. image_byte m (k * 512 + j)) m.words w'
  IsFilled-step k left m w' v a l f =
      let far : (j : ℕ) → 512 ≤ j → kva + k * 512 + j ≡ kva + (k + 1) * 512 + (j - 512) =
        λ j b. omega (arith, b) in
      record {
        image = λ j b i. elim (Bool-cases (ltb j 512)) [
          | inl t ↦
              f.outside (kva + k * 512 + j) (ground (arith, t)) (ground (arith, v.apart, b))
              ∙ load_sector-in k left j m v a (ground (arith, t)) i
          | inr e ↦
              let g : 512 ≤ j = ground (arith, e) in
              let same : (k + 1) * 512 + (j - 512) ≡ k * 512 + j = omega (arith, g) in
              ap (load_byte w') (far j g)
              ∙ f.image (j - 512) (omega (arith, g, b)) (omega (arith, g, i))
              ∙ ap (image_byte m) same
        ];
        blank = λ j b i z.
            let g : 512 ≤ j = omega (arith, l, i) in
            ap (load_byte w') (far j g)
            ∙ f.blank (j - 512) (omega (arith, g, b)) (omega (arith, g, i))
                (λ e. z (omega (arith, l, e)));
        stale = λ j b i z.
            let g : 512 ≤ j = omega (arith, l, i) in
            ap (load_byte w') (far j g)
            ∙ f.stale (j - 512) (omega (arith, g, b)) (omega (arith, g, i)) (omega (arith, l, z))
            ∙ sym (ap (load_byte (load_sector sd buffer kva block offset k left m).words) (far j g))
            ∙ load_sector-out k left (kva + k * 512 + j) m v (ground (arith, g))
                (ground (arith, v.apart, b));
        outside = λ p o b.
            f.outside p (ground (arith, o)) b
            ∙ load_sector-out k left p m v (ground (arith, o, a)) b;
      }

  load_sectors_from :
      (n k left : ℕ) (m : Memory sd.Disk)
      → IsPlan buffer kva block offset
      → k + n ≡ 8
      → IsFilled buffer kva
          (k * 512)
          left
          (λ j. image_byte m (k * 512 + j))
          m.words
          (load_sectors sd buffer kva block offset n k left m).words
  unfolding load_sectors load_sector
  load_sectors_from zero k left m v e = record {
    image = λ j b i. absurd (omega arith);
    blank = λ j b i z. absurd (omega arith);
    stale = λ j b i z. refl;
    outside = λ p o b. refl;
  }
  load_sectors_from (suc n) k left m v e = elim (Bool-cases (left == 0)) [
    | inl t ↦
        rw (t, load_sectors)
          (record {
            image = λ j b i. absurd (ground (arith, t));
            blank = λ j b i z. absurd (ground (arith, t, z));
            stale = λ j b i z. refl;
            outside = λ p o b. refl;
          })
    | inr f ↦ elim (Bool-cases (ltb left 512)) [
      | inl t ↦
          rw (f, load_sectors)
            (rw (t, load_sectors)
              (IsFilled-last k left m v (omega arith) (ground (arith, f)) (ground (arith, t))))
      | inr g ↦
          rw (f, load_sectors)
            (rw (g, load_sectors)
              (IsFilled-step k left m _ v (omega arith) (ground (arith, g))
                (load_sectors_from n (k + 1) (left - 512) _ v (omega arith))))
    ]
  ]

  -- One page of the loop: 8 sectors from its start.
  pub load_sectors-IsPage :
      (left : ℕ) (m : Memory sd.Disk)
      → IsPlan buffer kva block offset
      → IsPage buffer kva left
          (image_byte m)
          m.words
          (load_sectors sd buffer kva block offset 8 0 left m).words
  load_sectors-IsPage left m v =
      let f = load_sectors_from 8 0 left m v refl in
      let w = (load_sectors sd buffer kva block offset 8 0 left m).words in
      let place : (j : ℕ) → kva + j ≡ kva + 0 * 512 + j = λ j. omega arith in
      record {
        image = λ j b l.
            ap (load_byte w) (place j)
            ∙ f.image j (omega (arith, b)) l
            ∙ ap (image_byte m) (omega arith);
        blank = λ j b l z. ap (load_byte w) (place j) ∙ f.blank j (omega (arith, b)) l z;
        stale = λ j b l z.
            ap (load_byte w) (place j)
            ∙ f.stale j (omega (arith, b)) l z
            ∙ sym (ap (load_byte m.words) (place j));
        outside = λ p o b. f.outside p (ground (arith, o)) b;
      }
