-- ===== src/ImageTool/Writing.antt =====
-- What the loops of tools/createimage.c that write to the image leave in it.
use oslab_riscv.Prelude.{
  ℕ, zero, suc, ◌+◌, ◌-◌, ◌%◌, ◌≤◌, ◌<◌, ◌≡◌, ◌≢◌, refl, ap, ◌∙◌, inl, inr, Bool-cases, ◌==◌, ltb,
  if◌then◌else◌, arith,
}
use oslab_riscv.ImageTool.{InputFile, Build, put_next, copy_segment, pad}

-- The next byte goes to the end of the file, which is `phyaddr`.
pub record AtEnd (b : Build) : Type 0 where
  pub place : b.img.place ≡ b.phyaddr
  pub size : b.img.size ≡ b.phyaddr

-- The `n` bytes of `f` have been added to the image, and nothing before them has changed, nor the
-- beginning of task `t`, nor any other task.
pub record Appends (t n : ℕ) (f : ℕ → ℕ) (b b' : Build) : Type 0 where
  pub at_end : AtEnd b'
  pub grown : b'.phyaddr ≡ b.phyaddr + n
  pub added : (j : ℕ) → j < n → b'.img.bytes (b.phyaddr + j) ≡ f j % 256
  pub kept : (p : ℕ) → p < b.phyaddr → b'.img.bytes p ≡ b.img.bytes p
  pub others : (i : ℕ) → i ≢ t → b'.taskinfo i ≡ b.taskinfo i
  pub block : (b'.taskinfo t).begin_block ≡ (b.taskinfo t).begin_block
  pub offset : (b'.taskinfo t).begin_offset ≡ (b.taskinfo t).begin_offset

pub Appends-none : (t : ℕ) (f : ℕ → ℕ) (b : Build) → AtEnd b → Appends t 0 f b b
Appends-none t f b e = record {
  at_end = e;
  grown = omega arith;
  added = λ j l. absurd (omega arith);
  kept = λ p l. refl;
  others = λ i ne. refl;
  block = refl;
  offset = refl;
}

abbrev pub joined : ℕ → (ℕ → ℕ) → (ℕ → ℕ) → ℕ → ℕ
joined n f g j = if ltb j n then f j else g (j - n)

pub Appends-trans :
    (t n m : ℕ) (f g : ℕ → ℕ) (b b' b'' : Build)
    → Appends t n f b b'
    → Appends t m g b' b''
    → Appends t (n + m) (joined n f g) b b''
Appends-trans t n m f g b b' b'' x y = record {
  at_end = y.at_end;
  grown = omega (arith, x.grown, y.grown);
  added = λ j l. elim (Bool-cases (ltb j n)) [
    | inl t ↦
        let k : j < n = ground (arith, t) in
        y.kept (b.phyaddr + j) (omega (arith, x.grown, k)) ∙ x.added j k ∙ ground (arith, t)
    | inr e ↦
        let k : n ≤ j = ground (arith, e) in
        let place : b.phyaddr + j ≡ b'.phyaddr + (j - n) = omega (arith, x.grown, k) in
        ap b''.img.bytes place ∙ y.added (j - n) (omega (arith, k, l)) ∙ ground (arith, e)
  ];
  kept = λ p l. y.kept p (omega (arith, x.grown, l)) ∙ x.kept p l;
  others = λ i ne. y.others i ne ∙ x.others i ne;
  block = y.block ∙ x.block;
  offset = y.offset ∙ x.offset;
}

put_next-AtEnd : (c : ℕ) (b : Build) → AtEnd b → AtEnd (put_next c b)
put_next-AtEnd c b e = record {
  place = omega (arith, e.place);
  size = omega (arith, e.place, e.size);
}

pub copy_segment-Appends :
    (t n k : ℕ) (f : InputFile) (b : Build)
    → AtEnd b
    → Appends t n (λ j. f.byte (k + j)) b (copy_segment n k f b)
unfolding copy_segment
copy_segment-Appends t zero k f b e = Appends-none t (λ j. f.byte (k + j)) b e
copy_segment-Appends t (suc n) k f b e =
    let b1 = put_next (f.byte k) b in
    let r = copy_segment-Appends t n (k + 1) f b1 (put_next-AtEnd (f.byte k) b e) in
    record {
      at_end = r.at_end;
      grown = omega (arith, r.grown);
      added = λ j l. elim (Bool-cases (j == 0)) [
        | inl t ↦
            let z : j ≡ 0 = ground (arith, t) in
            let here : b.phyaddr + 0 ≡ b.phyaddr = omega arith in
            let first : k + 0 ≡ k = omega arith in
            rw (z, here, first) (r.kept b.phyaddr (omega arith) ∙ ground (arith, e.place))
        | inr g ↦
            let p : 0 < j = ground (arith, g) in
            let place : b.phyaddr + j ≡ b.phyaddr + 1 + (j - 1) = omega (arith, p) in
            let from : k + 1 + (j - 1) ≡ k + j = omega (arith, p) in
            ap (copy_segment n (k + 1) f b1).img.bytes place
            ∙ r.added (j - 1) (omega (arith, p, l))
            ∙ ap (λ q. f.byte q % 256) from
      ];
      kept = λ p l. r.kept p (omega (arith, l)) ∙ ground (arith, l, e.place);
      others = r.others;
      block = r.block;
      offset = r.offset;
    }

pub pad-Appends : (t n : ℕ) (b : Build) → AtEnd b → Appends t n (λ j. 0) b (pad n b)
unfolding pad
pad-Appends t zero b e = Appends-none t (λ j. 0) b e
pad-Appends t (suc n) b e =
    let b1 = put_next 0 b in
    let r = pad-Appends t n b1 (put_next-AtEnd 0 b e) in
    record {
      at_end = r.at_end;
      grown = omega (arith, r.grown);
      added = λ j l. elim (Bool-cases (j == 0)) [
        | inl t ↦
            let here : b.phyaddr + j ≡ b.phyaddr = ground (arith, t) in
            rw here (r.kept b.phyaddr (omega arith) ∙ ground (arith, e.place))
        | inr g ↦
            let p : 0 < j = ground (arith, g) in
            let place : b.phyaddr + j ≡ b.phyaddr + 1 + (j - 1) = omega (arith, p) in
            ap (pad n b1).img.bytes place ∙ r.added (j - 1) (omega (arith, p, l))
      ];
      kept = λ p l. r.kept p (omega (arith, l)) ∙ ground (arith, l, e.place);
      others = r.others;
      block = r.block;
      offset = r.offset;
    }
