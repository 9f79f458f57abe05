-- ===== src/FileSystem/Format/Fresh.antt =====
-- The empty maps and inodes that do_mkfs of kernel/fs/fs.c writes.
use oslab_riscv.Prelude.{
  ℕ, zero, suc, ◌+◌, ◌-◌, ◌*◌, ◌≤◌, ◌<◌, ◌≡◌, refl, sym, ap, ◌∙◌, ◌⊎◌, inl, inr, Bool-cases, ltb,
  for_range, arith,
}
use oslab_riscv.Strings.{memset}
use oslab_riscv.Strings.Blocks.{memset-in}
use oslab_riscv.FileSystem.{
  Card, IsCard, Fs, fs_start, inode_map_offset, inode_map_num, block_map_offset, block_map_num,
  inode_block_offset, inode_block_num, data_num_offset, sector_size,
}
use oslab_riscv.FileSystem.Format.{write_sectors}

-- What a run of writes of one buffer to sector after sector leaves, where the buffer is empty.
pub record Wiped {c : Card} (v : IsCard c) (n first : ℕ) (s s' : Fs c) : Type 0 where
  pub inside : (j : ℕ) → 512 * first ≤ j → j < 512 * (first + n) → v.byte_at s'.disk j ≡ 0
  pub outside :
      (j : ℕ)
      → (j < 512 * first) ⊎ (512 * (first + n) ≤ j)
      → v.byte_at s'.disk j ≡ v.byte_at s.disk j
  pub buffer : s'.sct_buffer ≡ s.sct_buffer

write_sectors-Wiped :
    {c : Card} (v : IsCard c) (n first : ℕ) (s : Fs c)
    → ((j : ℕ) → j < 512 → s.sct_buffer j ≡ 0)
    → Wiped v n first s (write_sectors n first s)
unfolding for_range
write_sectors-Wiped v zero first s z = record {
  inside = λ j a b. absurd (omega arith);
  outside = λ j x. refl;
  buffer = refl;
}
write_sectors-Wiped {c} v (suc n) first s z =
    let t = record s { disk = c.sd_write s.sct_buffer 1 first s.disk } in
    let w = write_sectors-Wiped v n (first + 1) t z in
    record {
      inside = λ j a b. elim (Bool-cases (ltb j (512 * (first + 1)))) [
        | inr e ↦ w.inside j (ground (arith, e)) (omega arith)
        | inl e ↦
            let k = j - 512 * first in
            let at_k : 512 * first + k ≡ j = omega arith in
            w.outside j (inl (ground (arith, e)))
            ∙ sym (ap (v.byte_at t.disk) at_k)
            ∙ v.write_in s.sct_buffer 1 first s.disk k (ground (arith, e))
            ∙ z k (ground (arith, e))
      ];
      outside = λ j x.
          w.outside j (omega (arith, x))
          ∙ v.write_out s.sct_buffer 1 first s.disk j (omega (arith, x));
      buffer = w.buffer;
    }

-- Two runs, one after the other.
Wiped-then :
    {c : Card} (v : IsCard c) (n m first : ℕ) (s t u : Fs c)
    → Wiped v n first s t
    → Wiped v m (first + n) t u
    → Wiped v (n + m) first s u
Wiped-then v n m first s t u a b = record {
  inside = λ j x y. elim (Bool-cases (ltb j (512 * (first + n)))) [
    | inl e ↦ b.outside j (inl (ground (arith, e))) ∙ a.inside j x (ground (arith, e))
    | inr e ↦ b.inside j (ground (arith, e)) (omega arith)
  ];
  outside = λ j x. b.outside j (omega (arith, x)) ∙ a.outside j (omega (arith, x));
  buffer = b.buffer ∙ a.buffer;
}

pub memset_empty : (n : ℕ) (m : ℕ → ℕ) (j : ℕ) → j < n → memset 0 0 n m j ≡ 0
memset_empty n m j l =
    let here : 0 + j ≡ j = omega arith in sym (ap (memset 0 0 n m) here) ∙ memset-in 0 0 n m j l

-- The state of `reset` before the root directory is made: maps and inodes are all 0.
abbrev pub wiped : {c : Card} → Fs c → Fs c
wiped s0 =
    let s1 = record s0 { sct_buffer = memset 0 0 sector_size s0.sct_buffer } in
    let s2 = write_sectors inode_map_num (fs_start + inode_map_offset) s1 in
    let s3 = write_sectors block_map_num (fs_start + block_map_offset) s2 in
    write_sectors inode_block_num (fs_start + inode_block_offset) s3

pub wiped-Wiped :
    {c : Card} (v : IsCard c) (s : Fs c) (j : ℕ)
    → 512 * (fs_start + inode_map_offset) ≤ j
    → j < 512 * (fs_start + data_num_offset)
    → v.byte_at (wiped s).disk j ≡ 0
wiped-Wiped v s j a b =
    let s1 = record s { sct_buffer = memset 0 0 sector_size s.sct_buffer } in
    let s2 = write_sectors inode_map_num (fs_start + inode_map_offset) s1 in
    let s3 = write_sectors block_map_num (fs_start + block_map_offset) s2 in
    let zero_buffer = memset_empty 512 s.sct_buffer in
    let w1 = write_sectors-Wiped v inode_map_num (fs_start + inode_map_offset) s1 zero_buffer in
    let w2 =
      write_sectors-Wiped v block_map_num (fs_start + block_map_offset) s2
        (λ k l. ap (λ (m : ℕ → ℕ). m k) w1.buffer ∙ zero_buffer k l) in
    let w3 =
      write_sectors-Wiped v inode_block_num (fs_start + inode_block_offset) s3
        (λ k l. ap (λ (m : ℕ → ℕ). m k) (w2.buffer ∙ w1.buffer) ∙ zero_buffer k l) in
    let all =
      Wiped-then v 1 768 16385 s1 s2 (wiped s) w1
        (Wiped-then v 256 512 16386 s2 s3 (wiped s) w2 w3) in
    all.inside j a b
