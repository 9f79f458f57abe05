-- ===== src/FileSystem/Format/Root.antt =====
-- The file system that do_mkfs of kernel/fs/fs.c makes.
use oslab_riscv.Prelude.{
  ℕ, zero, suc, ◌+◌, ◌*◌, ◌/◌, ◌≤◌, ◌<◌, ◌≡◌, ◌≢◌, refl, ◌∙◌, ◌⊎◌, inl, inr, Bool-cases, true,
  false, some, List, arith,
}
use oslab_riscv.FileSystem.{
  Card, IsCard, Fs, get32, fs_start, inode_map_offset, data_num_offset, o_rdwr, d_dir,
}
use oslab_riscv.FileSystem.Dentry
use oslab_riscv.FileSystem.Sectors.{
  read_superblock, inode_ptr, write_inode, create_inode, update_inode,
}
use oslab_riscv.FileSystem.Sectors.Bytes.{get32-congr}
use oslab_riscv.FileSystem.Sectors.Places.{data_at}
use oslab_riscv.FileSystem.Sectors.Maps.{
  OnlyAt, inode_mark, inode_mark_at, block_mark, block_mark_at, alloc_inode_lem, alloc_block_lem,
}
use oslab_riscv.FileSystem.Sectors.Inodes.{inode_at, inode_field, IsNew, create_inode-IsNew}
use oslab_riscv.FileSystem.Format.{is_formatted, new_superblock, wants_reset, reset, do_mkfs}
use oslab_riscv.FileSystem.Format.Fresh.{wiped, wiped-Wiped}
use oslab_riscv.FileSystem.Format.RootDirectory.{
  IsEmptyDirectory, dir_block-IsEmptyDirectory, HasDotNames, dir_block-HasDotNames,
  create_dir_block-byte, root_made, again-disk, create_dir_block-outside, create_dir_block-word,
  IsNew-congr,
}

-- A fresh file system: inode 0 and block 0 are taken, and are the root directory's, which is empty.
pub record IsFresh {c : Card} (v : IsCard c) (s : Fs c) : Type 0 where
  pub root_mark : inode_mark v s 0 ≡ 1
  pub inode_marks : (j : ℕ) → 0 < j → j < 512 → inode_mark v s j ≡ 0
  pub first_mark : block_mark v s 0 ≡ 1
  pub block_marks : (j : ℕ) → 0 < j → j < 131072 → block_mark v s j ≡ 0
  pub root : IsNew (inode_field v s 0) 0 0 d_dir o_rdwr
  pub empty : IsEmptyDirectory (λ o. get32 (v.byte_at s.disk) (data_at 0 + o)) 0 0
  pub names : HasDotNames (λ o. v.byte_at s.disk (data_at 0 + o))

made-IsFresh :
    {c : Card} (v : IsCard c) (s s5 s6 : Fs c)
    → ((j : ℕ)
        → 512 * (fs_start + inode_map_offset) ≤ j
        → j < 512 * (fs_start + data_num_offset)
        → v.byte_at s.disk j ≡ 0)
    → OnlyAt v (inode_mark_at 0) 1 s.disk s5.disk
    → OnlyAt v (block_mark_at 0) 1 s5.disk s6.disk
    → IsFresh v (root_made 0 0 s6)
made-IsFresh {c} v s s5 s6 z a b =
    let s7 = create_inode 0 0 d_dir o_rdwr s6 in
    let s8 = write_inode (0 / 4) (update_inode (inode_ptr 0) s7) in
    let (new, frame) =
      create_inode-IsNew v 0 0 d_dir o_rdwr s6 (omega arith) (omega arith) (omega arith)
        (omega arith) in
    let below = λ (j : ℕ) (l : j < data_at 0).
      create_dir_block-outside v 0 0 0 s8 j (omega arith) (inl l)
      ∙ again-disk v 0 0 d_dir o_rdwr s6 j in
    let maps = λ (j : ℕ) (l : j < inode_at 0). below j (omega arith) ∙ frame j (inl l) in
    let word = λ (o : ℕ) (l : o ≤ 4092). create_dir_block-word v 0 0 0 o s8 (omega arith) l in
    let byte = λ (o : ℕ) (l : o < 4096). create_dir_block-byte v 0 0 0 o s8 (omega arith) l in
    let m = dir_block-HasDotNames 0 0 s8.blk_buffer in
    let d = dir_block-IsEmptyDirectory 0 0 s8.blk_buffer (omega arith) (omega arith) in
    record {
      root_mark =
          maps (inode_mark_at 0) (omega arith)
          ∙ b.elsewhere (inode_mark_at 0) (ground arith)
          ∙ a.here;
      inode_marks = λ j k l.
          maps (inode_mark_at j) (omega arith)
          ∙ b.elsewhere (inode_mark_at j) (λ e. absurd (omega (arith, e)))
          ∙ a.elsewhere (inode_mark_at j) (λ e. absurd (omega (arith, e)))
          ∙ z (inode_mark_at j) (omega arith) (omega arith);
      first_mark = maps (block_mark_at 0) (omega arith) ∙ b.here;
      block_marks = λ j k l.
          maps (block_mark_at j) (omega arith)
          ∙ b.elsewhere (block_mark_at j) (λ e. absurd (omega (arith, e)))
          ∙ a.elsewhere (block_mark_at j) (λ e. absurd (omega (arith, e)))
          ∙ z (block_mark_at j) (omega arith) (omega arith);
      root =
          IsNew-congr (inode_field v s7 0) (inode_field v (root_made 0 0 s6) 0) 0 0 d_dir o_rdwr
            (λ o l.
              get32-congr (v.byte_at (root_made 0 0 s6).disk) (v.byte_at s7.disk) (inode_at 0 + o)
                (inode_at 0 + o) (λ j h. below (inode_at 0 + o + j) (omega arith)))
            new;
      names = record {
        dot = byte (Dentry.name 0) (omega arith) ∙ m.dot;
        after_dot = λ j k l. byte (Dentry.name 0 + j) (omega arith) ∙ m.after_dot j k l;
        dot_dot = (
          byte (Dentry.name 1) (omega arith) ∙ m.dot_dot.0,
          byte (Dentry.name 1 + 1) (omega arith) ∙ m.dot_dot.1,
        );
        after_dot_dot = λ j k l. byte (Dentry.name 1 + j) (omega arith) ∙ m.after_dot_dot j k l;
      };
      empty = record {
        dot_type = word (Dentry.type 0) (omega arith) ∙ d.dot_type;
        dot_inode = word (Dentry.inode_id 0) (omega arith) ∙ d.dot_inode;
        parent_type = word (Dentry.type 1) (omega arith) ∙ d.parent_type;
        parent_inode = word (Dentry.inode_id 1) (omega arith) ∙ d.parent_inode;
        unused = λ i k l. word (Dentry.type i) (omega arith) ∙ d.unused i k l;
      };
    }

-- The first inode and the first block that are free on a card with empty maps are 0.
first_is_zero : (i : ℕ) (card : ℕ → ℕ) → ((j : ℕ) → j < i → card j ≢ 0) → card 0 ≡ 0 → i ≡ 0
first_is_zero zero card f e = refl
first_is_zero (suc i) card f e = absurd (f 0 (omega arith) e)

reset-IsFresh :
    {c : Card} (v : IsCard c) (s : Fs c) → (s' : Fs c) × (reset s ≡ some s') × IsFresh v s'
unfolding reset
reset-IsFresh {c} v s =
    let s4 = wiped s in
    let z = wiped-Wiped v s in
    elim (alloc_inode_lem v s4) [
      | inl (e, taken) ↦
          absurd (taken 0 (omega arith) (z (inode_mark_at 0) (omega arith) (omega arith)))
      | inr (i, s5, e, f, a) ↦
          let i_zero =
            first_is_zero i (inode_mark v s4) f.below
              (z (inode_mark_at 0) (omega arith) (omega arith)) in
          let a0 = rw i_zero at a in
          let mark : block_mark v s5 0 ≡ 0 =
            a0.elsewhere (block_mark_at 0) (ground arith)
            ∙ z (block_mark_at 0) (omega arith) (omega arith) in
          elim (alloc_block_lem v s5) [
            | inl (g, taken) ↦ absurd (taken 0 (omega arith) mark)
            | inr (k, s6, g, h, b) ↦
                let k_zero = first_is_zero k (block_mark v s5) h.below mark in
                let b0 = rw k_zero at b in
                (
                  root_made 0 0 s6,
                  rw (e, reset) (rw (g, reset) (rw (i_zero, k_zero) refl)),
                  made-IsFresh v s4 s5 s6 z a0 b0,
                )
          ]
    ]

-- On any card, where there is no file system or the user asks for a new one, `do_mkfs` succeeds; then
-- inode 0 and block 0 are marked as taken and no others, inode 0 is a new directory with block 0, and
-- its only entries are the directory itself, with the name ".", and, as its parent, the directory itself
-- again, with the name "..".
pub do_mkfs-IsFresh :
    {c : Card} (v : IsCard c) (keys : List ℕ) (s : Fs c)
    → (is_formatted (read_superblock s) ≡ false) ⊎ (wants_reset keys ≡ some true)
    → (s' : Fs c) × (do_mkfs keys s ≡ some s') × IsFresh v s'
unfolding do_mkfs
do_mkfs-IsFresh v keys s x = elim (Bool-cases (is_formatted (read_superblock s))) [
  | inr e ↦
      let (s', r, f) = reset-IsFresh v (new_superblock (read_superblock s)) in
      (s', rw (e, do_mkfs) r, f)
  | inl e ↦ elim x [
    | inl n ↦ absurd (ground (arith, e, n))
    | inr y ↦
        let (s', r, f) = reset-IsFresh v (read_superblock s) in
        (s', rw (e, do_mkfs) (rw (y, do_mkfs) r), f)
  ]
]
