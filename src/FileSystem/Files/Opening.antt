-- ===== src/FileSystem/Files/Opening.antt =====
-- do_fopen of kernel/fs/fs.c: the descriptor that it takes, and paths that do_touch refuses.
use Prim.Native.Nat.{bit_and}
use oslab_riscv.Prelude.{
  ℕ, ◌+◌, ◌/◌, ◌^◌, ◌≤◌, ◌<◌, ◌≡◌, ◌≢◌, refl, sym, ap, ◌∙◌, ◌⊎◌, inl, inr, List, ◌++◌, length, none,
  some, update, ◌==◌, arith, Bool-cases,
}
use oslab_riscv.Strings.Copy.{IsString}
use oslab_riscv.FileSystem.{
  Card, IsCard, Fs, get32, set32, fs_start, inode_block_offset, none_id, num_fdescs, d_file,
  f_available, f_occupied, inode_get, inode_set,
}
use oslab_riscv.FileSystem.Inode
use oslab_riscv.FileSystem.Sectors.{inode_ptr, read_inode, get_inode, write_inode}
use oslab_riscv.FileSystem.Sectors.Bytes.{set32-out, get32-set32}
use oslab_riscv.FileSystem.Sectors.Rewrite.{rewrite-outside, get32-write}
use oslab_riscv.FileSystem.Sectors.First.{FirstFree, first_free}
use oslab_riscv.FileSystem.Sectors.Inodes.{get_inode-field, inode_at, inode_field, place}
use oslab_riscv.FileSystem.Dentries.{search_dentry}
use oslab_riscv.FileSystem.Names.Cut.{IsPart, get_dir_long}
use oslab_riscv.FileSystem.Walk.{current_id, walk}
use oslab_riscv.FileSystem.Calls.{do_touch}
use oslab_riscv.FileSystem.Files.{set_fdesc, free_fdesc, open_inode, do_fopen}

-- What is open after `open_inode` took descriptor `i`: the descriptors, and the inode's owner.
pub record Opened {c : Card} (v : IsCard c) (pid id mode i : ℕ) (s s' : Fs c) : Type 0 where
  pub first : FirstFree num_fdescs (λ j. (s.fdesc_array j).status) i
  pub fdescs :
      s'.fdesc_array
      ≡ update s.fdesc_array i
          (record { inode_id = id; status = f_occupied; mode = mode; rd_offset = 0; wr_offset = 0 })
  pub owner : inode_field v s' id Inode.uid ≡ pid
  pub others :
      (j : ℕ)
      → (j < inode_at id + Inode.uid) ⊎ (inode_at id + Inode.uid + 4 ≤ j)
      → v.byte_at s'.disk j ≡ v.byte_at s.disk j

owned-Opened :
    {c : Card} (v : IsCard c) (pid id mode i : ℕ) (s : Fs c)
    → id < 512
    → pid < 2 ^ 32
    → FirstFree num_fdescs (λ j. (s.fdesc_array j).status) i
    → Opened v pid id mode i s (
        set_fdesc i
          (record { inode_id = id; status = f_occupied; mode = mode; rd_offset = 0; wr_offset = 0 })
          (write_inode (id / 4) (inode_set (inode_ptr id + Inode.uid) pid (get_inode id s))))
unfolding get_inode read_inode write_inode
owned-Opened {c} v pid id mode i s l k f =
    let sct = fs_start + inode_block_offset + id / 4 in
    let p = inode_ptr id in
    let b = c.sd_read s.disk 1 sct s.sct_buffer in
    let m = set32 b (p + Inode.uid) pid in
    record {
      first = f;
      fdescs = refl;
      owner =
          ap (get32 (v.byte_at (c.sd_write m 1 sct s.disk))) (place id Inode.uid)
          ∙ get32-write v 1 sct (p + Inode.uid) s.disk m (omega arith)
          ∙ get32-set32 b (p + Inode.uid) pid k;
      others = λ j x.
          rewrite-outside v 1 sct (p + Inode.uid) (p + Inode.uid + 4) s.disk s.sct_buffer m
            (λ g h y. set32-out b (p + Inode.uid) pid g (omega (arith, y))) j (omega (arith, x));
    }

-- `do_fopen`, once the inode is known, fails where the inode's mode shares no bit with the mode asked
-- for, and fails its assertion where all 16 descriptors are taken; else it takes the first descriptor
-- that is available, with both offsets 0, and makes the caller the inode's owner on the card, where
-- no other byte changes.
pub open_inode-Opened :
    {c : Card} (v : IsCard c) (pid id mode : ℕ) (s : Fs c)
    → id < 512
    → pid < 2 ^ 32
    → ((bit_and (inode_field v s id Inode.mode) mode ≡ 0)
        × (open_inode pid id mode s ≡ some (none_id, get_inode id s)))
      ⊎ (((bit_and (inode_field v s id Inode.mode) mode ≢ 0)
            × (open_inode pid id mode s ≡ none)
            × ((j : ℕ) → j < num_fdescs → (s.fdesc_array j).status ≢ f_available))
          ⊎ ((i : ℕ) × (s' : Fs c) × (bit_and (inode_field v s id Inode.mode) mode ≢ 0)
              × (open_inode pid id mode s ≡ some (i, s'))
              × Opened v pid id mode i s s'))
unfolding open_inode get_inode
open_inode-Opened {c} v pid id mode s l k =
    let word = get_inode-field v id Inode.mode s (omega arith) in
    let i = free_fdesc s.fdesc_array in
    let status = λ (j : ℕ). (s.fdesc_array j).status in
    elim (Bool-cases (bit_and (inode_get (inode_ptr id + Inode.mode) (get_inode id s)) mode == 0)) [
      | inl e ↦ inl (rw (sym word) (ground (arith, e)), rw (e, open_inode) refl)
      | inr e ↦
          let may : bit_and (inode_field v s id Inode.mode) mode ≢ 0 =
            rw (sym word) (ground (arith, e)) in
          inr (elim (first_free num_fdescs status status (λ j x. refl)) [
            | inl (full, taken) ↦ inl (may, rw (e, open_inode) (rw (full, open_inode) refl), taken)
            | inr (free, f) ↦ inr (
              i,
              set_fdesc i
                  (record {
                    inode_id = id;
                    status = f_occupied;
                    mode = mode;
                    rd_offset = 0;
                    wr_offset = 0;
                  })
                  (write_inode (id / 4)
                    (inode_set (inode_ptr id + Inode.uid) pid (get_inode id s))),
              may,
              rw (e, open_inode) (rw (free, open_inode) refl),
              owned-Opened v pid id mode i s l k f,
            )
          ])
    ]

-- A path that is not in the current directory, and whose first 24 characters are no '/' and no end,
-- is too long for `do_touch`, which then returns 0: `do_fopen` opens inode 0, the root directory's.
pub do_fopen_long :
    {c : Card} (fuel pid path mode : ℕ) (xs ys : List ℕ) (s s1 : Fs c)
    → IsPart xs
    → IsString path (xs ++ ys) s1.mem
    → length xs ≡ 24
    → search_dentry fuel (current_id s) path d_file s ≡ some (none_id, s1)
    → do_fopen fuel pid path mode s ≡ open_inode pid 0 mode s1
unfolding do_fopen do_touch walk
do_fopen_long fuel pid path mode xs ys s s1 w v l e =
    rw (e, do_fopen) (rw (get_dir_long path xs ys s1.mem w v l, do_fopen) refl)
