-- ===== src/FileSystem/Files/Seeking.antt =====
-- do_lseek of kernel/fs/fs.c on a descriptor for reading.
use Prim.Native.Nat.{bit_and}
use oslab_riscv.Prelude.{
  ℕ, ◌+◌, ◌/◌, ◌≤◌, ◌<◌, ◌≡◌, ◌≢◌, refl, ap, ◌∙◌, ◌⊎◌, inl, inr, true, false, Bool-cases, some,
  update, ◌==◌, ltb, if◌then◌else◌, arith,
}
use oslab_riscv.FileSystem.{
  Card, IsCard, Fs, none_id, fs_start, inode_block_offset, o_rdonly, f_available,
}
use oslab_riscv.FileSystem.Inode
use oslab_riscv.FileSystem.Sectors.{inode_ptr, read_inode, get_inode, write_inode}
use oslab_riscv.FileSystem.Sectors.Rewrite.{store-outside}
use oslab_riscv.FileSystem.Sectors.Inodes.{get_inode-field, inode_field}
use oslab_riscv.FileSystem.Files.{set_fdesc, seek_target, seek_rd, seek_wr, do_lseek}

-- The position that `whence` counts from, plus `offset`, is `target`.
abbrev pub Targets : {c : Card} → IsCard c → (fd offset whence target : ℕ) → Fs c → Type 0
Targets v fd offset whence target s =
    let f = s.fdesc_array fd in
    seek_target offset whence f.rd_offset (inode_field v s f.inode_id Inode.size) ≡ some target

seek_rd-Targets :
    {c : Card} (v : IsCard c) (fd offset whence target : ℕ) (s : Fs c)
    → let f = s.fdesc_array fd in
      f.mode ≡ o_rdonly
      → Targets v fd offset whence target s
      → seek_rd fd offset whence (inode_ptr f.inode_id) (get_inode f.inode_id s) ≡ (
          if ltb (inode_field v s f.inode_id Inode.size) target
          then some (false, get_inode f.inode_id s)
          else some (true, set_fdesc fd (record f { rd_offset = target }) (get_inode f.inode_id s)))
unfolding seek_rd get_inode
seek_rd-Targets v fd offset whence target s m t =
    let f = s.fdesc_array fd in
    let word = get_inode-field v f.inode_id Inode.size s (omega arith) in
    let reads : (bit_and f.mode 1 == 0) ≡ false = rw m refl in
    let target_is = ap (seek_target offset whence f.rd_offset) word ∙ t in
    let passed =
      ap
        (λ (size : ℕ).
          if ltb size target
          then some (false, get_inode f.inode_id s)
          else some (true, set_fdesc fd (record f { rd_offset = target }) (get_inode f.inode_id s)))
        word in
    rw (reads, seek_rd) (rw (target_is, seek_rd) passed)

seek_wr-rdonly :
    {c : Card} (fd offset whence p : ℕ) (s : Fs c)
    → (s.fdesc_array fd).mode ≡ o_rdonly
    → seek_wr fd offset whence p s ≡ some s
unfolding seek_wr
seek_wr-rdonly fd offset whence p s m =
    let reads : (bit_and (s.fdesc_array fd).mode 2 == 0) ≡ true = rw m refl in
    rw (reads, seek_wr) refl

-- `do_lseek` on an open descriptor for reading only, to the place that `whence` and the offset say:
-- past the file's size it returns -1, and no descriptor and nothing on the card changes; else it
-- returns 0, with the offset of reading at that place, and nothing else is changed in the
-- descriptors or on the card.
pub do_lseek-Targets :
    {c : Card} (v : IsCard c) (fd offset whence target : ℕ) (s : Fs c)
    → let f = s.fdesc_array fd in
      let size = inode_field v s f.inode_id Inode.size in
      f.mode ≡ o_rdonly
      → f.status ≢ f_available
      → Targets v fd offset whence target s
      → (ret : ℕ) × (s' : Fs c) × (do_lseek fd offset whence s ≡ some (ret, s'))
        × (((size < target) × (ret ≡ none_id) × (s'.fdesc_array ≡ s.fdesc_array))
            ⊎ ((target ≤ size)
                × (ret ≡ 0)
                × (s'.fdesc_array ≡ update s.fdesc_array fd (record f { rd_offset = target }))))
        × ((j : ℕ) → v.byte_at s'.disk j ≡ v.byte_at s.disk j)
unfolding do_lseek get_inode read_inode write_inode
do_lseek-Targets {c} v fd offset whence target s m u t =
    let f = s.fdesc_array fd in
    let size = inode_field v s f.inode_id Inode.size in
    let status : (f.status == f_available) ≡ false = ground (arith, u) in
    let rd = seek_rd-Targets v fd offset whence target s m t in
    let sct = fs_start + inode_block_offset + f.inode_id / 4 in
    let b = c.sd_read s.disk 1 sct s.sct_buffer in
    let moved = set_fdesc fd (record f { rd_offset = target }) (get_inode f.inode_id s) in
    let mode : (moved.fdesc_array fd).mode ≡ o_rdonly = ground (arith, m) in
    let wr = seek_wr-rdonly fd offset whence (inode_ptr f.inode_id) moved mode in
    elim (Bool-cases (ltb size target)) [
      | inl e ↦ (
        none_id,
        get_inode f.inode_id s,
        rw (status, do_lseek) (rw (rd, do_lseek) (rw (e, do_lseek) refl)),
        inl (ground (arith, e), refl, refl),
        λ j. refl,
      )
      | inr e ↦ (
        0,
        write_inode (f.inode_id / 4) moved,
        rw (status, do_lseek) (rw (rd, do_lseek) (rw (e, do_lseek) (rw (wr, do_lseek) refl))),
        inr (ground (arith, e), refl, refl),
        λ j.
            store-outside v 1 sct 0 0 s.disk b (λ k l o. v.read_in s.disk 1 sct s.sct_buffer k l) j
              (omega arith),
      )
    ]
