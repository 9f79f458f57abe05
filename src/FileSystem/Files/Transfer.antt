-- ===== src/FileSystem/Files/Transfer.antt =====
-- do_fread of kernel/fs/fs.c when the bytes lie in one block that the inode names, and what it reads
-- of what do_fwrite has written.
use oslab_riscv.Prelude.{
  ℕ, ◌+◌, ◌*◌, ◌/◌, ◌%◌, ◌^◌, ◌≤◌, ◌<◌, ◌≡◌, ◌≢◌, ap, ◌∙◌, sym, ◌⊎◌, inl, inr, some, arith,
}
use oslab_riscv.Strings.Blocks.{copy_bytes-in, copy_bytes-out}
use oslab_riscv.FileSystem.{Card, IsCard, Fs, Fdesc, o_rdonly, o_wronly, o_rdwr, f_available}
use oslab_riscv.FileSystem.Inode
use oslab_riscv.FileSystem.Sectors.{read_inode, get_inode, write_inode, block_sector, read_block}
use oslab_riscv.FileSystem.Sectors.Places.{data_at, sector-data_at}
use oslab_riscv.FileSystem.Sectors.Inodes.{inode_field}
use oslab_riscv.FileSystem.Files.{read_chunk, do_fread, do_fwrite}
use oslab_riscv.FileSystem.Files.OneBlock.{
  block_of, found_block, fetched, InBlock, do_fread-InBlock,
}
use oslab_riscv.FileSystem.Files.Chunks.{IsInode, found_block-disk}
use oslab_riscv.FileSystem.Files.Stored.{do_fwrite-Stored, Stored-field, Stored-fdesc}

get_state-mem :
    {c : Card} (v : IsCard c) (id fd dest b offset n : ℕ) (s : Fs c)
    → IsInode v id s
    → b < 131072
    → offset % 4096 + n ≤ 4096
    → (j : ℕ) → j < n
    → (fetched id fd dest b offset n s).mem (dest + j)
      ≡ v.byte_at s.disk (data_at b + offset % 4096 + j)
unfolding read_chunk read_block write_inode get_inode read_inode
get_state-mem {c} v id fd dest b offset n s i l fits j x =
    let sct = block_sector b in
    let o = offset % 4096 in
    let t = found_block id s in
    let m = c.sd_read t.disk 8 sct t.blk_buffer in
    let there : 512 * sct + (o + j) ≡ data_at b + o + j = omega (arith, sector-data_at b l) in
    copy_bytes-in dest o n m t.mem j x
    ∙ v.read_in t.disk 8 sct t.blk_buffer (o + j) (omega arith)
    ∙ ap (v.byte_at t.disk) there
    ∙ found_block-disk v id s i (data_at b + o + j)

get_state-mem_out :
    {c : Card} (id fd dest b offset n : ℕ) (s : Fs c) (j : ℕ)
    → (j < dest) ⊎ (dest + n ≤ j)
    → (fetched id fd dest b offset n s).mem j ≡ s.mem j
unfolding read_chunk read_block write_inode get_inode read_inode
get_state-mem_out {c} id fd dest b offset n s j x =
    let t = found_block id s in
    copy_bytes-out dest (offset % 4096) n (c.sd_read t.disk 8 (block_sector b) t.blk_buffer) t.mem j
      x

-- `do_fread` on an open descriptor that is not for writing only, of bytes that the size covers and
-- that lie in one block which is there and which the inode names: it returns the length, the bytes
-- of the card where the offset says are in the caller's buffer, and no other byte of the memory has
-- changed.
pub do_fread_lem :
    {c : Card} (v : IsCard c) (fd dest n : ℕ) (s : Fs c)
    → let f = s.fdesc_array fd in
      let b = block_of v f.inode_id f.rd_offset s in
      f.mode ≢ o_wronly
      → f.status ≢ f_available
      → IsInode v f.inode_id s
      → InBlock v f.inode_id f.rd_offset n s
      → f.rd_offset + n ≤ inode_field v s f.inode_id Inode.size
      → b < 131072
      → (s' : Fs c) × (do_fread fd dest n s ≡ some (n, s'))
        × ((j : ℕ)
            → j < n
            → s'.mem (dest + j) ≡ v.byte_at s.disk (data_at b + f.rd_offset % 4096 + j))
        × ((j : ℕ) → (j < dest) ⊎ (dest + n ≤ j) → s'.mem j ≡ s.mem j)
do_fread_lem v fd dest n s m u i h e l =
    let f = s.fdesc_array fd in
    let b = block_of v f.inode_id f.rd_offset s in
    (
      fetched f.inode_id fd dest b f.rd_offset n s,
      do_fread-InBlock v fd dest n s m u h e,
      get_state-mem v f.inode_id fd dest b f.rd_offset n s i l h.one,
      get_state-mem_out f.inode_id fd dest b f.rd_offset n s,
    )

-- On an open descriptor for reading and writing, both at the same offset, where at least one byte is
-- written and all bytes lie in one of the 14 blocks that the inode itself names, so below 57344, that
-- block is there and is one of the 131072 of the disk, and the size of the file is below 2^32,
-- `do_fread` after `do_fwrite` returns the bytes that were written.
pub do_fread-do_fwrite :
    {c : Card} (v : IsCard c) (fd src dest n : ℕ) (s : Fs c)
    → let f = s.fdesc_array fd in
      f.mode ≡ o_rdwr
      → f.status ≢ f_available
      → f.rd_offset ≡ f.wr_offset
      → IsInode v f.inode_id s
      → InBlock v f.inode_id f.wr_offset n s
      → block_of v f.inode_id f.wr_offset s < 131072
      → inode_field v s f.inode_id Inode.size < 2 ^ 32
      → (s' : Fs c) × (s'' : Fs c) × (do_fwrite fd src n s ≡ some (n, s'))
        × (do_fread fd dest n s' ≡ some (n, s''))
        × ((j : ℕ) → j < n → s''.mem (dest + j) ≡ s.mem (src + j))
do_fread-do_fwrite v fd src dest n s m u e i h l z =
    let f = s.fdesc_array fd in
    let id = f.inode_id in
    let offset = f.wr_offset in
    let b = block_of v id offset s in
    let writes : f.mode ≢ o_rdonly = λ x. ground (arith, m, x) in
    let (s', r, w) = do_fwrite-Stored v fd src n s writes u i h l z in
    let g = Stored-fdesc v id fd b offset src n s s' w in
    let same_id : (s'.fdesc_array fd).inode_id ≡ id = ap (λ (x : Fdesc). x.inode_id) g in
    let same_rd : (s'.fdesc_array fd).rd_offset ≡ offset = ap (λ (x : Fdesc). x.rd_offset) g ∙ e in
    let same_mode : (s'.fdesc_array fd).mode ≡ o_rdwr = ap (λ (x : Fdesc). x.mode) g ∙ m in
    let same_status : (s'.fdesc_array fd).status ≡ f.status = ap (λ (x : Fdesc). x.status) g in
    let own =
      Stored-field v id fd b offset src n Inode.inode_id s s' i.range w (inl (omega arith))
        (omega arith)
      ∙ i.own_id in
    let block =
      Stored-field v id fd b offset src n (Inode.direct_block (offset / 4096)) s s' i.range w
        (inr (omega arith)) (omega (arith, h.direct)) in
    let (s'', r', bytes, rest) =
      do_fread_lem v fd dest n s' (λ x. ground (arith, same_mode, x)) (λ x. u (sym same_status ∙ x))
        (rw same_id (record { range = i.range; own_id = own }))
        (rw (same_id, same_rd)
          (record {
            direct = h.direct;
            one = h.one;
            some_byte = h.some_byte;
            there = λ x. h.there (sym block ∙ x);
          }))
        (rw (same_id, same_rd) (rw w.size (omega arith))) (rw (same_id, same_rd) (rw block l)) in
    (s', s'', r, r', λ j k. bytes j k ∙ rw (same_id, same_rd) (rw block (w.bytes j k)))
