-- ===== src/FileSystem/Files/Chunks.antt =====
-- What each step of do_fread and do_fwrite of kernel/fs/fs.c does to the card.
use oslab_riscv.Prelude.{ℕ, ◌+◌, ◌*◌, ◌^◌, ◌≤◌, ◌<◌, ◌≡◌, ◌∙◌, ◌⊎◌, inl, max, arith}
use oslab_riscv.Strings.{copy_bytes}
use oslab_riscv.Strings.Blocks.{copy_bytes-in, copy_bytes-out}
use oslab_riscv.FileSystem.{Card, IsCard, Fs, get32, set32}
use oslab_riscv.FileSystem.Inode
use oslab_riscv.FileSystem.Sectors.{
  inode_ptr, read_inode, get_inode, write_inode, block_sector, read_block, write_block,
}
use oslab_riscv.FileSystem.Sectors.Places.{data_at, sector-data_at, inode_sector}
use oslab_riscv.FileSystem.Sectors.Bytes.{set32-out, get32-set32, get32-set32_ne}
use oslab_riscv.FileSystem.Sectors.Rewrite.{store-outside, get32-write}
use oslab_riscv.FileSystem.Sectors.Inodes.{get_inode-field, inode_at, inode_field, place}
use oslab_riscv.FileSystem.Files.{keep_size, write_chunk}
use oslab_riscv.FileSystem.Files.OneBlock.{found_block}

-- An inode that is what its id says.
pub record IsInode {c : Card} (v : IsCard c) (id : ℕ) (s : Fs c) : Type 0 where
  pub range : id < 512
  pub own_id : inode_field v s id Inode.inode_id ≡ id

pub found_block-disk :
    {c : Card} (v : IsCard c) (id : ℕ) (s : Fs c)
    → IsInode v id s
    → (j : ℕ) → v.byte_at (found_block id s).disk j ≡ v.byte_at s.disk j
unfolding get_inode read_inode write_inode
found_block-disk {c} v id s i j =
    let m = c.sd_read s.disk 1 (inode_sector id) s.sct_buffer in
    let own : get32 m (inode_ptr id + Inode.inode_id) ≡ id =
      get_inode-field v id Inode.inode_id s (omega arith) ∙ i.own_id in
    rw own (
      store-outside v 1 (inode_sector id) 0 0 s.disk m
        (λ k l o. v.read_in s.disk 1 (inode_sector id) s.sct_buffer k l) j (omega arith))

-- The chunk on the card, and the bytes around it.
pub write_chunk-outside :
    {c : Card} (v : IsCard c) (fd src b o n : ℕ) (s : Fs c)
    → b < 131072
    → o + n ≤ 4096
    → (j : ℕ) → (j < data_at b + o) ⊎ (data_at b + o + n ≤ j)
    → v.byte_at (write_chunk fd src b o n s).disk j ≡ v.byte_at s.disk j
unfolding write_chunk read_block write_block
write_chunk-outside {c} v fd src b o n s l fits j x =
    let sct = block_sector b in
    let m = c.sd_read s.disk 8 sct s.blk_buffer in
    store-outside v 8 sct o (o + n) s.disk (copy_bytes o src n s.mem m)
      (λ k h y. copy_bytes-out o src n s.mem m k y ∙ v.read_in s.disk 8 sct s.blk_buffer k h) j
      (omega (arith, sector-data_at b l, x))

pub write_chunk-inside :
    {c : Card} (v : IsCard c) (fd src b o n : ℕ) (s : Fs c)
    → b < 131072
    → o + n ≤ 4096
    → (j : ℕ) → j < n
    → v.byte_at (write_chunk fd src b o n s).disk (data_at b + o + j) ≡ s.mem (src + j)
unfolding write_chunk read_block write_block
write_chunk-inside {c} v fd src b o n s l fits j x =
    let sct = block_sector b in
    let m = c.sd_read s.disk 8 sct s.blk_buffer in
    let there : data_at b + o + j ≡ 512 * sct + (o + j) = omega (arith, sector-data_at b l) in
    rw there (
      v.write_in (copy_bytes o src n s.mem m) 8 sct s.disk (o + j) (omega arith)
      ∙ copy_bytes-in o src n s.mem m j x)

-- The inode's sector as the buffer has it.
unfoldable pub Agrees : {c : Card} → IsCard c → (id : ℕ) → Fs c → Type 0
Agrees v id t = (j : ℕ) → j < 512 → t.sct_buffer j ≡ v.byte_at t.disk (512 * inode_sector id + j)

pub keep_size-outside :
    {c : Card} (v : IsCard c) (id offset : ℕ) (t : Fs c)
    → Agrees v id t
    → get32 t.sct_buffer (inode_ptr id + Inode.inode_id) ≡ id
    → (j : ℕ) → (j < inode_at id + Inode.size) ⊎ (inode_at id + Inode.size + 4 ≤ j)
    → v.byte_at (keep_size (inode_ptr id) offset t).disk j ≡ v.byte_at t.disk j
unfolding write_inode Agrees
keep_size-outside {c} v id offset t a own j x =
    let p = inode_ptr id in
    let new = max (get32 t.sct_buffer (p + Inode.size)) offset in
    let own' =
      get32-set32_ne t.sct_buffer (p + Inode.size) (p + Inode.inode_id) new (inl (omega arith))
      ∙ own in
    rw own' (
      store-outside v 1 (inode_sector id) (p + Inode.size) (p + Inode.size + 4) t.disk
        (set32 t.sct_buffer (p + Inode.size) new)
        (λ k l o. set32-out t.sct_buffer (p + Inode.size) new k (omega (arith, o)) ∙ a k l) j
        (omega (arith, x)))

pub keep_size-size :
    {c : Card} (v : IsCard c) (id offset : ℕ) (t : Fs c)
    → get32 t.sct_buffer (inode_ptr id + Inode.inode_id) ≡ id
    → get32 t.sct_buffer (inode_ptr id + Inode.size) < 2 ^ 32
    → offset < 2 ^ 32
    → inode_field v (keep_size (inode_ptr id) offset t) id Inode.size
      ≡ max (get32 t.sct_buffer (inode_ptr id + Inode.size)) offset
unfolding write_inode
keep_size-size {c} v id offset t own l1 l2 =
    let p = inode_ptr id in
    let new = max (get32 t.sct_buffer (p + Inode.size)) offset in
    let m = set32 t.sct_buffer (p + Inode.size) new in
    let own' =
      get32-set32_ne t.sct_buffer (p + Inode.size) (p + Inode.inode_id) new (inl (omega arith))
      ∙ own in
    rw (own', place id Inode.size)
      (get32-write v 1 (inode_sector id) (p + Inode.size) t.disk m (omega arith)
        ∙ get32-set32 t.sct_buffer (p + Inode.size) new (omega arith))
