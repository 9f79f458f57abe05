-- ===== src/FileSystem/Sectors.antt =====
-- The maps, inodes and blocks of kernel/fs/fs.c: one sector or block is moved between the card and a
-- buffer. A failed assertion is `none`.
pub mod Bytes
pub mod Rewrite
pub mod Places
pub mod First
pub mod Maps
pub mod Inodes
pub mod TwoWrites
use oslab_riscv.Prelude.{
  ℕ, ◌+◌, ◌*◌, ◌/◌, ◌%◌, ◌^◌, Option, none, some, ◌>>=◌, update, ◌==◌, if◌then◌else◌, find_from,
}
use oslab_riscv.Strings.{memset, copy_bytes}
use oslab_riscv.FileSystem.{
  Card, Fs, get32, set32, none_id, fs_start, inode_map_offset, block_map_offset, inode_block_offset,
  data_num_offset, sector_size, block_size, d_dir, inode_get, inode_set,
}
use oslab_riscv.FileSystem.Inode

pub read_superblock : {c : Card} → Fs c → Fs c
read_superblock {c} s = record s { superblock = c.sd_read s.disk 1 fs_start s.superblock }

pub write_superblock : {c : Card} → Fs c → Fs c
write_superblock {c} s = record s { disk = c.sd_write s.superblock 1 fs_start s.disk }

unfoldable pub get_inode_map : {c : Card} → Fs c → Fs c
get_inode_map {c} s = record s {
  inode_map = c.sd_read s.disk 1 (fs_start + inode_map_offset) s.inode_map;
}

unfoldable pub sync_inode_map : {c : Card} → Fs c → Fs c
sync_inode_map {c} s = record s {
  disk = c.sd_write s.inode_map 1 (fs_start + inode_map_offset) s.disk;
}

-- `inode_map[i] = v`
abbrev pub mark_inode : {c : Card} → ℕ → ℕ → Fs c → Fs c
mark_inode i v s = record s { inode_map = update s.inode_map i v }

unfoldable pub alloc_inode : {c : Card} → Fs c → Option (ℕ × Fs c)
unfolding get_inode_map sync_inode_map
alloc_inode s0 =
    let s = get_inode_map s0 in
    let i = find_from sector_size 0 (λ j. s.inode_map j == 0) in
    if i == sector_size then none else some (i, sync_inode_map (mark_inode i 1 s))

unfoldable pub free_inode_map : {c : Card} → ℕ → Fs c → Option (Fs c)
unfolding get_inode_map sync_inode_map
free_inode_map inode_id s0 =
    let s = get_inode_map s0 in
    if s.inode_map inode_id == 1 then some (sync_inode_map (mark_inode inode_id 0 s)) else none

unfoldable pub read_inode : {c : Card} → ℕ → Fs c → Fs c
read_inode {c} inode_sct_id s = record s {
  sct_buffer = c.sd_read s.disk 1 (fs_start + inode_block_offset + inode_sct_id) s.sct_buffer;
}

unfoldable pub write_inode : {c : Card} → ℕ → Fs c → Fs c
write_inode {c} inode_sct_id s = record s {
  disk = c.sd_write s.sct_buffer 1 (fs_start + inode_block_offset + inode_sct_id) s.disk;
}

-- The pointer that `get_inode` returns.
abbrev pub inode_ptr : ℕ → ℕ
inode_ptr inode_id = 128 * (inode_id % 4)

-- `get_inode` without its result, `inode_ptr inode_id`.
unfoldable pub get_inode : {c : Card} → ℕ → Fs c → Fs c
unfolding read_inode
get_inode inode_id s = read_inode (inode_id / 4) s

-- `create_inode`, whose result is again `inode_ptr inode_id`.
unfoldable pub create_inode : {c : Card} → (inode_id block_id type mode : ℕ) → Fs c → Fs c
unfolding get_inode write_inode
create_inode inode_id block_id type mode s0 =
    let p = inode_ptr inode_id in
    let s1 = inode_set (p + Inode.mode) mode (get_inode inode_id s0) in
    let s2 = inode_set (p + Inode.type) type s1 in
    let s3 = inode_set (p + Inode.uid) none_id s2 in
    let s4 = inode_set (p + Inode.inode_id) inode_id s3 in
    let s5 = inode_set (p + Inode.links_count) 1 s4 in
    let s6 = inode_set (p + Inode.blocks) 1 s5 in
    let s7 = inode_set (p + Inode.direct_block 0) block_id s6 in
    let s8 = inode_set (p + Inode.size) (if type == d_dir then 4096 else 0) s7 in
    let s9 = inode_set (p + Inode.file_num) (if type == d_dir then 2 else 0) s8 in
    write_inode (inode_id / 4) s9

-- `update_inode`: the 128 bytes at `p` of the buffer become the current inode.
unfoldable pub update_inode : {c : Card} → ℕ → Fs c → Fs c
update_inode p s = record s { current_inode = copy_bytes 0 p 128 s.sct_buffer s.current_inode }

unfoldable pub get_block_map : {c : Card} → Fs c → Fs c
get_block_map {c} s = record s {
  block_map = c.sd_read s.disk 8 (fs_start + block_map_offset) s.block_map;
}

unfoldable pub sync_block_map : {c : Card} → Fs c → Fs c
sync_block_map {c} s = record s {
  disk = c.sd_write s.block_map 8 (fs_start + block_map_offset) s.disk;
}

-- `block_map[i] = v`
abbrev pub mark_block : {c : Card} → ℕ → ℕ → Fs c → Fs c
mark_block i v s = record s { block_map = update s.block_map i v }

unfoldable pub alloc_block : {c : Card} → Fs c → Option (ℕ × Fs c)
unfolding get_block_map sync_block_map
alloc_block s0 =
    let s = get_block_map s0 in
    let i = find_from block_size 0 (λ j. s.block_map j == 0) in
    if i == block_size then none else some (i, sync_block_map (mark_block i 1 s))

-- The sector of a block; the sum is one of `uint32_t`s.
abbrev pub block_sector : ℕ → ℕ
block_sector block_id = (fs_start + data_num_offset + block_id * 8) % 2 ^ 32

unfoldable pub read_block : {c : Card} → ℕ → Fs c → Fs c
read_block {c} block_id s = record s {
  blk_buffer = c.sd_read s.disk 8 (block_sector block_id) s.blk_buffer;
}

unfoldable pub write_block : {c : Card} → ℕ → Fs c → Fs c
write_block {c} block_id s = record s {
  disk = c.sd_write s.blk_buffer 8 (block_sector block_id) s.disk;
}

-- `memset(blk_buffer, 0, BLOCK_SIZE); write_block(block_id);`, which is `create_file_block` too.
unfoldable pub create_file_block : {c : Card} → ℕ → Fs c → Fs c
unfolding write_block
create_file_block block_id s =
    write_block block_id (record s { blk_buffer = memset 0 0 block_size s.blk_buffer })

pub release_block : {c : Card} → ℕ → Fs c → Option (Fs c)
unfolding get_block_map sync_block_map create_file_block
release_block block_id s0 =
    let s = get_block_map s0 in
    if s.block_map block_id == 1
    then some (create_file_block block_id (sync_block_map (mark_block block_id 0 s)))
    else none
