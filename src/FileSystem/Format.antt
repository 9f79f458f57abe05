-- ===== src/FileSystem/Format.antt =====
-- do_mkfs and do_statfs of kernel/fs/fs.c. What the user types is an argument.
pub mod Fresh
pub mod RootDirectory
pub mod Root
use oslab_riscv.Prelude.{
  ℕ, ◌+◌, ◌*◌, ◌/◌, Bool, true, false, ◌||◌, Option, none, some, ◌>>=◌, List, [], ◌∷◌, ◌==◌,
  if◌then◌else◌, for_range,
}
use oslab_riscv.Strings.{memset}
use oslab_riscv.FileSystem.{
  Card, Fs, get32, set32, superblock_magic, fs_size, fs_start, inode_map_offset, inode_map_num,
  block_map_offset, block_map_num, inode_block_offset, inode_block_num, data_num_offset,
  data_block_num, sector_size, o_rdwr, d_dir,
}
use oslab_riscv.FileSystem.Superblock
use oslab_riscv.FileSystem.Sectors.{
  read_superblock, write_superblock, get_inode_map, alloc_inode, inode_ptr, write_inode,
  create_inode, update_inode, get_block_map, alloc_block,
}
use oslab_riscv.FileSystem.Dentries.{create_dir_block}

abbrev pub super_set : {c : Card} → ℕ → ℕ → Fs c → Fs c
super_set o v s = record s { superblock = set32 s.superblock o v }

abbrev pub is_formatted : {c : Card} → Fs c → Bool
is_formatted s = get32 s.superblock Superblock.magic == superblock_magic

-- The fields of a new superblock.
pub new_superblock : {c : Card} → Fs c → Fs c
new_superblock s0 =
    let s1 = super_set Superblock.magic superblock_magic s0 in
    let s2 = super_set Superblock.size fs_size s1 in
    let s3 = super_set Superblock.start fs_start s2 in
    let s4 = super_set Superblock.block_map_offset block_map_offset s3 in
    let s5 = super_set Superblock.block_map_num block_map_num s4 in
    let s6 = super_set Superblock.inode_map_offset inode_map_offset s5 in
    let s7 = super_set Superblock.inode_map_num inode_map_num s6 in
    let s8 = super_set Superblock.inode_block_offset inode_block_offset s7 in
    let s9 = super_set Superblock.inode_block_num inode_block_num s8 in
    let s10 = super_set Superblock.data_block_offset data_num_offset s9 in
    write_superblock (super_set Superblock.data_block_num data_block_num s10)

-- The question before a file system is made anew: what the keys say, or `none` as long as they say
-- nothing.
unfoldable pub wants_reset : List ℕ → Option Bool
wants_reset [] = none
wants_reset (x ∷ xs) =
    if x == b'y' || x == b'Y'
    then some true
    else if x == b'N' || x == b'n'
    then some false
    else wants_reset xs

-- `sct_buffer` to `n` sectors from `first` on
abbrev pub write_sectors : {c : Card} → (n first : ℕ) → Fs c → Fs c
write_sectors {c} n first s =
    for_range n first (λ i t. record t { disk = c.sd_write t.sct_buffer 1 i t.disk }) s

-- The maps and inodes set to 0, and the root directory.
pub reset : {c : Card} → Fs c → Option (Fs c)
reset s0 = do
  let s1 = record s0 { sct_buffer = memset 0 0 sector_size s0.sct_buffer }
  let s2 = write_sectors inode_map_num (fs_start + inode_map_offset) s1
  let s3 = write_sectors block_map_num (fs_start + block_map_offset) s2
  let s4 = write_sectors inode_block_num (fs_start + inode_block_offset) s3
  (root_inode_id, s5) ← alloc_inode s4
  (root_dir_block, s6) ← alloc_block s5
  let s7 = create_inode root_inode_id root_dir_block d_dir o_rdwr s6
  let s8 = write_inode (root_inode_id / 4) (update_inode (inode_ptr root_inode_id) s7)
  some (create_dir_block root_dir_block root_inode_id root_inode_id s8)

pub do_mkfs : {c : Card} → List ℕ → Fs c → Option (Fs c)
unfolding reset wants_reset
do_mkfs keys s0 =
    let s = read_superblock s0 in
    if is_formatted s
    then elim (wants_reset keys) [ none ↦ none | some false ↦ some s | some true ↦ reset s ]
    else reset (new_superblock s)

-- The marks that are set among the first `n`.
pub count_used : (n : ℕ) → (ℕ → ℕ) → ℕ
count_used n map = for_range n 0 (λ i k. if map i == 0 then k else k + 1) 0

-- The numbers of inodes and of blocks in use, if there is a file system. The map of blocks that is
-- counted is `BLOCK_MAP_NUM` sectors long.
pub do_statfs : {c : Card} → Fs c → Option (ℕ × ℕ) × Fs c
unfolding count_used
do_statfs s0 =
    let s1 = read_superblock s0 in
    let s2 = get_inode_map s1 in
    let s3 = get_block_map s2 in
    if is_formatted s1
    then (
      some (count_used sector_size s2.inode_map, count_used (block_map_num * 512) s3.block_map),
      s3,
    )
    else (none, s1)
