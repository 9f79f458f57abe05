-- ===== src/FileSystem/Superblock.antt =====
-- The fields of `superblock_t` of include/os/fs.h.
use oslab_riscv.Prelude.{ℕ}

abbrev pub magic : ℕ
magic = 0

abbrev pub size : ℕ
size = 4

abbrev pub start : ℕ
start = 8

abbrev pub block_map_offset : ℕ
block_map_offset = 12

abbrev pub block_map_num : ℕ
block_map_num = 16

abbrev pub inode_map_offset : ℕ
inode_map_offset = 20

abbrev pub inode_map_num : ℕ
inode_map_num = 24

abbrev pub inode_block_offset : ℕ
inode_block_offset = 28

abbrev pub inode_block_num : ℕ
inode_block_num = 32

abbrev pub data_block_offset : ℕ
data_block_offset = 36

abbrev pub data_block_num : ℕ
data_block_num = 40
