-- ===== src/FileSystem/Inode.antt =====
-- The fields of `inode_t` of include/os/fs.h: the position of each in the structure of 128 bytes.
use oslab_riscv.Prelude.{ℕ, ◌+◌, ◌*◌}

abbrev pub mode : ℕ
mode = 0

abbrev pub type : ℕ
type = 4

abbrev pub uid : ℕ
uid = 8

abbrev pub inode_id : ℕ
inode_id = 12

abbrev pub file_num : ℕ
file_num = 16

abbrev pub size : ℕ
size = 20

abbrev pub links_count : ℕ
links_count = 24

abbrev pub blocks : ℕ
blocks = 28

abbrev pub direct_block : ℕ → ℕ
direct_block i = 32 + 4 * i

abbrev pub first_block : ℕ → ℕ
first_block i = 88 + 4 * i

abbrev pub second_block : ℕ → ℕ
second_block i = 100 + 4 * i

abbrev pub third_block : ℕ → ℕ
third_block i = 108 + 4 * i
