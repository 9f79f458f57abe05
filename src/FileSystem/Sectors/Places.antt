-- ===== src/FileSystem/Sectors/Places.antt =====
-- Where the blocks and the inodes of kernel/fs/fs.c stand on the card.
use oslab_riscv.Prelude.{ℕ, ◌+◌, ◌*◌, ◌/◌, ◌<◌, ◌≡◌, arith}
use oslab_riscv.FileSystem.{fs_start, inode_block_offset, data_num_offset}
use oslab_riscv.FileSystem.Sectors.{block_sector}

-- Where block `b` begins on the card.
abbrev pub data_at : ℕ → ℕ
data_at b = 512 * (fs_start + data_num_offset + 8 * b)

pub sector-data_at : (b : ℕ) → b < 131072 → 512 * block_sector b ≡ data_at b
sector-data_at b l = omega arith

abbrev pub inode_sector : ℕ → ℕ
inode_sector id = fs_start + inode_block_offset + id / 4
