-- ===== src/FileSystem.antt =====
-- The state of kernel/fs/fs.c and what include/os/fs.h declares. The buffers and maps are arrays of
-- bytes, as in C, and a pointer to a structure in a buffer is the position of its first byte. The SD
-- card is a parameter: what the BIOS does on `sd_read` and `sd_write`.
pub mod Inode
pub mod Dentry
pub mod Superblock
pub mod Sectors
pub mod Names
pub mod Dentries
pub mod Locate
pub mod Walk
pub mod Calls
pub mod Listing
pub mod Files
pub mod Format
pub mod Tests
use oslab_riscv.Prelude.{ℕ, ◌+◌, ◌-◌, ◌*◌, ◌/◌, ◌%◌, ◌≤◌, ◌<◌, ◌≡◌, ◌⊎◌, update}

-- `sd_read(buffer, count, sector)` gives the buffer's new bytes, and `sd_write` the card's new state.
pub record Card : Type 1 where
  pub Disk : Type 0
  pub sd_read : Disk → ℕ → ℕ → (ℕ → ℕ) → ℕ → ℕ
  pub sd_write : (ℕ → ℕ) → ℕ → ℕ → Disk → Disk

-- What the code relies on: the card is an array of bytes in sectors of 512, a read fills the buffer
-- from it and a write stores the buffer in it.
pub record IsCard (c : Card) : Type 0 where
  pub byte_at : c.Disk → ℕ → ℕ
  pub read_in :
      (d : c.Disk) (n s : ℕ) (b : ℕ → ℕ) (j : ℕ)
      → j < 512 * n
      → c.sd_read d n s b j ≡ byte_at d (512 * s + j)
  pub read_out :
      (d : c.Disk) (n s : ℕ) (b : ℕ → ℕ) (j : ℕ) → 512 * n ≤ j → c.sd_read d n s b j ≡ b j
  pub write_in :
      (b : ℕ → ℕ) (n s : ℕ) (d : c.Disk) (j : ℕ)
      → j < 512 * n
      → byte_at (c.sd_write b n s d) (512 * s + j) ≡ b j
  pub write_out :
      (b : ℕ → ℕ) (n s : ℕ) (d : c.Disk) (j : ℕ)
      → (j < 512 * s) ⊎ (512 * (s + n) ≤ j)
      → byte_at (c.sd_write b n s d) j ≡ byte_at d j

-- `fdesc_t`
pub record Fdesc : Type 0 where
  pub inode_id : ℕ
  pub status : ℕ
  pub mode : ℕ
  pub rd_offset : ℕ
  pub wr_offset : ℕ

-- The globals of fs.c, the card, and the memory that the callers' pointers lead to.
pub record Fs (c : Card) : Type 0 where
  pub disk : c.Disk
  pub superblock : ℕ → ℕ
  pub current_inode : ℕ → ℕ
  pub fdesc_array : ℕ → Fdesc
  pub inode_map : ℕ → ℕ
  pub block_map : ℕ → ℕ
  pub sct_buffer : ℕ → ℕ
  pub blk_buffer : ℕ → ℕ
  pub mem : ℕ → ℕ

-- A `uint32_t` at a position, its low byte first.
unfoldable pub get32 : (ℕ → ℕ) → ℕ → ℕ
get32 b o = b o + 256 * b (o + 1) + 65536 * b (o + 2) + 16777216 * b (o + 3)

unfoldable pub set32 : (ℕ → ℕ) → ℕ → ℕ → ℕ → ℕ
set32 b o v =
    update
      (update (update (update b o (v % 256)) (o + 1) (v / 256 % 256)) (o + 2) (v / 65536 % 256))
      (o + 3) (v / 16777216 % 256)

-- -1 as a `uint32_t`
abbrev pub none_id : ℕ
none_id = 0xffffffff

abbrev pub superblock_magic : ℕ
superblock_magic = 0x20221205

abbrev pub num_fdescs : ℕ
num_fdescs = 16

abbrev pub fs_size : ℕ
fs_size = 1049346

abbrev pub fs_start : ℕ
fs_start = 16384

abbrev pub inode_map_offset : ℕ
inode_map_offset = 1

abbrev pub inode_map_num : ℕ
inode_map_num = 1

abbrev pub block_map_offset : ℕ
block_map_offset = 2

abbrev pub block_map_num : ℕ
block_map_num = 256

abbrev pub inode_block_offset : ℕ
inode_block_offset = 258

abbrev pub inode_block_num : ℕ
inode_block_num = 512

abbrev pub data_num_offset : ℕ
data_num_offset = 770

abbrev pub data_block_num : ℕ
data_block_num = 1048576

abbrev pub sector_size : ℕ
sector_size = 512

abbrev pub block_size : ℕ
block_size = 4096

-- `O_RDONLY`, `O_WRONLY`, `O_RDWR`; `I_DIR` and `D_DIR`, `I_FILE` and `D_FILE`, `D_LINK`;
-- `F_AVAILABLE`, `F_OCCUPIED`; `SEEK_SET`, `SEEK_CUR`, `SEEK_END`; `D_NAME`
abbrev pub o_rdonly : ℕ
o_rdonly = 1

abbrev pub o_wronly : ℕ
o_wronly = 2

abbrev pub o_rdwr : ℕ
o_rdwr = 3

abbrev pub d_dir : ℕ
d_dir = 1

abbrev pub d_file : ℕ
d_file = 2

abbrev pub d_link : ℕ
d_link = 3

abbrev pub f_available : ℕ
f_available = 0

abbrev pub f_occupied : ℕ
f_occupied = 1

abbrev pub seek_set : ℕ
seek_set = 0

abbrev pub seek_cur : ℕ
seek_cur = 1

abbrev pub seek_end : ℕ
seek_end = 2

abbrev pub d_name : ℕ
d_name = 24

-- Reading and writing a field of the inode that stands at `p` in `sct_buffer`.
abbrev pub inode_get : {c : Card} → ℕ → Fs c → ℕ
inode_get o s = get32 s.sct_buffer o

abbrev pub inode_set : {c : Card} → ℕ → ℕ → Fs c → Fs c
inode_set o v s = record s { sct_buffer = set32 s.sct_buffer o v }
