-- ===== src/FileSystem/Dentry.antt =====
-- The fields of `dentry_t` of include/os/fs.h, in entry i of a block of entries of 32 bytes.
use oslab_riscv.Prelude.{ℕ, ◌+◌, ◌*◌}

abbrev pub type : ℕ → ℕ
type i = 32 * i

abbrev pub inode_id : ℕ → ℕ
inode_id i = 32 * i + 4

abbrev pub name : ℕ → ℕ
name i = 32 * i + 8
