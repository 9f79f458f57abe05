-- ===== src/FileSystem/Locate.antt =====
-- byte_locate of kernel/fs/fs.c: the block of a file that holds a byte. Blocks that are missing on the
-- way are allocated. `p` is the inode's position in `sct_buffer`.
pub mod Levels
use oslab_riscv.Prelude.{
  ℕ, ◌+◌, ◌-◌, ◌*◌, ◌/◌, ◌%◌, ◌^◌, Option, none, some, ◌>>=◌, ◌==◌, ltb, if◌then◌else◌,
}
use oslab_riscv.FileSystem.{Card, Fs, get32, set32, inode_get, inode_set}
use oslab_riscv.FileSystem.Inode
use oslab_riscv.FileSystem.Sectors.{
  alloc_block, read_block, write_block, write_inode, create_file_block,
}
use oslab_riscv.FileSystem.Dentries.{blk_set}

-- `DIRECT_SIZE`, `FIRST_BLOCK_SIZE`, ..., `THIRD_LEVEL_SIZE`
abbrev pub direct_size : ℕ
direct_size = 14

abbrev pub first_block_size : ℕ
first_block_size = 1024

abbrev pub second_block_size : ℕ
second_block_size = 1048576

abbrev pub third_block_size : ℕ
third_block_size = 1073741824

abbrev pub first_level_size : ℕ
first_level_size = 3072

abbrev pub second_level_size : ℕ
second_level_size = 2097152

abbrev pub third_level_size : ℕ
third_level_size = 1073741824

-- The first part of `byte_locate`: by how many index blocks the page is reached, and its number
-- among the pages that are reached so.
unfoldable pub block_level : ℕ → Option (ℕ × ℕ)
block_level page_id =
    if ltb page_id direct_size
    then some (0, page_id)
    else if ltb page_id (direct_size + first_level_size)
    then some (1, page_id - direct_size)
    else if ltb page_id (direct_size + first_level_size + second_level_size)
    then some (2, page_id - (direct_size + first_level_size))
    else if ltb page_id (direct_size + first_level_size + second_level_size + third_level_size)
    then some (3, page_id - (direct_size + first_level_size + second_level_size))
    else none

-- `in_inode->blocks++`
abbrev pub count_block : {c : Card} → ℕ → Fs c → Fs c
count_block p s = inode_set (p + Inode.blocks) (inode_get (p + Inode.blocks) s + 1) s

-- The id in the inode's field at `from`; if it is 0 a new block, empty, goes to the field at `to`.
unfoldable pub inode_child : {c : Card} → (p from to : ℕ) → Fs c → Option (ℕ × Fs c)
inode_child p from to s =
    if inode_get (p + from) s == 0
    then (do
      (id, s1) ← alloc_block s
      some (id, create_file_block id (count_block p (inode_set (p + to) id s1))))
    else some (inode_get (p + from) s, s)

-- Entry `i` of the index block `parent`; if it is 0 a new block, empty, is entered.
unfoldable pub block_child : {c : Card} → (p parent i : ℕ) → Fs c → Option (ℕ × Fs c)
block_child p parent i s0 =
    let s = read_block parent s0 in
    if get32 s.blk_buffer (4 * i) == 0
    then (do
      (id, s1) ← alloc_block s
      let s2 = write_block parent (count_block p (blk_set (4 * i) id s1))
      some (id, create_file_block id s2))
    else some (get32 s.blk_buffer (4 * i), s)

-- The `switch` of `byte_locate`: the id of the block of data.
unfoldable pub find_block : {c : Card} → (p level page_id : ℕ) → Fs c → Option (ℕ × Fs c)
unfolding inode_child block_child
find_block p ℕ.zero page_id s =
    inode_child p (Inode.direct_block page_id) (Inode.direct_block page_id) s
find_block p (ℕ.suc ℕ.zero) page_id s = do
  let f = Inode.first_block (page_id / 1024)
  (first_id, s1) ← inode_child p f f s
  block_child p first_id (page_id % first_block_size) s1
find_block p (ℕ.suc (ℕ.suc ℕ.zero)) page_id s = do
  let f = Inode.second_block (page_id / 1048576)
  (second_id, s1) ← inode_child p f f s
  let page = page_id % second_block_size
  (first_id, s2) ← block_child p second_id (page / 1024) s1
  block_child p first_id (page % first_block_size) s2
find_block p (ℕ.suc (ℕ.suc (ℕ.suc n))) page_id s = do
  let i = page_id / 1073741824
  (third_id, s1) ← inode_child p (Inode.second_block i) (Inode.third_block i) s
  let page = page_id % third_block_size
  (second_id, s2) ← block_child p third_id (page / 1048576) s1
  let page' = page % second_block_size
  (first_id, s3) ← block_child p second_id (page' / 1024) s2
  block_child p first_id (page' % first_block_size) s3

-- What `byte_locate` comes to: a C result of -1, or the block and the offset in it.
pub data Located : Type 0 where
  out_of_range : Located
  block_at : (block_id block_offset : ℕ) → Located

unfoldable pub byte_locate : {c : Card} → (offset p : ℕ) → Fs c → Option (Located × Fs c)
unfolding block_level find_block
byte_locate offset p s = elim (block_level (offset / 4096)) [
  | none ↦ some (out_of_range, s)
  | some (level, page_id) ↦ (do
    (id, s1) ← find_block p level page_id s
    some (block_at id (offset % 4096), write_inode (inode_get (p + Inode.inode_id) s1 / 4) s1))
]
