-- ===== src/FileSystem/Dentries.antt =====
-- Directory entries: search_dentry, create_dentry, delete_dentry and create_dir_block of
-- kernel/fs/fs.c. A directory has one block of 128 entries. `fuel` bounds the lengths of names.
pub mod Search
pub mod Adding
pub mod Added
pub mod Deleting
pub mod Deleted
pub mod Deletion
use Prim.Native.Nat.{bit_and}
use oslab_riscv.Prelude.{
  ℕ, zero, suc, ◌+◌, ◌-◌, ◌*◌, ◌/◌, ◌%◌, ◌^◌, Bool, not, ◌&&◌, Option, none, some, ◌>>=◌, update,
  ◌==◌, if◌then◌else◌, find_from,
}
use oslab_riscv.Prelude.Int.{ℤ, pos, eq_ℤ}
use oslab_riscv.Strings.{memset, copy_bytes, strlen, strcmp}
use oslab_riscv.FileSystem.{
  Card, Fs, get32, set32, none_id, block_size, d_dir, d_name, inode_get, inode_set,
}
use oslab_riscv.FileSystem.Inode
use oslab_riscv.FileSystem.Dentry
use oslab_riscv.FileSystem.Sectors.{inode_ptr, get_inode, write_inode, read_block, write_block}

-- The loop of `search_dentry` from entry `i` on: `find` entries in use were seen, of `file_num`.
unfoldable pub search_from : (fuel n i find file_num type name : ℕ) → (ℕ → ℕ) → (ℕ → ℕ) → Option ℕ
search_from fuel zero i find num type name blk mem = some none_id
search_from fuel (suc n) i find num type name blk mem =
    let t = get32 blk (Dentry.type i) in
    let seen = if t == 0 then find else find + 1 in
    let rest = search_from fuel n (i + 1) seen num type name blk mem in
    let next = if seen == num then some none_id else rest in
    if bit_and t type == 0 then next else elim (strcmp fuel (Dentry.name i) name blk mem) [
      | none ↦ none
      | some d ↦ if eq_ℤ d (pos 0) then some (get32 blk (Dentry.inode_id i)) else next
    ]

-- A C result of -1 is `none_id`.
unfoldable pub search_dentry :
    {c : Card} → (fuel search_inode name type : ℕ) → Fs c → Option (ℕ × Fs c)
unfolding search_from
search_dentry fuel search_inode name type s0 =
    let p = inode_ptr search_inode in
    let s1 = get_inode search_inode s0 in
    let s2 = read_block (inode_get (p + Inode.direct_block 0) s1) s1 in
    elim (search_from fuel 128 0 0 (inode_get (p + Inode.file_num) s2) type name s2.blk_buffer
      s2.mem) [ none ↦ none | some id ↦ some (id, s2) ]

abbrev pub blk_set : {c : Card} → ℕ → ℕ → Fs c → Fs c
blk_set o v s = record s { blk_buffer = set32 s.blk_buffer o v }

-- Entry `i` of the block gets its inode, type and name; the NUL of the name is not copied.
unfoldable pub fill_dentry : (i subdir_id type name len : ℕ) → (ℕ → ℕ) → (ℕ → ℕ) → ℕ → ℕ
fill_dentry i subdir_id type name len mem blk =
    copy_bytes (Dentry.name i) name len mem
      (set32 (set32 blk (Dentry.inode_id i) subdir_id) (Dentry.type i) type)

-- `file_num++`, and `links_count++` for a directory.
unfoldable pub count_dentry : {c : Card} → (p type : ℕ) → Fs c → Fs c
count_dentry p type s =
    let s1 = inode_set (p + Inode.file_num) (inode_get (p + Inode.file_num) s + 1) s in
    if type == d_dir
    then inode_set (p + Inode.links_count) (inode_get (p + Inode.links_count) s1 + 1) s1
    else s1

-- With no entry free the assertion fails.
unfoldable pub create_dentry :
    {c : Card} → (fuel dir_id subdir_id name type : ℕ) → Fs c → Option (ℕ × Fs c)
unfolding count_dentry fill_dentry
create_dentry fuel dir_id subdir_id name type s0 = do
  let p = inode_ptr dir_id
  let s1 = count_dentry p type (get_inode dir_id s0)
  let block = inode_get (p + Inode.direct_block 0) s1
  let s2 = read_block block s1
  let i = find_from 128 0 (λ j. get32 s2.blk_buffer (Dentry.type j) == 0)
  len ← strlen fuel name s2.mem
  let s3 = record s2 { blk_buffer = fill_dentry i subdir_id type name len s2.mem s2.blk_buffer }
  if i == 128 then none else some (subdir_id, write_block block (write_inode (dir_id / 4) s3))

-- Whether a directory has entries of its own or other links, and whether a file has other links.
abbrev pub is_busy : {c : Card} → ℕ → Fs c → Bool
is_busy p s =
    not (inode_get (p + Inode.file_num) s == 2 && inode_get (p + Inode.links_count) s == 1)

abbrev pub is_linked : {c : Card} → ℕ → Fs c → Bool
is_linked p s = not (inode_get (p + Inode.links_count) s == 1)

-- The part of `delete_dentry` that clears the entry; with none to clear the assertion fails.
unfoldable pub clear_dentry : {c : Card} → (dir_id subdir_id : ℕ) → Fs c → Option (Fs c)
clear_dentry dir_id subdir_id s0 =
    let p = inode_ptr dir_id in
    let s1 = get_inode dir_id s0 in
    let files = inode_get (p + Inode.file_num) s1 in
    let s2 = inode_set (p + Inode.file_num) (files + (2 ^ 32 - 1)) s1 in
    let links = inode_get (p + Inode.links_count) s2 in
    let s3 = inode_set (p + Inode.links_count) (links + (2 ^ 32 - 1)) s2 in
    let s4 = write_inode (dir_id / 4) s3 in
    let block = inode_get (p + Inode.direct_block 0) s4 in
    let s5 = read_block block s4 in
    let i = find_from 128 0 (λ j. get32 s5.blk_buffer (Dentry.inode_id j) == subdir_id) in
    let s6 = blk_set (Dentry.type i) 0 s5 in
    let s7 = record s6 { blk_buffer = memset (Dentry.name i) 0 d_name s6.blk_buffer } in
    if i == 128 then none else some (write_block block s7)

-- 0: there is more to delete first, or only the entry was; 1: the inode may go too.
unfoldable pub delete_dentry : {c : Card} → (dir_id subdir_id type : ℕ) → Fs c → Option (ℕ × Fs c)
unfolding clear_dentry
delete_dentry dir_id subdir_id type s0 =
    let p = inode_ptr subdir_id in
    let s1 = get_inode subdir_id s0 in
    if type == d_dir && is_busy p s1 then some (0, s1) else (do
      s2 ← clear_dentry dir_id subdir_id s1
      some (if not (type == d_dir) && is_linked p s1 then 0 else 1, s2))

-- The entries `.` and `..` of a new directory.
unfoldable pub create_dir_block :
    {c : Card} → (dir_block_id parent_inode_id dir_inode_id : ℕ) → Fs c → Fs c
create_dir_block dir_block_id parent_inode_id dir_inode_id s =
    let b0 = memset 0 0 block_size s.blk_buffer in
    let b1 = update b0 (Dentry.name 0) b'.' in
    let b2 = set32 (set32 b1 (Dentry.type 0) d_dir) (Dentry.inode_id 0) dir_inode_id in
    let b3 = update (update b2 (Dentry.name 1) b'.') (Dentry.name 1 + 1) b'.' in
    let b4 = set32 (set32 b3 (Dentry.type 1) d_dir) (Dentry.inode_id 1) parent_inode_id in
    write_block dir_block_id (record s { blk_buffer = b4 })
