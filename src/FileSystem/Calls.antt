-- ===== src/FileSystem/Calls.antt =====
-- The calls of kernel/fs/fs.c on entries of directories: do_mkdir, do_rmdir, do_touch, do_cat,
-- do_ln and do_rm. A result of -1 is `none_id`; what is printed but for messages is a result too.
use Prim.Native.Nat.{bit_or}
use oslab_riscv.Prelude.{ℕ, ◌+◌, ◌/◌, true, false, Option, none, some, ◌>>=◌, ◌==◌, if◌then◌else◌}
use oslab_riscv.Strings.{memset}
use oslab_riscv.FileSystem.{Card, Fs, none_id, o_rdwr, d_dir, d_file, d_link, inode_get, inode_set}
use oslab_riscv.FileSystem.Inode
use oslab_riscv.FileSystem.Sectors.{
  alloc_inode, free_inode_map, inode_ptr, get_inode, write_inode, create_inode, alloc_block,
  read_block, release_block, create_file_block,
}
use oslab_riscv.FileSystem.Names.{is_name_illegal}
use oslab_riscv.FileSystem.Dentries.{search_dentry, create_dentry, delete_dentry, create_dir_block}
use oslab_riscv.FileSystem.Walk.{too_long, missing, reached, walk}

-- A new entry of the type, with a new inode of one new block: the inode and the block.
unfoldable pub make_entry : {c : Card} → (fuel dir_id dir type : ℕ) → Fs c → Option (ℕ × ℕ × Fs c)
make_entry fuel dir_id dir type s = do
  (new_id, s1) ← alloc_inode s
  (dentry_id, s2) ← create_dentry fuel dir_id new_id dir type s1
  (block_id, s3) ← alloc_block s2
  let s4 = create_inode dentry_id block_id type o_rdwr s3
  some (dentry_id, block_id, write_inode (dentry_id / 4) s4)

-- What `do_mkdir` and `do_touch` do once the directory and the name are known: an illegal name or
-- one that is there is an error.
unfoldable pub make_new :
    {c : Card} → (fuel dir_id dir type : ℕ) → Fs c → Option (Option (ℕ × ℕ) × Fs c)
unfolding make_entry
make_new fuel dir_id dir type s = elim (is_name_illegal fuel dir s.mem) [
  | none ↦ none
  | some bad ↦ elim bad [
    | true ↦ some (none, s)
    | false ↦ elim (search_dentry fuel dir_id dir type s) [
      | none ↦ none
      | some (old_id, s1) ↦ elim (old_id == none_id) [
        | false ↦ some (none, s1)
        | true ↦ elim (make_entry fuel dir_id dir type s1) [
          | none ↦ none
          | some (dentry_id, block_id, s2) ↦ some (some (dentry_id, block_id), s2)
        ]
      ]
    ]
  ]
]

unfoldable pub mkdir_at : {c : Card} → (fuel dir_id dir : ℕ) → Fs c → Option (ℕ × Fs c)
unfolding make_new
mkdir_at fuel dir_id dir s = elim (make_new fuel dir_id dir d_dir s) [
  | none ↦ none
  | some (none, s1) ↦ some (none_id, s1)
  | some (some (dentry_id, block_id), s1) ↦ some (0, create_dir_block block_id dir_id dentry_id s1)
]

unfoldable pub touch_at : {c : Card} → (fuel dir_id dir : ℕ) → Fs c → Option (ℕ × Fs c)
unfolding make_new
touch_at fuel dir_id dir s = elim (make_new fuel dir_id dir d_file s) [
  | none ↦ none
  | some (none, s1) ↦ some (none_id, s1)
  | some (some (dentry_id, block_id), s1) ↦ some (dentry_id, create_file_block block_id s1)
]

-- The calls return 0 where the path does not lead anywhere, and else go on with `at`.
abbrev pub on_path :
    {c : Card} → (fuel path : ℕ) → (ℕ → ℕ → Fs c → Option (ℕ × Fs c)) → Fs c → Option (ℕ × Fs c)
on_path fuel path act s = elim (walk fuel path s) [
  | none ↦ none
  | some (too_long, s1) ↦ some (0, s1)
  | some (missing, s1) ↦ some (0, s1)
  | some (reached dir_id dir, s1) ↦ act dir_id dir s1
]

pub do_mkdir : {c : Card} → (fuel path : ℕ) → Fs c → Option (ℕ × Fs c)
unfolding mkdir_at
do_mkdir fuel path s = on_path fuel path (mkdir_at fuel) s

unfoldable pub do_touch : {c : Card} → (fuel path : ℕ) → Fs c → Option (ℕ × Fs c)
unfolding touch_at
do_touch fuel path s = on_path fuel path (touch_at fuel) s

-- The inode, its first block and its mark are given up; its type must be the one given.
unfoldable pub drop_inode : {c : Card} → (id type : ℕ) → Fs c → Option (Fs c)
drop_inode id type s0 =
    let p = inode_ptr id in
    let s = get_inode id s0 in
    if inode_get (p + Inode.type) s == type
    then (do
      s1 ← release_block (inode_get (p + Inode.direct_block 0) s) s
      let s2 = write_inode (id / 4) (record s1 { sct_buffer = memset p 0 128 s1.sct_buffer })
      free_inode_map id s2)
    else none

-- `do_rmdir` and `do_rm` once the directory and the name are known.
unfoldable pub remove_at : {c : Card} → (type fuel dir_id dir : ℕ) → Fs c → Option (ℕ × Fs c)
unfolding drop_inode
remove_at type fuel dir_id dir s = elim (search_dentry fuel dir_id dir type s) [
  | none ↦ none
  | some (id, s1) ↦ elim (id == none_id) [
    | true ↦ some (none_id, s1)
    | false ↦ elim (delete_dentry dir_id id type s1) [
      | none ↦ none
      | some (ret, s2) ↦ elim (ret == 0) [
        | true ↦ some (none_id, s2)
        | false ↦ elim (drop_inode id type s2) [ none ↦ none | some s3 ↦ some (0, s3) ]
      ]
    ]
  ]
]

pub do_rmdir : {c : Card} → (fuel path : ℕ) → Fs c → Option (ℕ × Fs c)
unfolding remove_at
do_rmdir fuel path s = on_path fuel path (remove_at d_dir fuel) s

pub do_rm : {c : Card} → (fuel path : ℕ) → Fs c → Option (ℕ × Fs c)
unfolding remove_at
do_rm fuel path s = on_path fuel path (remove_at d_file fuel) s

-- `do_ln` once both ends are known: one more link to the source's inode.
pub link_at :
    {c : Card} → (fuel src_dir_id src_dir dst_dir_id dst_dir : ℕ) → Fs c → Option (ℕ × Fs c)
link_at fuel src_dir_id src_dir dst_dir_id dst_dir s =
    elim (search_dentry fuel src_dir_id src_dir (bit_or d_dir d_file) s) [
      | none ↦ none
      | some (src_id, s1) ↦ elim (src_id == none_id) [
        | true ↦ some (none_id, s1)
        | false ↦ elim (search_dentry fuel dst_dir_id dst_dir d_link s1) [
          | none ↦ none
          | some (dst_id, s2) ↦ elim (dst_id == none_id) [
            | false ↦ some (none_id, s2)
            | true ↦
                let o = inode_ptr src_id + Inode.links_count in
                let s3 = get_inode src_id s2 in
                let s4 = write_inode (src_id / 4) (inode_set o (inode_get o s3 + 1) s3) in
                elim (create_dentry fuel dst_dir_id src_id dst_dir d_link s4) [
                  | none ↦ none
                  | some (id, s5) ↦ some (0, s5)
                ]
          ]
        ]
      ]
    ]

pub do_ln : {c : Card} → (fuel src_path dst_path : ℕ) → Fs c → Option (ℕ × Fs c)
unfolding link_at
do_ln fuel src_path dst_path s =
    on_path fuel src_path
      (λ src_id src s1.
        on_path fuel dst_path (λ dst_id dst s2. link_at fuel src_id src dst_id dst s2) s1)
      s

-- The part of `do_cat` on a name: the block that it prints up to its first NUL, or nothing.
unfoldable pub cat_at : {c : Card} → (fuel dir_id dir : ℕ) → Fs c → Option (ℕ × Fs c)
cat_at fuel dir_id dir s = elim (search_dentry fuel dir_id dir d_file s) [
  | none ↦ none
  | some (id, s1) ↦ elim (id == none_id) [
    | true ↦ some (none_id, s1)
    | false ↦
        let s2 = get_inode id s1 in
        some (0, read_block (inode_get (inode_ptr id + Inode.direct_block 0) s2) s2)
  ]
]

-- It prints what it leaves in `blk_buffer`.
pub do_cat : {c : Card} → (fuel path : ℕ) → Fs c → Option (ℕ × Fs c)
unfolding cat_at
do_cat fuel path s = on_path fuel path (cat_at fuel) s
