-- ===== src/FileSystem/Listing.antt =====
-- do_ls and do_cd of kernel/fs/fs.c: what is printed of each entry is a result.
use Prim.Native.Nat.{bit_and}
use oslab_riscv.Prelude.{
  ℕ, zero, suc, ◌+◌, Bool, true, false, not, Option, none, some, List, [], ◌∷◌, ◌==◌, if◌then◌else◌,
}
use oslab_riscv.FileSystem.{Card, Fs, get32, inode_get}
use oslab_riscv.FileSystem.Inode
use oslab_riscv.FileSystem.Dentry
use oslab_riscv.FileSystem.Sectors.{inode_ptr, get_inode, update_inode, read_block}
use oslab_riscv.FileSystem.Walk.{current_id, descend}

-- What `do_ls` prints of an entry: where its name stands, and with `all` its inode's type, id, mode,
-- links and size.
pub record Listed : Type 0 where
  pub name : ℕ
  pub details : List ℕ

-- The loop of `do_ls` from entry `i` on, while `dentry_num` entries are left.
pub list_from : {c : Card} → (all : Bool) (n i dentry_num : ℕ) → Fs c → List Listed × Fs c
list_from all zero i left s = ([], s)
list_from all (suc n) i zero s = ([], s)
list_from all (suc n) i (suc left) s =
    let id = get32 s.blk_buffer (Dentry.inode_id i) in
    let p = inode_ptr id in
    elim (get32 s.blk_buffer (Dentry.type i) == 0) [
      | true ↦ list_from all n (i + 1) (suc left) s
      | false ↦
          let s1 = if all then get_inode id s else s in
          let field = λ (o : ℕ). inode_get (p + o) s1 in
          let details =
            if all
            then field Inode.type
              ∷ field Inode.inode_id
              ∷ field Inode.mode
              ∷ field Inode.links_count
              ∷ field Inode.size
              ∷ []
            else [] in
          let (rest, s2) = list_from all n (i + 1) left s1 in
          (record { name = Dentry.name i; details = details } ∷ rest, s2)
    ]

-- The entries of directory `dir_id`.
pub list_dir : {c : Card} → (all : Bool) (dir_id : ℕ) → Fs c → List Listed × Fs c
unfolding list_from
list_dir all dir_id s =
    let p = inode_ptr dir_id in
    let s1 = get_inode dir_id s in
    let s2 = read_block (inode_get (p + Inode.direct_block 0) s1) s1 in
    list_from all 128 0 (inode_get (p + Inode.file_num) s2) s2

-- `option & 1`: a path is given; `option & 2`: the details are asked for.
pub do_ls : {c : Card} → (fuel path option : ℕ) → Fs c → Option (List Listed × Fs c)
unfolding list_dir
do_ls fuel path option s =
    let all = not (bit_and option 2 == 0) in
    if bit_and option 1 == 0
    then some (list_dir all (current_id s) s)
    else elim (descend fuel fuel (current_id s) path s) [
      | none ↦ none
      | some (none, s1) ↦ some ([], s1)
      | some (some id, s1) ↦ some (list_dir all id s1)
    ]

pub do_cd : {c : Card} → (fuel path : ℕ) → Fs c → Option (ℕ × Fs c)
do_cd fuel path s = elim (descend fuel fuel (current_id s) path s) [
  | none ↦ none
  | some (none, s1) ↦ some (0, s1)
  | some (some id, s1) ↦ some (0, update_inode (inode_ptr id) (get_inode id s1))
]
