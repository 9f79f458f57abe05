-- ===== src/FileSystem/Tests/Entries.antt =====
-- The theorems about maps, inodes and directories on the card of the tests.
use oslab_riscv.Prelude.{
  ℕ, zero, suc, ◌+◌, ◌≤◌, ◌<◌, ◌≡◌, ◌≢◌, refl, ◌⊎◌, true, false, not, ◌&&◌, none, some, List, [],
  ◌∷◌, length, ◌==◌, find_from, arith,
}
use oslab_riscv.Strings.Copy.{IsString}
use oslab_riscv.FileSystem.{Fs, get32, d_dir, d_file, inode_get}
use oslab_riscv.FileSystem.Inode
use oslab_riscv.FileSystem.Dentry
use oslab_riscv.FileSystem.Sectors.{
  inode_ptr, read_inode, get_inode, read_block, get_inode_map, sync_inode_map, mark_inode,
  alloc_inode, free_inode_map,
}
use oslab_riscv.FileSystem.Sectors.Maps.{free_inode_map-alloc_inode}
use oslab_riscv.FileSystem.Sectors.Inodes.{inode_field}
use oslab_riscv.FileSystem.Dentries.{search_dentry, create_dentry, delete_dentry}
use oslab_riscv.FileSystem.Dentries.Search.{IsDirectory, used, Result, opened, search_dentry-Result}
use oslab_riscv.FileSystem.Dentries.Added.{card_type, Added, create_dentry-Added}
use oslab_riscv.FileSystem.Dentries.Deleted.{card_inode, Removed}
use oslab_riscv.FileSystem.Dentries.Deletion.{deleted_result, delete_dentry-Removed}
use oslab_riscv.FileSystem.Tests.{array_card, array_card-IsCard, root_disk, entries, root}

abbrev names : ℕ → List ℕ
names zero = b'.' ∷ []
names (suc zero) = b'.' ∷ b'.' ∷ []
names (suc (suc zero)) = b'a' ∷ []
names (suc (suc (suc i))) = []

entries-rest : (j : ℕ) → 8782944 ≤ j → entries j ≡ 0
entries-rest j l = ground arith

root_disk-rest : (j : ℕ) → 8782944 ≤ j → root_disk j ≡ 0
root_disk-rest j l = ground (arith, entries-rest j)

root_block-rest : (j : ℕ) → 96 ≤ j → j < 4096 → (opened 0 root).blk_buffer j ≡ 0
unfolding read_block get_inode read_inode get32
root_block-rest j a b = ground (arith, root_disk-rest (8782848 + j))

root-IsDirectory : IsDirectory 30 names (opened 0 root).blk_buffer
unfolding read_block get_inode read_inode get32
root-IsDirectory = record { name = named; short = short }
  where
    named : (i : ℕ) → i < 128 → IsString (Dentry.name i) (names i) (opened 0 root).blk_buffer
    named zero l = (refl, ground arith, refl)
    named (suc zero) l = (refl, ground arith, (refl, ground arith, refl))
    named (suc (suc zero)) l = (refl, ground arith, refl)
    named (suc (suc (suc i))) l =
        root_block-rest (Dentry.name (suc (suc (suc i)))) (omega arith) (omega arith)

    short : (i : ℕ) → i < 128 → length (names i) < 30
    short zero l = omega arith
    short (suc zero) l = omega arith
    short (suc (suc zero)) l = omega arith
    short (suc (suc (suc i))) l = omega arith

root_used :
    used 128 0 (opened 0 root).blk_buffer ≡ inode_get (inode_ptr 0 + Inode.file_num) (opened 0 root)
unfolding used read_block get_inode read_inode get32
root_used = refl

root_mem : IsString 100 (b'a' ∷ []) root.mem
root_mem = (refl, ground arith, refl)

search_dentry-Result_example :
    (id : ℕ) × (search_dentry 30 0 100 d_file root ≡ some (id, opened 0 root))
    × Result names (opened 0 root).blk_buffer d_file (b'a' ∷ []) 0 id
search_dentry-Result_example =
    search_dentry-Result 30 0 100 d_file names (b'a' ∷ []) root root-IsDirectory root_mem root_used

root_block : inode_field array_card-IsCard root 0 (Inode.direct_block 0) ≡ 0
unfolding get32
root_block = refl

root_files : inode_field array_card-IsCard root 0 Inode.file_num ≡ 3
unfolding get32
root_files = refl

root_links : inode_field array_card-IsCard root 0 Inode.links_count ≡ 1
unfolding get32
root_links = refl

create_dentry-Added_example :
    ((create_dentry 30 0 6 100 d_file root ≡ none)
      × ((j : ℕ) → j < 128 → card_type array_card-IsCard 0 root j ≢ 0))
    ⊎ ((i : ℕ) × (s' : Fs array_card) × (create_dentry 30 0 6 100 d_file root ≡ some (6, s'))
        × Added array_card-IsCard 0 0 6 d_file 100 1 i root s')
create_dentry-Added_example =
    create_dentry-Added array_card-IsCard 30 0 0 6 100 d_file (b'a' ∷ []) root (omega arith)
      root_block (omega arith) root_mem (omega arith) (omega arith) (omega arith) (omega arith)
      (omega (arith, root_files)) (omega (arith, root_links))

delete_dentry-Removed_example :
    let files = inode_field array_card-IsCard root 5 Inode.file_num in
    let links = inode_field array_card-IsCard root 5 Inode.links_count in
    let busy = d_file == d_dir && not (files == 2 && links == 1) in
    ((busy ≡ true) × (delete_dentry 0 5 d_file root ≡ some (0, get_inode 5 root)))
    ⊎ (((busy ≡ false)
          × (delete_dentry 0 5 d_file root ≡ none)
          × ((j : ℕ) → j < 128 → card_inode array_card-IsCard 0 root j ≢ 5))
        ⊎ ((i : ℕ) × (s' : Fs array_card) × (busy ≡ false)
            × (delete_dentry 0 5 d_file root ≡ some (deleted_result d_file links, s'))
            × Removed array_card-IsCard 0 0 5 i root s'))
delete_dentry-Removed_example =
    delete_dentry-Removed array_card-IsCard 0 0 5 d_file root (omega arith) root_block (omega arith)
      (omega (arith, root_files)) (omega (arith, root_files)) (omega (arith, root_links))
      (omega (arith, root_links))

-- The state after `alloc_inode`.
abbrev with_inode_one : Fs array_card
with_inode_one = sync_inode_map (mark_inode 1 1 (get_inode_map root))

takes_one : alloc_inode root ≡ some (1, with_inode_one)
unfolding alloc_inode get_inode_map sync_inode_map find_from
takes_one = refl

free_inode_map-alloc_inode_example :
    (s'' : Fs array_card) × (free_inode_map 1 with_inode_one ≡ some s'')
    × ((j : ℕ) → s''.disk j ≡ root_disk j)
free_inode_map-alloc_inode_example =
    free_inode_map-alloc_inode array_card-IsCard 1 root with_inode_one takes_one
