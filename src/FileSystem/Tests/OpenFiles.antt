-- ===== src/FileSystem/Tests/OpenFiles.antt =====
-- The theorems about open files on the card of the tests.
use Prim.Native.Nat.{bit_and}
use oslab_riscv.Prelude.{
  ℕ, zero, suc, ◌+◌, ◌≤◌, ◌<◌, ◌≡◌, ◌≢◌, refl, ◌⊎◌, none, some, List, [], ◌∷◌, ◌++◌, arith,
}
use oslab_riscv.Strings.Copy.{IsString}
use oslab_riscv.FileSystem.{Fs, get32, none_id, num_fdescs, d_file, f_available}
use oslab_riscv.FileSystem.Inode
use oslab_riscv.FileSystem.Sectors.{get_inode, read_inode}
use oslab_riscv.FileSystem.Sectors.Inodes.{inode_field}
use oslab_riscv.FileSystem.Files.{seek_target, open_inode, do_fread, do_fwrite}
use oslab_riscv.FileSystem.Files.OneBlock.{InBlock}
use oslab_riscv.FileSystem.Files.Chunks.{IsInode}
use oslab_riscv.FileSystem.Files.Stored.{Stored, do_fwrite-Stored}
use oslab_riscv.FileSystem.Files.Transfer.{do_fread-do_fwrite}
use oslab_riscv.FileSystem.Files.Opening.{Opened, open_inode-Opened}
use oslab_riscv.FileSystem.Files.Seeking.{Targets}
use oslab_riscv.Strings.{strcmp}
use oslab_riscv.FileSystem.Names.Cut.{IsPart, last, more}
use oslab_riscv.FileSystem.Sectors.{read_block}
use oslab_riscv.FileSystem.Dentries.{search_from, search_dentry}
use oslab_riscv.FileSystem.Dentries.Search.{opened}
use oslab_riscv.FileSystem.Walk.{current_id}
use oslab_riscv.FileSystem.Tests.{strings, array_card, array_card-IsCard, root}

size_five : inode_field array_card-IsCard root 5 Inode.size ≡ 6
unfolding get32
size_five = refl

five-IsInode : IsInode array_card-IsCard 5 root
unfolding get32
five-IsInode = record { range = omega arith; own_id = refl }

five-InBlock : InBlock array_card-IsCard 5 0 3 root
unfolding get32
five-InBlock = record {
  direct = omega arith;
  one = omega arith;
  some_byte = ground arith;
  there = ground arith;
}

block_five : inode_field array_card-IsCard root 5 (Inode.direct_block 0) ≡ 7
unfolding get32
block_five = refl

do_fwrite-Stored_example :
    (s' : Fs array_card) × (do_fwrite 0 100 3 root ≡ some (3, s'))
    × Stored array_card-IsCard 5 0
        (inode_field array_card-IsCard root 5 (Inode.direct_block 0))
        0
        100
        3
        root
        s'
do_fwrite-Stored_example =
    do_fwrite-Stored array_card-IsCard 0 100 3 root (ground arith) (ground arith) five-IsInode
      five-InBlock (ground (arith, block_five)) (ground (arith, size_five))

do_fread-do_fwrite_example :
    (s' : Fs array_card) × (s'' : Fs array_card) × (do_fwrite 0 100 3 root ≡ some (3, s'))
    × (do_fread 0 300 3 s' ≡ some (3, s''))
    × ((j : ℕ) → j < 3 → s''.mem (300 + j) ≡ root.mem (100 + j))
do_fread-do_fwrite_example =
    do_fread-do_fwrite array_card-IsCard 0 100 300 3 root refl (ground arith) refl five-IsInode
      five-InBlock (ground (arith, block_five)) (ground (arith, size_five))

open_inode-Opened_example :
    ((bit_and (inode_field array_card-IsCard root 5 Inode.mode) 3 ≡ 0)
      × (open_inode 9 5 3 root ≡ some (none_id, get_inode 5 root)))
    ⊎ (((bit_and (inode_field array_card-IsCard root 5 Inode.mode) 3 ≢ 0)
          × (open_inode 9 5 3 root ≡ none)
          × ((j : ℕ) → j < num_fdescs → (root.fdesc_array j).status ≢ f_available))
        ⊎ ((i : ℕ) × (s' : Fs array_card) × (bit_and
                (inode_field array_card-IsCard root 5 Inode.mode)
                3
              ≢ 0)
            × (open_inode 9 5 3 root ≡ some (i, s'))
            × Opened array_card-IsCard 9 5 3 i root s'))
open_inode-Opened_example =
    open_inode-Opened array_card-IsCard 9 5 3 root (omega arith) (omega arith)

seek_four : Targets array_card-IsCard 1 4 0 4 root
unfolding seek_target get32
seek_four = refl

abbrev long_name : ℕ → List ℕ
long_name zero = []
long_name (suc n) = b'x' ∷ long_name n

long_name-IsPart : (n : ℕ) → IsPart (long_name n)
long_name-IsPart zero = last
long_name-IsPart (suc n) = more (ground arith) (ground arith) (long_name-IsPart n)

long_name-IsString : (n p : ℕ) → 500 ≤ p → p + n ≡ 524 → IsString p (long_name n ++ []) strings
long_name-IsString zero p l e = let here : p ≡ 524 = omega arith in rw here refl
long_name-IsString (suc n) p l e =
    (ground arith, ground arith, long_name-IsString n (p + 1) (omega arith) (omega arith))

not_there : search_dentry 30 (current_id root) 500 d_file root ≡ some (none_id, opened 0 root)
unfolding search_dentry search_from strcmp get32 get_inode read_inode read_block
not_there = refl

long_path : IsString 500 (long_name 24 ++ []) (opened 0 root).mem
unfolding get_inode read_inode read_block
long_path = long_name-IsString 24 500 (omega arith) refl
