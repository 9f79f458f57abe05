-- ===== src/FileSystem/Tests.antt =====
-- The theorems about kernel/fs/fs.c on one card: the root directory, inode 0 with block 0, has the
-- entries "." and ".." and the file "a", inode 5 with block 7 and 6 bytes.
pub mod Paths
pub mod Entries
pub mod OpenFiles
pub mod Formatting
use oslab_riscv.Prelude.{
  ℕ, zero, suc, ◌+◌, ◌-◌, ◌*◌, ◌≤◌, ◌<◌, ◌⊎◌, inl, inr, ◌≡◌, refl, ◌&&◌, update, ◌==◌, leb, ltb,
  if◌then◌else◌, arith,
}
use oslab_riscv.FileSystem.{Card, IsCard, Fdesc, Fs}

-- A card that is an array of bytes.
abbrev pub array_card : Card
array_card = record {
  Disk = ℕ → ℕ;
  sd_read = λ d n s b j. if ltb j (512 * n) then d (512 * s + j) else b j;
  sd_write = λ b n s d j. if leb (512 * s) j && ltb j (512 * (s + n)) then b (j - 512 * s) else d j;
}

pub read_in_range :
    (d : ℕ → ℕ) (n s : ℕ) (b : ℕ → ℕ) (j : ℕ)
    → j < 512 * n
    → array_card.sd_read d n s b j ≡ d (512 * s + j)
read_in_range d n s b j l = ground arith

pub read_out_range :
    (d : ℕ → ℕ) (n s : ℕ) (b : ℕ → ℕ) (j : ℕ) → 512 * n ≤ j → array_card.sd_read d n s b j ≡ b j
read_out_range d n s b j l = ground arith

pub write_out_range :
    (b : ℕ → ℕ) (n s : ℕ) (d : ℕ → ℕ) (j : ℕ)
    → (j < 512 * s) ⊎ (512 * (s + n) ≤ j)
    → array_card.sd_write b n s d j ≡ d j
write_out_range b n s d j o = ground arith

pub write_in_range :
    (b : ℕ → ℕ) (n s : ℕ) (d : ℕ → ℕ) (j : ℕ)
    → j < 512 * n
    → array_card.sd_write b n s d (512 * s + j) ≡ b j
write_in_range b n s d j l =
    let there : 512 * s + j - 512 * s ≡ j = omega arith in rw there (ground arith)

abbrev pub array_card-IsCard : IsCard array_card
array_card-IsCard = record {
  byte_at = λ d. d;
  read_in = read_in_range;
  read_out = read_out_range;
  write_in = write_in_range;
  write_out = write_out_range;
}

-- The entries of block 0.
abbrev pub entries : ℕ → ℕ
entries j =
    if j == 8782848
    then 1
    else if j == 8782856
    then b'.'
    else if j == 8782880
    then 1
    else if j == 8782888
    then b'.'
    else if j == 8782889
    then b'.'
    else if j == 8782912
    then 2
    else if j == 8782916
    then 5
    else if j == 8782920
    then b'a'
    else 0

-- Inode 0 and inode 5 in the table of inodes, the marks of inode 0 and block 0.
abbrev pub root_disk : ℕ → ℕ
root_disk j =
    if j == 8389120
    then 1
    else if j == 8389632
    then 1
    else if j == 8520704
    then 3
    else if j == 8520708
    then 1
    else if j == 8520720
    then 3
    else if j == 8520725
    then 16
    else if j == 8520728
    then 1
    else if j == 8521344
    then 3
    else if j == 8521348
    then 2
    else if j == 8521356
    then 5
    else if j == 8521364
    then 6
    else if j == 8521368
    then 1
    else if j == 8521376
    then 7
    else entries j

-- The memory has "a" at 100, "d/a" at 200 and 24 times "x" from 500 on.
abbrev pub strings : ℕ → ℕ
strings p =
    if p == 100
    then b'a'
    else if p == 200
    then b'd'
    else if p == 201
    then b'/'
    else if p == 202
    then b'a'
    else if leb 500 p && ltb p 524
    then b'x'
    else 0

-- Descriptor 0 is open for inode 5, and descriptor 1 for reading it.
abbrev pub open_fds : ℕ → Fdesc
open_fds i = record {
  inode_id = if ltb i 2 then 5 else 0;
  status = if ltb i 2 then 1 else 0;
  mode = if i == 0 then 3 else if i == 1 then 1 else 0;
  rd_offset = 0;
  wr_offset = 0;
}

abbrev pub root : Fs array_card
root = record {
  disk = root_disk;
  superblock = λ j. 0;
  current_inode = λ j. 0;
  fdesc_array = open_fds;
  inode_map = λ j. 0;
  block_map = λ j. 0;
  sct_buffer = λ j. 0;
  blk_buffer = λ j. 0;
  mem = strings;
}
