-- ===== src/FileSystem/Files.antt =====
-- Open files: do_fopen, do_fread, do_fwrite, do_fclose and do_lseek of kernel/fs/fs.c. A result of -1
-- is `none_id`, and `pid` is that of the caller. Lengths are not negative.
pub mod Rounds
pub mod Opening
pub mod Seeking
pub mod OneBlock
pub mod Chunks
pub mod Stored
pub mod Transfer
use Prim.Native.Nat.{bit_and}
use oslab_riscv.Prelude.{
  ℕ, zero, suc, ◌+◌, ◌-◌, ◌*◌, ◌/◌, ◌%◌, ◌^◌, min, max, Bool, true, false, Option, none, some,
  ◌>>=◌, update, ◌==◌, ltb, if◌then◌else◌, find_from,
}
use oslab_riscv.Strings.{copy_bytes}
use oslab_riscv.FileSystem.{
  Card, Fdesc, Fs, none_id, num_fdescs, block_size, o_rdonly, o_wronly, d_file, f_available,
  f_occupied, seek_set, seek_cur, seek_end, inode_get, inode_set,
}
use oslab_riscv.FileSystem.Inode
use oslab_riscv.FileSystem.Sectors.{inode_ptr, get_inode, write_inode, read_block, write_block}
use oslab_riscv.FileSystem.Dentries.{search_dentry}
use oslab_riscv.FileSystem.Locate.{out_of_range, block_at, byte_locate}
use oslab_riscv.FileSystem.Walk.{current_id}
use oslab_riscv.FileSystem.Calls.{do_touch}

abbrev pub set_fdesc : {c : Card} → ℕ → Fdesc → Fs c → Fs c
set_fdesc fd f s = record s { fdesc_array = update s.fdesc_array fd f }

-- The first free descriptor.
abbrev pub free_fdesc : (ℕ → Fdesc) → ℕ
free_fdesc fds = find_from num_fdescs 0 (λ i. (fds i).status == f_available)

-- `do_fopen` once the inode is known. With no descriptor free the assertion fails.
unfoldable pub open_inode : {c : Card} → (pid id mode : ℕ) → Fs c → Option (ℕ × Fs c)
open_inode pid id mode s0 =
    let p = inode_ptr id in
    let s = get_inode id s0 in
    let i = free_fdesc s.fdesc_array in
    let fd : Fdesc = record {
      inode_id = id;
      status = f_occupied;
      mode = mode;
      rd_offset = 0;
      wr_offset = 0;
    } in
    if bit_and (inode_get (p + Inode.mode) s) mode == 0
    then some (none_id, s)
    else if i == num_fdescs
    then none
    else some (i, set_fdesc i fd (write_inode (id / 4) (inode_set (p + Inode.uid) pid s)))

-- A file that is not in the current directory is made by `do_touch`, whatever that returns.
unfoldable pub do_fopen : {c : Card} → (fuel pid path mode : ℕ) → Fs c → Option (ℕ × Fs c)
unfolding open_inode
do_fopen fuel pid path mode s = elim (search_dentry fuel (current_id s) path d_file s) [
  | none ↦ none
  | some (id, s1) ↦ elim (id == none_id) [
    | false ↦ open_inode pid id mode s1
    | true ↦ elim (do_touch fuel path s1) [
      | none ↦ none
      | some (new_id, s2) ↦ open_inode pid new_id mode s2
    ]
  ]
]

-- `fp->rd_offset += n` and `fp->wr_offset += n`
abbrev pub advance_rd : {c : Card} → (fd n : ℕ) → Fs c → Fs c
advance_rd fd n s =
    let f = s.fdesc_array fd in set_fdesc fd (record f { rd_offset = (f.rd_offset + n) % 2 ^ 32 }) s

abbrev pub advance_wr : {c : Card} → (fd n : ℕ) → Fs c → Fs c
advance_wr fd n s =
    let f = s.fdesc_array fd in set_fdesc fd (record f { wr_offset = (f.wr_offset + n) % 2 ^ 32 }) s

-- One round of the loop of `do_fread`: `size` bytes of a block go to the caller's buffer.
unfoldable pub read_chunk : {c : Card} → (fd dest block_id offset size : ℕ) → Fs c → Fs c
read_chunk fd dest block_id offset size s0 =
    let s = read_block block_id s0 in
    advance_rd fd size (record s { mem = copy_bytes dest offset size s.blk_buffer s.mem })

-- The loop of `do_fread`, a block in each round: whether it came to its end. `p` is the inode.
unfoldable pub read_loop : {c : Card} → (n fd p dest length : ℕ) → Fs c → Option (Bool × Fs c)
unfolding read_chunk
read_loop n fd p dest zero s = some (true, s)
read_loop zero fd p dest (suc l) s = none
read_loop (suc n) fd p dest (suc l) s = elim (byte_locate (s.fdesc_array fd).rd_offset p s) [
  | none ↦ none
  | some (out_of_range, s1) ↦ some (false, s1)
  | some (block_at block_id offset, s1) ↦
      let size = min (suc l) (block_size - offset) in
      read_loop n fd p (dest + size) (suc l - size) (read_chunk fd dest block_id offset size s1)
]

-- `inode->size = max(inode->size, offset); write_inode(inode->inode_id >> 2);`
abbrev pub keep_size : {c : Card} → (p offset : ℕ) → Fs c → Fs c
keep_size p offset s0 =
    let s = inode_set (p + Inode.size) (max (inode_get (p + Inode.size) s0) offset) s0 in
    write_inode (inode_get (p + Inode.inode_id) s / 4) s

unfoldable pub do_fread : {c : Card} → (fd buff length : ℕ) → Fs c → Option (ℕ × Fs c)
unfolding read_loop
do_fread fd buff length s0 =
    let f = s0.fdesc_array fd in
    let p = inode_ptr f.inode_id in
    let s = get_inode f.inode_id s0 in
    if f.mode == o_wronly
    then some (0, s0)
    else if f.status == f_available
    then some (0, s0)
    else if ltb (inode_get (p + Inode.size) s) ((f.rd_offset + length) % 2 ^ 32)
    then some (0, s)
    else elim (read_loop length fd p buff length s) [
      | none ↦ none
      | some (false, s1) ↦ some (0, s1)
      | some (true, s1) ↦ some (length, keep_size p (s1.fdesc_array fd).rd_offset s1)
    ]

unfoldable pub write_chunk : {c : Card} → (fd src block_id offset size : ℕ) → Fs c → Fs c
write_chunk fd src block_id offset size s0 =
    let s = read_block block_id s0 in
    let s1 = record s { blk_buffer = copy_bytes offset src size s.mem s.blk_buffer } in
    advance_wr fd size (write_block block_id s1)

unfoldable pub write_loop : {c : Card} → (n fd p src length : ℕ) → Fs c → Option (Bool × Fs c)
unfolding write_chunk
write_loop n fd p src zero s = some (true, s)
write_loop zero fd p src (suc l) s = none
write_loop (suc n) fd p src (suc l) s = elim (byte_locate (s.fdesc_array fd).wr_offset p s) [
  | none ↦ none
  | some (out_of_range, s1) ↦ some (false, s1)
  | some (block_at block_id offset, s1) ↦
      let size = min (suc l) (block_size - offset) in
      write_loop n fd p (src + size) (suc l - size) (write_chunk fd src block_id offset size s1)
]

-- The sum in the test for 4 GB is one of `uint32_t`s.
unfoldable pub do_fwrite : {c : Card} → (fd buff length : ℕ) → Fs c → Option (ℕ × Fs c)
unfolding write_loop
do_fwrite fd buff length s0 =
    let f = s0.fdesc_array fd in
    let p = inode_ptr f.inode_id in
    let s = get_inode f.inode_id s0 in
    if f.mode == o_rdonly
    then some (0, s0)
    else if f.status == f_available
    then some (0, s0)
    else if ltb (2 ^ 32) ((f.wr_offset + length) % 2 ^ 32)
    then some (0, s0)
    else elim (write_loop length fd p buff length s) [
      | none ↦ none
      | some (false, s1) ↦ some (0, s1)
      | some (true, s1) ↦ some (length, keep_size p (s1.fdesc_array fd).wr_offset s1)
    ]

abbrev pub closed_fdesc : Fdesc
closed_fdesc = record { inode_id = 0; status = 0; mode = 0; rd_offset = 0; wr_offset = 0 }

unfoldable pub do_fclose : {c : Card} → (fd : ℕ) → Fs c → ℕ × Fs c
do_fclose fd s = (0, set_fdesc fd closed_fdesc s)

-- The `switch` of `do_lseek`. `offset` is the `int` as a `uint32_t`; with another `whence` the C code
-- uses a variable that it has not set.
unfoldable pub seek_target : (offset whence current size : ℕ) → Option ℕ
seek_target offset whence current size =
    if whence == seek_set
    then some offset
    else if whence == seek_cur
    then some ((current + offset) % 2 ^ 32)
    else if whence == seek_end
    then some ((size + offset) % 2 ^ 32)
    else none

-- The part of `do_lseek` for the offset of reading: a target past the end is refused.
unfoldable pub seek_rd : {c : Card} → (fd offset whence p : ℕ) → Fs c → Option (Bool × Fs c)
unfolding seek_target
seek_rd fd offset whence p s =
    let f = s.fdesc_array fd in
    let size = inode_get (p + Inode.size) s in
    if bit_and f.mode 1 == 0
    then some (true, s)
    else elim (seek_target offset whence f.rd_offset size) [
      | none ↦ none
      | some target ↦
          if ltb size target
          then some (false, s)
          else some (true, set_fdesc fd (record f { rd_offset = target }) s)
    ]

-- The part for the offset of writing: past the end the file grows, and gets the block at its end.
unfoldable pub seek_wr : {c : Card} → (fd offset whence p : ℕ) → Fs c → Option (Fs c)
unfolding seek_target
seek_wr fd offset whence p s =
    let f = s.fdesc_array fd in
    let size = inode_get (p + Inode.size) s in
    if bit_and f.mode 2 == 0 then some s else elim (seek_target offset whence f.wr_offset size) [
      | none ↦ none
      | some target ↦
          let f' = record f { wr_offset = target } in
          elim (ltb size target) [
            | false ↦ some (set_fdesc fd f' s)
            | true ↦ elim (byte_locate target p s) [
              | none ↦ none
              | some (l, s1) ↦ some (set_fdesc fd f' (inode_set (p + Inode.size) target s1))
            ]
          ]
    ]

unfoldable pub do_lseek : {c : Card} → (fd offset whence : ℕ) → Fs c → Option (ℕ × Fs c)
unfolding seek_rd seek_wr
do_lseek fd offset whence s0 =
    let f = s0.fdesc_array fd in
    let p = inode_ptr f.inode_id in
    if f.status == f_available
    then some (none_id, s0)
    else elim (seek_rd fd offset whence p (get_inode f.inode_id s0)) [
      | none ↦ none
      | some (false, s1) ↦ some (none_id, s1)
      | some (true, s1) ↦ elim (seek_wr fd offset whence p s1) [
        | none ↦ none
        | some s2 ↦ some (0, write_inode (f.inode_id / 4) s2)
      ]
    ]
