-- ===== src/FileSystem/Files/OneBlock.antt =====
-- do_fread and do_fwrite of kernel/fs/fs.c when the bytes lie in one block that the inode names: the
-- states that they go through.
use oslab_riscv.Prelude.{
  ℕ, zero, suc, ◌+◌, ◌-◌, ◌/◌, ◌%◌, ◌^◌, ◌≤◌, ◌<◌, ◌≡◌, ◌≢◌, refl, ◌∙◌, sym, min, true, false, some,
  ◌==◌, ltb, arith,
}
use oslab_riscv.FileSystem.{Card, IsCard, Fs, o_rdonly, o_wronly, f_available, inode_get}
use oslab_riscv.FileSystem.Inode
use oslab_riscv.FileSystem.Sectors.{inode_ptr, get_inode, write_inode}
use oslab_riscv.FileSystem.Sectors.Inodes.{get_inode-field, inode_field}
use oslab_riscv.FileSystem.Locate.{block_at, block_level, inode_child, find_block, byte_locate}
use oslab_riscv.FileSystem.Files.{
  read_chunk, read_loop, keep_size, do_fread, write_chunk, write_loop, do_fwrite,
}

byte_locate-direct :
    {c : Card} (offset p : ℕ) (s : Fs c)
    → offset < 57344
    → inode_get (p + Inode.direct_block (offset / 4096)) s ≢ 0
    → byte_locate offset p s
      ≡ some (
        block_at (inode_get (p + Inode.direct_block (offset / 4096)) s) (offset % 4096),
        write_inode (inode_get (p + Inode.inode_id) s / 4) s,
      )
unfolding byte_locate block_level find_block inode_child
byte_locate-direct offset p s l ne =
    let direct : ltb (offset / 4096) 14 ≡ true = ground arith in
    let there : (inode_get (p + Inode.direct_block (offset / 4096)) s == 0) ≡ false =
      ground (arith, ne) in
    rw (direct, byte_locate) (rw (there, byte_locate) refl)

-- What the inode says of the block of a byte.
abbrev pub block_of : {c : Card} → IsCard c → (id offset : ℕ) → Fs c → ℕ
block_of v id offset s = inode_field v s id (Inode.direct_block (offset / 4096))

-- The state when the block has been found: the inode is read, and written back unchanged.
abbrev pub found_block : {c : Card} → (id : ℕ) → Fs c → Fs c
found_block id s =
    let s1 = get_inode id s in write_inode (inode_get (inode_ptr id + Inode.inode_id) s1 / 4) s1

-- `do_fwrite` of `n` bytes at `offset` of block `b`, and `do_fread`.
abbrev pub written : {c : Card} → (id fd src b offset n : ℕ) → Fs c → Fs c
written id fd src b offset n s =
    let s1 = write_chunk fd src b (offset % 4096) n (found_block id s) in
    keep_size (inode_ptr id) (s1.fdesc_array fd).wr_offset s1

abbrev pub fetched : {c : Card} → (id fd dest b offset n : ℕ) → Fs c → Fs c
fetched id fd dest b offset n s =
    let s1 = read_chunk fd dest b (offset % 4096) n (found_block id s) in
    keep_size (inode_ptr id) (s1.fdesc_array fd).rd_offset s1

-- The bytes from `offset` on lie in one direct block, which is there.
pub record InBlock {c : Card} (v : IsCard c) (id offset n : ℕ) (s : Fs c) : Type 0 where
  pub direct : offset < 57344
  pub one : offset % 4096 + n ≤ 4096
  pub some_byte : n ≢ 0
  pub there : block_of v id offset s ≢ 0

write_loop-one :
    {c : Card} (fd p src n b o : ℕ) (s t : Fs c)
    → n ≢ 0
    → o + n ≤ 4096
    → byte_locate (s.fdesc_array fd).wr_offset p s ≡ some (block_at b o, t)
    → write_loop n fd p src n s ≡ some (true, write_chunk fd src b o n t)
unfolding write_loop
write_loop-one fd p src zero b o s t ne l e = absurd (ground (arith, ne))
write_loop-one fd p src (suc n) b o s t ne l e =
    let all : min (suc n) (4096 - o) ≡ suc n = omega arith in
    let rest : suc n - suc n ≡ 0 = omega arith in rw (e, write_loop) (rw (all, rest) refl)

read_loop-one :
    {c : Card} (fd p dest n b o : ℕ) (s t : Fs c)
    → n ≢ 0
    → o + n ≤ 4096
    → byte_locate (s.fdesc_array fd).rd_offset p s ≡ some (block_at b o, t)
    → read_loop n fd p dest n s ≡ some (true, read_chunk fd dest b o n t)
unfolding read_loop
read_loop-one fd p dest zero b o s t ne l e = absurd (ground (arith, ne))
read_loop-one fd p dest (suc n) b o s t ne l e =
    let all : min (suc n) (4096 - o) ≡ suc n = omega arith in
    let rest : suc n - suc n ≡ 0 = omega arith in rw (e, read_loop) (rw (all, rest) refl)

locate-InBlock :
    {c : Card} (v : IsCard c) (id offset n : ℕ) (s : Fs c)
    → InBlock v id offset n s
    → byte_locate offset (inode_ptr id) (get_inode id s)
      ≡ some (block_at (block_of v id offset s) (offset % 4096), found_block id s)
locate-InBlock v id offset n s i =
    let word =
      get_inode-field v id (Inode.direct_block (offset / 4096)) s (omega (arith, i.direct)) in
    rw (sym word) (
      byte_locate-direct offset (inode_ptr id) (get_inode id s) i.direct
        (λ z. i.there (sym word ∙ z)))

pub do_fwrite-InBlock :
    {c : Card} (v : IsCard c) (fd src n : ℕ) (s : Fs c)
    → let f = s.fdesc_array fd in
      f.mode ≢ o_rdonly
      → f.status ≢ f_available
      → InBlock v f.inode_id f.wr_offset n s
      → do_fwrite fd src n s
        ≡ some (n, written f.inode_id fd src (block_of v f.inode_id f.wr_offset s) f.wr_offset n s)
unfolding do_fwrite get_inode
do_fwrite-InBlock v fd src n s m u i =
    let f = s.fdesc_array fd in
    let id = f.inode_id in
    let mode : (f.mode == o_rdonly) ≡ false = ground (arith, m) in
    let status : (f.status == f_available) ≡ false = ground (arith, u) in
    let small : ltb (2 ^ 32) ((f.wr_offset + n) % 2 ^ 32) ≡ false = ground arith in
    let loop =
      write_loop-one fd (inode_ptr id) src n (block_of v id f.wr_offset s) (f.wr_offset % 4096)
        (get_inode id s) (found_block id s) i.some_byte i.one
        (locate-InBlock v id f.wr_offset n s i) in
    rw (mode, do_fwrite)
      (rw (status, do_fwrite) (rw (small, do_fwrite) (rw (loop, do_fwrite) refl)))

pub do_fread-InBlock :
    {c : Card} (v : IsCard c) (fd dest n : ℕ) (s : Fs c)
    → let f = s.fdesc_array fd in
      f.mode ≢ o_wronly
      → f.status ≢ f_available
      → InBlock v f.inode_id f.rd_offset n s
      → f.rd_offset + n ≤ inode_field v s f.inode_id Inode.size
      → do_fread fd dest n s
        ≡ some (n, fetched f.inode_id fd dest (block_of v f.inode_id f.rd_offset s) f.rd_offset n s)
unfolding do_fread get_inode
do_fread-InBlock v fd dest n s m u i l =
    let f = s.fdesc_array fd in
    let id = f.inode_id in
    let mode : (f.mode == o_wronly) ≡ false = ground (arith, m) in
    let status : (f.status == f_available) ≡ false = ground (arith, u) in
    let word = get_inode-field v id Inode.size s (omega arith) in
    let fits : ltb (inode_get (inode_ptr id + Inode.size) (get_inode id s))
          ((f.rd_offset + n) % 2 ^ 32)
        ≡ false =
      rw word (ground (arith, l, i.direct, i.one)) in
    let loop =
      read_loop-one fd (inode_ptr id) dest n (block_of v id f.rd_offset s) (f.rd_offset % 4096)
        (get_inode id s) (found_block id s) i.some_byte i.one
        (locate-InBlock v id f.rd_offset n s i) in
    rw (mode, do_fread) (rw (status, do_fread) (rw (fits, do_fread) (rw (loop, do_fread) refl)))
