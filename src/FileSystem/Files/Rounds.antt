-- ===== src/FileSystem/Files/Rounds.antt =====
-- The loops of do_fread and do_fwrite of kernel/fs/fs.c without fuel: their rounds, one after another.
use oslab_riscv.Prelude.{
  ℕ, zero, suc, ◌+◌, ◌-◌, ◌/◌, ◌%◌, ◌≤◌, ◌<◌, ◌≡◌, refl, ◌⊎◌, inl, inr, Option-cases, min, Bool,
  true, false, Option, none, some, arith,
}
use oslab_riscv.FileSystem.{Card, Fs, block_size, inode_get}
use oslab_riscv.FileSystem.Inode
use oslab_riscv.FileSystem.Sectors.{write_inode}
use oslab_riscv.FileSystem.Locate.{out_of_range, block_at, block_level, find_block, byte_locate}
use oslab_riscv.FileSystem.Files.{read_chunk, read_loop, write_chunk, write_loop}

-- The length of a round's bytes.
abbrev pub chunk : (l o : ℕ) → ℕ
chunk l o = min (suc l) (block_size - o)

-- What the loop comes to from a state: to its end, to a page out of range, or to a failed assertion
-- where no block is left.
pub data WriteRun {c : Card} (fd p : ℕ)
    : (src length : ℕ) → Fs c → Option (Bool × Fs c) → Type 0 where
  ended : {src : ℕ} {s : Fs c} → WriteRun fd p src 0 s (some (true, s))
  failed :
      {src l : ℕ} {s : Fs c}
      → byte_locate (s.fdesc_array fd).wr_offset p s ≡ none
      → WriteRun fd p src (suc l) s none
  beyond :
      {src l : ℕ} {s t : Fs c}
      → byte_locate (s.fdesc_array fd).wr_offset p s ≡ some (out_of_range, t)
      → WriteRun fd p src (suc l) s (some (false, t))
  round :
      {src l b o : ℕ} {s t : Fs c} {r : Option (Bool × Fs c)}
      → byte_locate (s.fdesc_array fd).wr_offset p s ≡ some (block_at b o, t)
      → WriteRun fd p (src + chunk l o) (suc l - chunk l o) (write_chunk fd src b o (chunk l o) t) r
      → WriteRun fd p src (suc l) s r

-- The same for the loop of `do_fread`.
pub data ReadRun {c : Card} (fd p : ℕ)
    : (dest length : ℕ) → Fs c → Option (Bool × Fs c) → Type 0 where
  ended : {dest : ℕ} {s : Fs c} → ReadRun fd p dest 0 s (some (true, s))
  failed :
      {dest l : ℕ} {s : Fs c}
      → byte_locate (s.fdesc_array fd).rd_offset p s ≡ none
      → ReadRun fd p dest (suc l) s none
  beyond :
      {dest l : ℕ} {s t : Fs c}
      → byte_locate (s.fdesc_array fd).rd_offset p s ≡ some (out_of_range, t)
      → ReadRun fd p dest (suc l) s (some (false, t))
  round :
      {dest l b o : ℕ} {s t : Fs c} {r : Option (Bool × Fs c)}
      → byte_locate (s.fdesc_array fd).rd_offset p s ≡ some (block_at b o, t)
      → ReadRun fd p (dest + chunk l o) (suc l - chunk l o) (read_chunk fd dest b o (chunk l o) t) r
      → ReadRun fd p dest (suc l) s r

-- What `byte_locate` comes to, with the offset in the block.
byte_locate_cases :
    {c : Card} (offset p : ℕ) (s : Fs c)
    → (byte_locate offset p s ≡ none)
      ⊎ (((t : Fs c) × (byte_locate offset p s ≡ some (out_of_range, t)))
          ⊎ ((b : ℕ) × (t : Fs c) × (byte_locate offset p s
                ≡ some (block_at b (offset % 4096), t))))
unfolding byte_locate
byte_locate_cases offset p s = elim (Option-cases (block_level (offset / 4096))) [
  | inl e ↦ inr (inl (s, rw (e, byte_locate) refl))
  | inr ((level, page), e) ↦ elim (Option-cases (find_block p level page s)) [
    | inl f ↦ inl (rw (e, byte_locate) (rw (f, byte_locate) refl))
    | inr ((id, t), f) ↦ inr (
        inr (
          id,
          write_inode (inode_get (p + Inode.inode_id) t / 4) t,
          rw (e, byte_locate) (rw (f, byte_locate) refl),
        ))
  ]
]

write_loop-WriteRun :
    {c : Card} (n fd p src l : ℕ) (s : Fs c)
    → l ≤ n
    → WriteRun fd p src l s (write_loop n fd p src l s)
unfolding write_loop
write_loop-WriteRun n fd p src zero s h = ended
write_loop-WriteRun zero fd p src (suc l) s h = absurd (omega arith)
write_loop-WriteRun (suc n) fd p src (suc l) s h =
    let offset = (s.fdesc_array fd).wr_offset in
    elim (byte_locate_cases offset p s) [
      | inl e ↦ rw (e, write_loop) (failed e)
      | inr (inl (t, e)) ↦ rw (e, write_loop) (beyond e)
      | inr (inr (b, t, e)) ↦
          let size = chunk l (offset % 4096) in
          let some_byte : 0 < size = omega arith in
          let rest =
            write_loop-WriteRun n fd p (src + size) (suc l - size)
              (write_chunk fd src b (offset % 4096) size t) (omega arith) in
          rw (e, write_loop) (round e rest)
    ]

read_loop-ReadRun :
    {c : Card} (n fd p dest l : ℕ) (s : Fs c)
    → l ≤ n
    → ReadRun fd p dest l s (read_loop n fd p dest l s)
unfolding read_loop
read_loop-ReadRun n fd p dest zero s h = ended
read_loop-ReadRun zero fd p dest (suc l) s h = absurd (omega arith)
read_loop-ReadRun (suc n) fd p dest (suc l) s h =
    let offset = (s.fdesc_array fd).rd_offset in
    elim (byte_locate_cases offset p s) [
      | inl e ↦ rw (e, read_loop) (failed e)
      | inr (inl (t, e)) ↦ rw (e, read_loop) (beyond e)
      | inr (inr (b, t, e)) ↦
          let size = chunk l (offset % 4096) in
          let some_byte : 0 < size = omega arith in
          let rest =
            read_loop-ReadRun n fd p (dest + size) (suc l - size)
              (read_chunk fd dest b (offset % 4096) size t) (omega arith) in
          rw (e, read_loop) (round e rest)
    ]

-- With a round of fuel for each byte, as `do_fread` and `do_fwrite` give it, their loops never run out
-- of fuel: they go on, round after round, as the loops without fuel do, until all bytes are moved, a
-- page is out of range or no block is left.
pub transfer_runs :
    {c : Card} (fd p buff l : ℕ) (s : Fs c)
    → ReadRun fd p buff l s (read_loop l fd p buff l s)
      × WriteRun fd p buff l s (write_loop l fd p buff l s)
transfer_runs fd p buff l s = (
  read_loop-ReadRun l fd p buff l s (omega arith),
  write_loop-WriteRun l fd p buff l s (omega arith),
)
