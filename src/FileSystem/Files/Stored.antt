-- ===== src/FileSystem/Files/Stored.antt =====
-- What do_fwrite of kernel/fs/fs.c does when the bytes lie in one block that the inode names.
use oslab_riscv.Prelude.{
  ℕ, ◌+◌, ◌*◌, ◌%◌, ◌^◌, ◌≤◌, ◌<◌, ◌≡◌, ◌≢◌, refl, ap, ◌∙◌, sym, ◌⊎◌, max, update, some, arith,
}
use oslab_riscv.FileSystem.{Card, IsCard, Fs, Fdesc, get32, o_rdonly, f_available}
use oslab_riscv.FileSystem.Inode
use oslab_riscv.FileSystem.Sectors.{
  inode_ptr, read_inode, get_inode, write_inode, read_block, write_block,
}
use oslab_riscv.FileSystem.Sectors.Places.{data_at, inode_sector}
use oslab_riscv.FileSystem.Sectors.Bytes.{get32-congr}
use oslab_riscv.FileSystem.Sectors.Inodes.{get_inode-field, inode_at, inode_field}
use oslab_riscv.FileSystem.Files.{keep_size, write_chunk, do_fwrite}
use oslab_riscv.FileSystem.Files.OneBlock.{
  block_of, found_block, written, InBlock, do_fwrite-InBlock,
}
use oslab_riscv.FileSystem.Files.Chunks.{
  IsInode, found_block-disk, write_chunk-outside, write_chunk-inside, Agrees, keep_size-outside,
  keep_size-size,
}

-- The state before `keep_size`, in `do_fwrite`.
abbrev pub put_state : {c : Card} → (id fd src b offset n : ℕ) → Fs c → Fs c
put_state id fd src b offset n s = write_chunk fd src b (offset % 4096) n (found_block id s)

pub put_state-sct_buffer :
    {c : Card} (id fd src b offset n : ℕ) (s : Fs c)
    → (put_state id fd src b offset n s).sct_buffer ≡ (get_inode id s).sct_buffer
unfolding write_chunk read_block write_block write_inode
put_state-sct_buffer id fd src b offset n s = refl

pub put_state-Agrees :
    {c : Card} (v : IsCard c) (id fd src b offset n : ℕ) (s : Fs c)
    → IsInode v id s
    → b < 131072
    → offset % 4096 + n ≤ 4096
    → Agrees v id (put_state id fd src b offset n s)
unfolding Agrees get_inode read_inode
put_state-Agrees {c} v id fd src b offset n s i l fits j x =
    let at_j = 512 * inode_sector id + j in
    ap (λ (m : ℕ → ℕ). m j) (put_state-sct_buffer id fd src b offset n s)
    ∙ v.read_in s.disk 1 (inode_sector id) s.sct_buffer j x
    ∙ sym (found_block-disk v id s i at_j)
    ∙ sym (
        write_chunk-outside v fd src b (offset % 4096) n (found_block id s) l fits at_j
          (omega (arith, i.range)))

pub put_state-field :
    {c : Card} (v : IsCard c) (id fd src b offset n o : ℕ) (s : Fs c)
    → o ≤ 124
    → get32 (put_state id fd src b offset n s).sct_buffer (inode_ptr id + o) ≡ inode_field v s id o
put_state-field v id fd src b offset n o s l =
    ap (λ (m : ℕ → ℕ). get32 m (inode_ptr id + o)) (put_state-sct_buffer id fd src b offset n s)
    ∙ get_inode-field v id o s l

-- What `do_fwrite` of `n` bytes from `src` to `offset` of block `b` does.
pub record Stored {c : Card} (v : IsCard c) (id fd b offset src n : ℕ) (s s' : Fs c) : Type 0 where
  pub bytes : (j : ℕ) → j < n → v.byte_at s'.disk (data_at b + offset % 4096 + j) ≡ s.mem (src + j)
  pub size : inode_field v s' id Inode.size ≡ max (inode_field v s id Inode.size) (offset + n)
  pub others :
      (j : ℕ)
      → (j < data_at b + offset % 4096) ⊎ (data_at b + offset % 4096 + n ≤ j)
      → (j < inode_at id + Inode.size) ⊎ (inode_at id + Inode.size + 4 ≤ j)
      → v.byte_at s'.disk j ≡ v.byte_at s.disk j
  pub mem : s'.mem ≡ s.mem
  pub fdescs :
      s'.fdesc_array
      ≡ update s.fdesc_array fd
          (record (s.fdesc_array fd) { wr_offset = ((s.fdesc_array fd).wr_offset + n) % 2 ^ 32 })

pub put_state-fdesc :
    {c : Card} (id fd src b offset n : ℕ) (s : Fs c)
    → (put_state id fd src b offset n s).fdesc_array
      ≡ update s.fdesc_array fd
          (record (s.fdesc_array fd) { wr_offset = ((s.fdesc_array fd).wr_offset + n) % 2 ^ 32 })
unfolding write_chunk read_block write_block write_inode get_inode read_inode
put_state-fdesc id fd src b offset n s = refl

pub found_block-mem : {c : Card} (id : ℕ) (s : Fs c) → (found_block id s).mem ≡ s.mem
unfolding write_inode get_inode read_inode
found_block-mem id s = refl

pub put_state-mem :
    {c : Card} (id fd src b offset n : ℕ) (s : Fs c)
    → (put_state id fd src b offset n s).mem ≡ s.mem
unfolding write_chunk read_block write_block write_inode get_inode read_inode
put_state-mem id fd src b offset n s = refl

pub keep_size-rest :
    {c : Card} (p offset : ℕ) (t : Fs c)
    → ((keep_size p offset t).mem ≡ t.mem) × ((keep_size p offset t).fdesc_array ≡ t.fdesc_array)
unfolding write_inode
keep_size-rest p offset t = (refl, refl)

pub written-Stored :
    {c : Card} (v : IsCard c) (id fd src b n : ℕ) (s : Fs c)
    → let offset = (s.fdesc_array fd).wr_offset in
      IsInode v id s
      → InBlock v id offset n s
      → b < 131072
      → inode_field v s id Inode.size < 2 ^ 32
      → Stored v id fd b offset src n s (written id fd src b offset n s)
written-Stored {c} v id fd src b n s i h l z =
    let offset = (s.fdesc_array fd).wr_offset in
    let t = put_state id fd src b offset n s in
    let p = inode_ptr id in
    let o = offset % 4096 in
    let own = put_state-field v id fd src b offset n Inode.inode_id s (omega arith) ∙ i.own_id in
    let old = put_state-field v id fd src b offset n Inode.size s (omega arith) in
    let wr : (t.fdesc_array fd).wr_offset ≡ offset + n =
      ap (λ (g : ℕ → Fdesc). (g fd).wr_offset) (put_state-fdesc id fd src b offset n s)
      ∙ ground (arith, h.direct, h.one) in
    let end = (t.fdesc_array fd).wr_offset in
    let frame =
      keep_size-outside v id end t (put_state-Agrees v id fd src b offset n s i l h.one) own in
    let (m, f) = keep_size-rest p end t in
    record {
      bytes = λ j k.
          frame (data_at b + o + j) (omega (arith, i.range))
          ∙ write_chunk-inside v fd src b o n (found_block id s) l h.one j k
          ∙ ap (λ (m : ℕ → ℕ). m (src + j)) (found_block-mem id s);
      size =
          keep_size-size v id end t own (rw old z) (omega (arith, wr, h.direct, h.one))
          ∙ rw (old, wr) refl;
      others = λ j x y.
          frame j y
          ∙ write_chunk-outside v fd src b o n (found_block id s) l h.one j x
          ∙ found_block-disk v id s i j;
      mem = m ∙ put_state-mem id fd src b offset n s;
      fdescs = f ∙ put_state-fdesc id fd src b offset n s;
    }

-- `do_fwrite` on an open descriptor that is not for reading only, of bytes that lie in one block
-- which is there and which the inode names: it returns the length; the bytes are on the card where
-- the offset says, the inode's size covers them, the offset has moved on by the length, and nothing
-- else on the card, in the memory or in the descriptors has changed.
pub do_fwrite-Stored :
    {c : Card} (v : IsCard c) (fd src n : ℕ) (s : Fs c)
    → let f = s.fdesc_array fd in
      let b = block_of v f.inode_id f.wr_offset s in
      f.mode ≢ o_rdonly
      → f.status ≢ f_available
      → IsInode v f.inode_id s
      → InBlock v f.inode_id f.wr_offset n s
      → b < 131072
      → inode_field v s f.inode_id Inode.size < 2 ^ 32
      → (s' : Fs c) × (do_fwrite fd src n s ≡ some (n, s'))
        × Stored v f.inode_id fd b f.wr_offset src n s s'
do_fwrite-Stored v fd src n s m u i h l z =
    let f = s.fdesc_array fd in
    let b = block_of v f.inode_id f.wr_offset s in
    (
      written f.inode_id fd src b f.wr_offset n s,
      do_fwrite-InBlock v fd src n s m u h,
      written-Stored v f.inode_id fd src b n s i h l z,
    )

-- The words of the inode but for its size, and the size, in the memory of the card after a call that
-- writes no more than `do_fwrite`.
pub Stored-field :
    {c : Card} (v : IsCard c) (id fd b offset src n o : ℕ) (s s' : Fs c)
    → id < 512
    → Stored v id fd b offset src n s s'
    → (o + 4 ≤ Inode.size) ⊎ (Inode.size + 4 ≤ o)
    → o ≤ 124
    → inode_field v s' id o ≡ inode_field v s id o
Stored-field v id fd b offset src n o s s' i w x l =
    get32-congr (v.byte_at s'.disk) (v.byte_at s.disk) (inode_at id + o) (inode_at id + o)
      λ j k. w.others (inode_at id + o + j) (omega (arith, i)) (omega (arith, x))

-- The descriptor of the call after `do_fwrite`.
pub Stored-fdesc :
    {c : Card} (v : IsCard c) (id fd b offset src n : ℕ) (s s' : Fs c)
    → Stored v id fd b offset src n s s'
    → s'.fdesc_array fd
      ≡ (record (s.fdesc_array fd) { wr_offset = ((s.fdesc_array fd).wr_offset + n) % 2 ^ 32 })
Stored-fdesc v id fd b offset src n s s' w = ap (λ (g : ℕ → Fdesc). g fd) w.fdescs ∙ ground arith
