-- ===== src/FileSystem/Format/RootDirectory.antt =====
-- The inode and the block of the root directory that do_mkfs of kernel/fs/fs.c makes.
use oslab_riscv.Prelude.{
  ℕ, ◌+◌, ◌*◌, ◌/◌, ◌^◌, ◌≤◌, ◌<◌, ◌≡◌, refl, sym, ap, ◌∙◌, ◌⊎◌, update, arith,
}
use oslab_riscv.Strings.{memset}
use oslab_riscv.FileSystem.{Card, IsCard, Fs, get32, set32, block_size, o_rdwr, d_dir}
use oslab_riscv.FileSystem.Inode
use oslab_riscv.FileSystem.Dentry
use oslab_riscv.FileSystem.Sectors.{
  inode_ptr, write_inode, create_inode, update_inode, block_sector, write_block,
}
use oslab_riscv.FileSystem.Sectors.Bytes.{set32-out, get32-congr, get32-set32, get32-set32_ne}
use oslab_riscv.FileSystem.Sectors.Places.{data_at, sector-data_at, inode_sector}
use oslab_riscv.FileSystem.Sectors.Rewrite.{store-outside}
use oslab_riscv.FileSystem.Sectors.Inodes.{IsNew}
use oslab_riscv.FileSystem.Dentries.{create_dir_block}
use oslab_riscv.FileSystem.Format.Fresh.{memset_empty}

-- The block of a new directory.
abbrev pub dir_block : (parent id : ℕ) → (ℕ → ℕ) → ℕ → ℕ
dir_block parent id blk =
    let b0 = memset 0 0 block_size blk in
    let b1 = update b0 (Dentry.name 0) b'.' in
    let b2 = set32 (set32 b1 (Dentry.type 0) d_dir) (Dentry.inode_id 0) id in
    let b3 = update (update b2 (Dentry.name 1) b'.') (Dentry.name 1 + 1) b'.' in
    set32 (set32 b3 (Dentry.type 1) d_dir) (Dentry.inode_id 1) parent

-- What the words of the types and inodes of a new directory's entries are.
pub record IsEmptyDirectory (word : ℕ → ℕ) (parent id : ℕ) : Type 0 where
  pub dot_type : word (Dentry.type 0) ≡ d_dir
  pub dot_inode : word (Dentry.inode_id 0) ≡ id
  pub parent_type : word (Dentry.type 1) ≡ d_dir
  pub parent_inode : word (Dentry.inode_id 1) ≡ parent
  pub unused : (i : ℕ) → 2 ≤ i → i < 128 → word (Dentry.type i) ≡ 0

-- Their names, with what stands after them.
pub record HasDotNames (byte : ℕ → ℕ) : Type 0 where
  pub dot : byte (Dentry.name 0) ≡ b'.'
  pub after_dot : (j : ℕ) → 1 ≤ j → j < 24 → byte (Dentry.name 0 + j) ≡ 0
  pub dot_dot : (byte (Dentry.name 1) ≡ b'.') × (byte (Dentry.name 1 + 1) ≡ b'.')
  pub after_dot_dot : (j : ℕ) → 2 ≤ j → j < 24 → byte (Dentry.name 1 + j) ≡ 0

pub update-word :
    (b : ℕ → ℕ) (p x o : ℕ) → (p < o) ⊎ (o + 4 ≤ p) → get32 (update b p x) o ≡ get32 b o
unfolding get32
update-word b p x o l = ground arith

pub memset-word : (blk : ℕ → ℕ) (o : ℕ) → o ≤ 4092 → get32 (memset 0 0 4096 blk) o ≡ 0
unfolding get32
memset-word blk o l =
    let e0 = memset_empty 4096 blk o (omega arith) in
    let e1 = memset_empty 4096 blk (o + 1) (omega arith) in
    let e2 = memset_empty 4096 blk (o + 2) (omega arith) in
    let e3 = memset_empty 4096 blk (o + 3) (omega arith) in rw (e0, e1, e2, e3) refl

pub dir_block-IsEmptyDirectory :
    (parent id : ℕ) (blk : ℕ → ℕ)
    → parent < 2 ^ 32
    → id < 2 ^ 32
    → IsEmptyDirectory (get32 (dir_block parent id blk)) parent id
dir_block-IsEmptyDirectory parent id blk h1 h2 = record {
  dot_type = grind (arith, get32-set32, get32-set32_ne, update-word);
  dot_inode = grind (arith, get32-set32, get32-set32_ne, update-word);
  parent_type = grind (arith, get32-set32, get32-set32_ne, update-word);
  parent_inode = grind (arith, get32-set32, get32-set32_ne, update-word);
  unused = λ i a b. grind (arith, get32-set32_ne, update-word, memset-word blk (Dentry.type i));
}

pub dir_block-HasDotNames : (parent id : ℕ) (blk : ℕ → ℕ) → HasDotNames (dir_block parent id blk)
dir_block-HasDotNames parent id blk = record {
  dot = grind (arith, set32-out);
  after_dot = λ j a l. grind (arith, set32-out, memset_empty 4096 blk (Dentry.name 0 + j));
  dot_dot = (grind (arith, set32-out), grind (arith, set32-out));
  after_dot_dot = λ j a l. grind (arith, set32-out, memset_empty 4096 blk (Dentry.name 1 + j));
}

-- The state of `reset` when the root directory is made, with inode `i` and block `k`.
abbrev pub root_made : {c : Card} → (i k : ℕ) → Fs c → Fs c
root_made i k s =
    create_dir_block k i i
      (write_inode (i / 4) (update_inode (inode_ptr i) (create_inode i k d_dir o_rdwr s)))

-- `create_inode` leaves the sector in the buffer as it is on the card.
pub create_inode-sector :
    {c : Card} (v : IsCard c) (id block t access : ℕ) (s : Fs c) (j : ℕ)
    → j < 512
    → let s' = create_inode id block t access s in
      s'.sct_buffer j ≡ v.byte_at s'.disk (512 * inode_sector id + j)
unfolding create_inode write_inode
create_inode-sector {c} v id block t access s j l =
    sym (v.write_in _ 1 (inode_sector id) _ j (omega arith))

-- Writing it once more changes nothing.
pub again-disk :
    {c : Card} (v : IsCard c) (id block t access : ℕ) (s : Fs c) (j : ℕ)
    → let s' = create_inode id block t access s in
      v.byte_at (write_inode (id / 4) (update_inode (inode_ptr id) s')).disk j ≡ v.byte_at s'.disk j
unfolding write_inode update_inode
again-disk {c} v id block t access s j =
    let s' = create_inode id block t access s in
    store-outside v 1 (inode_sector id) 0 0 s'.disk s'.sct_buffer
      (λ k l o. create_inode-sector v id block t access s k l) j (omega arith)

pub create_dir_block-outside :
    {c : Card} (v : IsCard c) (b parent id : ℕ) (s : Fs c) (j : ℕ)
    → b < 131072
    → (j < data_at b) ⊎ (data_at (b + 1) ≤ j)
    → v.byte_at (create_dir_block b parent id s).disk j ≡ v.byte_at s.disk j
unfolding create_dir_block write_block
create_dir_block-outside {c} v b parent id s j l x =
    v.write_out (dir_block parent id s.blk_buffer) 8 (block_sector b) s.disk j
      (omega (arith, x, sector-data_at b l))

pub create_dir_block-word :
    {c : Card} (v : IsCard c) (b parent id o : ℕ) (s : Fs c)
    → b < 131072
    → o ≤ 4092
    → get32 (v.byte_at (create_dir_block b parent id s).disk) (data_at b + o)
      ≡ get32 (dir_block parent id s.blk_buffer) o
unfolding create_dir_block write_block
create_dir_block-word {c} v b parent id o s l k =
    get32-congr (v.byte_at (create_dir_block b parent id s).disk) (dir_block parent id s.blk_buffer)
      (data_at b + o) o
      λ j h.
        let there : data_at b + o + j ≡ 512 * block_sector b + (o + j) =
          omega (arith, sector-data_at b l) in
        ap (v.byte_at (create_dir_block b parent id s).disk) there
        ∙ v.write_in (dir_block parent id s.blk_buffer) 8 (block_sector b) s.disk (o + j)
            (omega arith)

pub create_dir_block-byte :
    {c : Card} (v : IsCard c) (b parent id o : ℕ) (s : Fs c)
    → b < 131072
    → o < 4096
    → v.byte_at (create_dir_block b parent id s).disk (data_at b + o)
      ≡ dir_block parent id s.blk_buffer o
unfolding create_dir_block write_block
create_dir_block-byte {c} v b parent id o s l k =
    let there : data_at b + o ≡ 512 * block_sector b + o = omega (arith, sector-data_at b l) in
    ap (v.byte_at (create_dir_block b parent id s).disk) there
    ∙ v.write_in (dir_block parent id s.blk_buffer) 8 (block_sector b) s.disk o (omega arith)

-- Two readings of an inode that agree on its words.
pub IsNew-congr :
    (w w' : ℕ → ℕ) (id block t access : ℕ)
    → ((o : ℕ) → o ≤ 124 → w' o ≡ w o)
    → IsNew w id block t access
    → IsNew w' id block t access
IsNew-congr w w' id block t access f n = record {
  mode = f Inode.mode (omega arith) ∙ n.mode;
  type = f Inode.type (omega arith) ∙ n.type;
  uid = f Inode.uid (omega arith) ∙ n.uid;
  inode_id = f Inode.inode_id (omega arith) ∙ n.inode_id;
  links_count = f Inode.links_count (omega arith) ∙ n.links_count;
  blocks = f Inode.blocks (omega arith) ∙ n.blocks;
  direct_block = f (Inode.direct_block 0) (omega arith) ∙ n.direct_block;
  size = f Inode.size (omega arith) ∙ n.size;
  file_num = f Inode.file_num (omega arith) ∙ n.file_num;
}
