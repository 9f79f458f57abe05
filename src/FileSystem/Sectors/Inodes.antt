-- ===== src/FileSystem/Sectors/Inodes.antt =====
-- create_inode of kernel/fs/fs.c: the inode on the card.
use oslab_riscv.Prelude.{
  ℕ, ◌+◌, ◌*◌, ◌/◌, ◌^◌, ◌≤◌, ◌<◌, ◌≡◌, ◌∙◌, sym, ap, ◌⊎◌, ◌==◌, if◌then◌else◌, arith,
}
use oslab_riscv.FileSystem.{
  Card, IsCard, Fs, get32, set32, inode_get, none_id, fs_start, inode_block_offset, d_dir,
}
use oslab_riscv.FileSystem.Inode
use oslab_riscv.FileSystem.Sectors.{inode_ptr, read_inode, get_inode, write_inode, create_inode}
use oslab_riscv.FileSystem.Sectors.Bytes.{set32-out, get32-set32, get32-set32_ne}
use oslab_riscv.FileSystem.Sectors.Rewrite.{rewrite-outside, get32-write, get32-read}

-- Where inode `id` stands on the card, and the word at `o` of it.
abbrev pub inode_at : ℕ → ℕ
inode_at id = 512 * (fs_start + inode_block_offset) + 128 * id

abbrev pub inode_field : {c : Card} → IsCard c → Fs c → (id o : ℕ) → ℕ
inode_field v s id o = get32 (v.byte_at s.disk) (inode_at id + o)

-- The same place, counted from the sector of the inode.
pub place :
    (id o : ℕ)
    → inode_at id + o ≡ 512 * (fs_start + inode_block_offset + id / 4) + (inode_ptr id + o)
place id o = omega arith

-- A word of the inode that `get_inode` has read.
pub get_inode-field :
    {c : Card} (v : IsCard c) (id o : ℕ) (s : Fs c)
    → o ≤ 124
    → inode_get (inode_ptr id + o) (get_inode id s) ≡ inode_field v s id o
unfolding get_inode read_inode
get_inode-field {c} v id o s l =
    get32-read v 1 (fs_start + inode_block_offset + id / 4) (inode_ptr id + o) s.disk s.sct_buffer
      (omega arith)
    ∙ sym (ap (get32 (v.byte_at s.disk)) (place id o))

-- The buffer that `create_inode` writes.
new_inode : (p inode_id block_id type mode : ℕ) → (ℕ → ℕ) → ℕ → ℕ
new_inode p inode_id block_id type mode b =
    let s1 = set32 b (p + Inode.mode) mode in
    let s2 = set32 s1 (p + Inode.type) type in
    let s3 = set32 s2 (p + Inode.uid) none_id in
    let s4 = set32 s3 (p + Inode.inode_id) inode_id in
    let s5 = set32 s4 (p + Inode.links_count) 1 in
    let s6 = set32 s5 (p + Inode.blocks) 1 in
    let s7 = set32 s6 (p + Inode.direct_block 0) block_id in
    let s8 = set32 s7 (p + Inode.size) (if type == d_dir then 4096 else 0) in
    set32 s8 (p + Inode.file_num) (if type == d_dir then 2 else 0)

-- What a new inode says of itself.
pub record IsNew (word : ℕ → ℕ) (id block t access : ℕ) : Type 0 where
  pub mode : word Inode.mode ≡ access
  pub type : word Inode.type ≡ t
  pub uid : word Inode.uid ≡ none_id
  pub inode_id : word Inode.inode_id ≡ id
  pub links_count : word Inode.links_count ≡ 1
  pub blocks : word Inode.blocks ≡ 1
  pub direct_block : word (Inode.direct_block 0) ≡ block
  pub size : word Inode.size ≡ (if t == d_dir then 4096 else 0)
  pub file_num : word Inode.file_num ≡ (if t == d_dir then 2 else 0)

new_inode-IsNew :
    (p id block t access : ℕ) (b : ℕ → ℕ)
    → id < 2 ^ 32
    → block < 2 ^ 32
    → t < 2 ^ 32
    → access < 2 ^ 32
    → IsNew (λ o. get32 (new_inode p id block t access b) (p + o)) id block t access
unfolding new_inode
new_inode-IsNew p id block t access b h1 h2 h3 h4 = record {
  mode = grind (arith, get32-set32, get32-set32_ne);
  type = grind (arith, get32-set32, get32-set32_ne);
  uid = grind (arith, get32-set32, get32-set32_ne);
  inode_id = grind (arith, get32-set32, get32-set32_ne);
  links_count = grind (arith, get32-set32, get32-set32_ne);
  blocks = grind (arith, get32-set32, get32-set32_ne);
  direct_block = grind (arith, get32-set32, get32-set32_ne);
  size = get32-set32_ne _ _ _ _ (omega arith) ∙ get32-set32 _ _ _ (ground arith);
  file_num = get32-set32 _ _ _ (ground arith);
}

new_inode-out :
    (p id block t access : ℕ) (b : ℕ → ℕ) (j : ℕ)
    → (j < p) ⊎ (p + 128 ≤ j)
    → new_inode p id block t access b j ≡ b j
unfolding new_inode
new_inode-out p id block t access b j o = grind (arith, set32-out)

-- `create_inode`, given values of 32 bits, leaves on the card at the inode's place what a new inode
-- says of itself, and no other byte of the card changes.
pub create_inode-IsNew :
    {c : Card} (v : IsCard c) (id block t access : ℕ) (s : Fs c)
    → id < 512
    → block < 2 ^ 32
    → t < 2 ^ 32
    → access < 2 ^ 32
    → let s' = create_inode id block t access s in
      IsNew (inode_field v s' id) id block t access
      × ((j : ℕ)
          → (j < inode_at id) ⊎ (inode_at id + 128 ≤ j)
          → v.byte_at s'.disk j ≡ v.byte_at s.disk j)
unfolding create_inode get_inode read_inode write_inode new_inode
create_inode-IsNew {c} v id block t access s h1 h2 h3 h4 =
    let sct = fs_start + inode_block_offset + id / 4 in
    let p = inode_ptr id in
    let m = new_inode p id block t access (c.sd_read s.disk 1 sct s.sct_buffer) in
    let n =
      new_inode-IsNew p id block t access (c.sd_read s.disk 1 sct s.sct_buffer) (omega arith) h2 h3
        h4 in
    let on_card = λ (o : ℕ) (l : o < 125).
      ap (get32 (v.byte_at (c.sd_write m 1 sct s.disk))) (place id o)
      ∙ get32-write v 1 sct (p + o) s.disk m (omega arith) in
    (
      record {
        mode = on_card Inode.mode (omega arith) ∙ n.mode;
        type = on_card Inode.type (omega arith) ∙ n.type;
        uid = on_card Inode.uid (omega arith) ∙ n.uid;
        inode_id = on_card Inode.inode_id (omega arith) ∙ n.inode_id;
        links_count = on_card Inode.links_count (omega arith) ∙ n.links_count;
        blocks = on_card Inode.blocks (omega arith) ∙ n.blocks;
        direct_block = on_card (Inode.direct_block 0) (omega arith) ∙ n.direct_block;
        size = on_card Inode.size (omega arith) ∙ n.size;
        file_num = on_card Inode.file_num (omega arith) ∙ n.file_num;
      },
      λ j o.
          rewrite-outside v 1 sct p (p + 128) s.disk s.sct_buffer m
            (λ k l x. new_inode-out p id block t access (c.sd_read s.disk 1 sct s.sct_buffer) k x) j
            (omega arith),
    )
