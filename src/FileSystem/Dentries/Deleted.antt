-- ===== src/FileSystem/Dentries/Deleted.antt =====
-- The sector and the block that delete_dentry of kernel/fs/fs.c writes, and what they say.
use oslab_riscv.Prelude.{ℕ, ◌+◌, ◌*◌, ◌^◌, ◌≤◌, ◌<◌, ◌≡◌, sym, ap, ◌∙◌, ◌⊎◌, arith}
use oslab_riscv.FileSystem.{Card, IsCard, Fs, get32}
use oslab_riscv.FileSystem.Inode
use oslab_riscv.FileSystem.Dentry
use oslab_riscv.FileSystem.Sectors.{inode_ptr, block_sector}
use oslab_riscv.FileSystem.Sectors.Bytes.{get32-congr}
use oslab_riscv.FileSystem.Sectors.Places.{data_at, inode_sector}
use oslab_riscv.FileSystem.Sectors.First.{FirstWith}
use oslab_riscv.FileSystem.Sectors.Rewrite.{get32-read, store-outside}
use oslab_riscv.FileSystem.Sectors.Inodes.{inode_field, place}
use oslab_riscv.FileSystem.Sectors.TwoWrites.{
  AreNew, OutsideCounts, both_written, both_written-others, both_written-block, both_written-word,
  both_written-inode,
}
use oslab_riscv.FileSystem.Dentries.Added.{card_type, block-byte}
use oslab_riscv.FileSystem.Dentries.Deleting.{
  uncounted, uncounted-out, uncounted-between, uncounted-file_num, uncounted-links_count, cleared,
  cleared-out, cleared-type, cleared-inode_id, cleared-name,
}

-- The inodes of the entries of block `b` on the card.
abbrev pub card_inode : {c : Card} → IsCard c → (b : ℕ) → Fs c → ℕ → ℕ
card_inode v b s j = get32 (v.byte_at s.disk) (data_at b + Dentry.inode_id j)

-- Entry `i` of the directory `dir_id`, whose block is `b`, is cleared.
pub record Removed {c : Card} (v : IsCard c) (dir_id b id i : ℕ) (s s' : Fs c) : Type 0 where
  pub first : FirstWith 128 id (card_inode v b s) i
  pub unused : card_type v b s' i ≡ 0
  pub unnamed : (j : ℕ) → j < 24 → v.byte_at s'.disk (data_at b + (Dentry.name i + j)) ≡ 0
  pub still : card_inode v b s' i ≡ id
  pub file_num : inode_field v s' dir_id Inode.file_num + 1 ≡ inode_field v s dir_id Inode.file_num
  pub links_count :
      inode_field v s' dir_id Inode.links_count + 1 ≡ inode_field v s dir_id Inode.links_count
  pub others :
      (j : ℕ)
      → OutsideCounts dir_id j
      → (j < data_at b + 32 * i) ⊎ (data_at b + 32 * i + 32 ≤ j)
      → v.byte_at s'.disk j ≡ v.byte_at s.disk j

module _ {c : Card} (v : IsCard c) (dir_id b : ℕ) (s : Fs c) where
  -- The sector that `clear_dentry` writes, the card after that, and the block that is read then.
  abbrev pub new_sector : ℕ → ℕ
  new_sector = uncounted (inode_ptr dir_id) (c.sd_read s.disk 1 (inode_sector dir_id) s.sct_buffer)

  abbrev pub mid_disk : c.Disk
  mid_disk = c.sd_write new_sector 1 (inode_sector dir_id) s.disk

  abbrev pub old_block : ℕ → ℕ
  old_block = c.sd_read mid_disk 8 (block_sector b) s.blk_buffer

  new_sector-card :
      (j : ℕ)
      → j < 512
      → (j < inode_ptr dir_id + 16) ⊎ (inode_ptr dir_id + 28 ≤ j)
      → new_sector j ≡ v.byte_at s.disk (512 * inode_sector dir_id + j)
  new_sector-card j k x =
      uncounted-out (inode_ptr dir_id) (c.sd_read s.disk 1 (inode_sector dir_id) s.sct_buffer) j x
      ∙ v.read_in s.disk 1 (inode_sector dir_id) s.sct_buffer j k

  mid_disk-data :
      dir_id < 512 → (j : ℕ) → v.byte_at mid_disk (data_at b + j) ≡ v.byte_at s.disk (data_at b + j)
  mid_disk-data r j =
      store-outside v 1 (inode_sector dir_id) (inode_ptr dir_id + 16) (inode_ptr dir_id + 28) s.disk
        new_sector new_sector-card (data_at b + j) (omega (arith, r))

  pub old_block-byte :
      dir_id < 512
      → b < 131072
      → (j : ℕ) → j < 4096
      → old_block j ≡ v.byte_at s.disk (data_at b + j)
  old_block-byte r l j k = block-byte v b j mid_disk s.blk_buffer l k ∙ mid_disk-data r j

  pub old_block-inode :
      dir_id < 512
      → b < 131072
      → (j : ℕ) → j < 128
      → get32 old_block (Dentry.inode_id j) ≡ card_inode v b s j
  old_block-inode r l j k =
      get32-congr old_block (v.byte_at s.disk) (Dentry.inode_id j) (data_at b + Dentry.inode_id j)
        λ h n.
          let there : data_at b + (Dentry.inode_id j + h) ≡ data_at b + Dentry.inode_id j + h =
            omega arith in
          old_block-byte r l (Dentry.inode_id j + h) (omega arith) ∙ ap (v.byte_at s.disk) there

  pub cleared-AreNew :
      (i : ℕ)
      → dir_id < 512
      → b < 131072
      → i < 128
      → AreNew v dir_id b (32 * i) (32 * i + 32) s.disk new_sector (cleared i old_block)
  cleared-AreNew i r l h = record {
    range = r;
    block = l;
    order = (omega arith, omega arith);
    sector = new_sector-card;
    bytes = λ j k x. cleared-out i old_block j x ∙ old_block-byte r l j k;
  }

  read_field :
      (o : ℕ)
      → o ≤ 124
      → get32 (c.sd_read s.disk 1 (inode_sector dir_id) s.sct_buffer) (inode_ptr dir_id + o)
        ≡ inode_field v s dir_id o
  read_field o k =
      get32-read v 1 (inode_sector dir_id) (inode_ptr dir_id + o) s.disk s.sct_buffer (omega arith)
      ∙ sym (ap (get32 (v.byte_at s.disk)) (place dir_id o))

  pub cleared-Removed :
      (id i : ℕ)
      → dir_id < 512
      → b < 131072
      → 0 < inode_field v s dir_id Inode.file_num
      → inode_field v s dir_id Inode.file_num < 2 ^ 32
      → 0 < inode_field v s dir_id Inode.links_count
      → inode_field v s dir_id Inode.links_count < 2 ^ 32
      → FirstWith 128 id (card_inode v b s) i
      → (s' : Fs c) → s'.disk ≡ both_written c dir_id b s.disk new_sector (cleared i old_block)
      → Removed v dir_id b id i s s'
  cleared-Removed id i r l h1 h2 h3 h4 f s' e =
      let p = inode_ptr dir_id in
      let old = c.sd_read s.disk 1 (inode_sector dir_id) s.sct_buffer in
      let i_range = f.range in
      let w = cleared i old_block in
      let a = cleared-AreNew i r l f.range in
      let field = both_written-inode v dir_id b (32 * i) (32 * i + 32) s.disk new_sector w a in
      let files = read_field Inode.file_num (omega arith) in
      let links = read_field Inode.links_count (omega arith) in
      let new_files = field Inode.file_num (omega arith) in
      let new_links = field Inode.links_count (omega arith) in
      record {
        first = f;
        unused = rw e (
            both_written-word v dir_id b (32 * i) (32 * i + 32) s.disk new_sector w l
              (Dentry.type i) (omega arith)
            ∙ cleared-type i old_block);
        unnamed = λ j k. rw e (
            both_written-block v dir_id b (32 * i) (32 * i + 32) s.disk new_sector w l
              (Dentry.name i + j) (omega arith)
            ∙ cleared-name i old_block j k);
        still = rw e (
            both_written-word v dir_id b (32 * i) (32 * i + 32) s.disk new_sector w l
              (Dentry.inode_id i) (omega arith)
            ∙ cleared-inode_id i old_block
            ∙ old_block-inode r l i f.range
            ∙ f.here);
        file_num =
            rw e (rw new_files (uncounted-file_num p old (rw files h1) (rw files h2) ∙ files));
        links_count =
            rw e (rw new_links (uncounted-links_count p old (rw links h3) (rw links h4) ∙ links));
        others = λ j x y. rw e (
            both_written-others v dir_id b (32 * i) (32 * i + 32) s.disk new_sector w a
              (λ h k.
                uncounted-between p old h k
                ∙ v.read_in s.disk 1 (inode_sector dir_id) s.sct_buffer (p + 20 + h) (omega arith))
              j x (omega (arith, y)));
      }
