-- ===== src/FileSystem/Dentries/Added.antt =====
-- What create_dentry of kernel/fs/fs.c leaves on the card.
use oslab_riscv.Prelude.{
  ℕ, ◌+◌, ◌*◌, ◌/◌, ◌^◌, ◌≤◌, ◌<◌, ◌≡◌, ◌≢◌, refl, sym, ap, ◌∙◌, ◌⊎◌, inl, inr, List, length, none,
  some, ◌==◌, if◌then◌else◌, find_from, arith,
}
use oslab_riscv.Strings.Copy.{IsString, strlen-IsString}
use oslab_riscv.FileSystem.{Card, IsCard, Fs, get32}
use oslab_riscv.FileSystem.Inode
use oslab_riscv.FileSystem.Dentry
use oslab_riscv.FileSystem.Sectors.{
  inode_ptr, read_inode, get_inode, write_inode, block_sector, read_block, write_block,
}
use oslab_riscv.FileSystem.Sectors.Places.{data_at, sector-data_at, inode_sector}
use oslab_riscv.FileSystem.Sectors.Rewrite.{get32-read}
use oslab_riscv.FileSystem.Sectors.First.{FirstFree, first_free}
use oslab_riscv.FileSystem.Sectors.Inodes.{inode_field, place}
use oslab_riscv.FileSystem.Sectors.TwoWrites.{
  AreNew, OutsideCounts, both_written, both_written-others, both_written-block, both_written-word,
  both_written-inode,
}
use oslab_riscv.FileSystem.Dentries.{fill_dentry, create_dentry}
use oslab_riscv.FileSystem.Dentries.Adding.{
  fill_dentry-out, fill_dentry-type, fill_dentry-inode_id, fill_dentry-name, links_added, counted,
  count_dentry_lem, counted-out, counted-between, counted-file_num, counted-links_count,
  counted-other,
}

-- The types of the entries of block `b` on the card.
abbrev pub card_type : {c : Card} → IsCard c → (b : ℕ) → Fs c → ℕ → ℕ
card_type v b s j = get32 (v.byte_at s.disk) (data_at b + Dentry.type j)

-- Entry `i` of the directory `dir_id`, whose block is `b`, is new.
pub record Added {c : Card} (v : IsCard c) (dir_id b id type name len i : ℕ) (s s' : Fs c)
    : Type 0 where
  pub first : FirstFree 128 (card_type v b s) i
  pub inode_id : get32 (v.byte_at s'.disk) (data_at b + Dentry.inode_id i) ≡ id
  pub of_type : card_type v b s' i ≡ type
  pub named :
      (j : ℕ) → j < len → v.byte_at s'.disk (data_at b + (Dentry.name i + j)) ≡ s.mem (name + j)
  pub file_num : inode_field v s' dir_id Inode.file_num ≡ inode_field v s dir_id Inode.file_num + 1
  pub links_count :
      inode_field v s' dir_id Inode.links_count
      ≡ inode_field v s dir_id Inode.links_count + links_added type
  pub others :
      (j : ℕ)
      → OutsideCounts dir_id j
      → (j < data_at b + 32 * i) ⊎ (data_at b + 32 * i + 32 ≤ j)
      → v.byte_at s'.disk j ≡ v.byte_at s.disk j

-- A word of a block that is read.
pub block-word :
    {c : Card} (v : IsCard c) (b o : ℕ) (d : c.Disk) (m : ℕ → ℕ)
    → b < 131072
    → o ≤ 4092
    → get32 (c.sd_read d 8 (block_sector b) m) o ≡ get32 (v.byte_at d) (data_at b + o)
block-word {c} v b o d m l k =
    let there : 512 * block_sector b + o ≡ data_at b + o = omega (arith, sector-data_at b l) in
    get32-read v 8 (block_sector b) o d m (omega arith) ∙ ap (get32 (v.byte_at d)) there

pub block-byte :
    {c : Card} (v : IsCard c) (b j : ℕ) (d : c.Disk) (m : ℕ → ℕ)
    → b < 131072
    → j < 4096
    → c.sd_read d 8 (block_sector b) m j ≡ v.byte_at d (data_at b + j)
block-byte {c} v b j d m l k =
    let there : 512 * block_sector b + j ≡ data_at b + j = omega (arith, sector-data_at b l) in
    v.read_in d 8 (block_sector b) m j (omega arith) ∙ ap (v.byte_at d) there

module _ {c : Card} (v : IsCard c) (dir_id b id type name len i : ℕ) (s : Fs c) where
  -- The sector and the block that `create_dentry` writes.
  abbrev pub new_sector : ℕ → ℕ
  new_sector =
      counted (inode_ptr dir_id) type (c.sd_read s.disk 1 (inode_sector dir_id) s.sct_buffer)

  abbrev pub new_block : ℕ → ℕ
  new_block =
      fill_dentry i id type name len s.mem (c.sd_read s.disk 8 (block_sector b) s.blk_buffer)

  new-AreNew :
      dir_id < 512
      → b < 131072
      → i < 128
      → len ≤ 24
      → AreNew v dir_id b (32 * i) (32 * i + 32) s.disk new_sector new_block
  new-AreNew r l h n = record {
    range = r;
    block = l;
    order = (omega arith, omega arith);
    sector = λ j k x.
        counted-out (inode_ptr dir_id) type (c.sd_read s.disk 1 (inode_sector dir_id) s.sct_buffer)
          j x
        ∙ v.read_in s.disk 1 (inode_sector dir_id) s.sct_buffer j k;
    bytes = λ j k x.
        fill_dentry-out i id type name len s.mem (c.sd_read s.disk 8 (block_sector b) s.blk_buffer)
          j n x
        ∙ block-byte v b j s.disk s.blk_buffer l k;
  }

  new-Added :
      dir_id < 512
      → b < 131072
      → len ≤ 24
      → id < 2 ^ 32
      → type < 2 ^ 32
      → inode_field v s dir_id Inode.file_num + 1 < 2 ^ 32
      → inode_field v s dir_id Inode.links_count + 1 < 2 ^ 32
      → FirstFree 128 (card_type v b s) i
      → (s' : Fs c) → s'.disk ≡ both_written c dir_id b s.disk new_sector new_block
      → Added v dir_id b id type name len i s s'
  new-Added r l n h1 h2 h3 h4 f s' e =
      let p = inode_ptr dir_id in
      let old = c.sd_read s.disk 1 (inode_sector dir_id) s.sct_buffer in
      let blk = c.sd_read s.disk 8 (block_sector b) s.blk_buffer in
      let a = new-AreNew r l f.range n in
      let word =
        both_written-word v dir_id b (32 * i) (32 * i + 32) s.disk new_sector new_block l in
      let field =
        both_written-inode v dir_id b (32 * i) (32 * i + 32) s.disk new_sector new_block a in
      let i_range = f.range in
      let files = read_field Inode.file_num (omega arith) in
      let links = read_field Inode.links_count (omega arith) in
      record {
        first = f;
        inode_id = rw e (
            word (Dentry.inode_id i) (omega arith)
            ∙ fill_dentry-inode_id i id type name len s.mem blk h1);
        of_type =
            rw e (
              word (Dentry.type i) (omega arith)
              ∙ fill_dentry-type i id type name len s.mem blk h2);
        named = λ j k. rw e (
            both_written-block v dir_id b (32 * i) (32 * i + 32) s.disk new_sector new_block l
              (Dentry.name i + j) (omega arith)
            ∙ fill_dentry-name i id type name len s.mem blk j k);
        file_num = rw e (
            field Inode.file_num (omega arith)
            ∙ counted-file_num p type old (rw files h3)
            ∙ rw files refl);
        links_count = rw e (
            field Inode.links_count (omega arith)
            ∙ counted-links_count p type old (rw links h4)
            ∙ rw links refl);
        others = λ j x y. rw e (
            both_written-others v dir_id b (32 * i) (32 * i + 32) s.disk new_sector new_block a
              (λ h k.
                counted-between p type old h k
                ∙ v.read_in s.disk 1 (inode_sector dir_id) s.sct_buffer (p + 20 + h) (omega arith))
              j x (omega (arith, y)));
      }
    where
      read_field :
          (o : ℕ)
          → o ≤ 124
          → get32 (c.sd_read s.disk 1 (inode_sector dir_id) s.sct_buffer) (inode_ptr dir_id + o)
            ≡ inode_field v s dir_id o
      read_field o k =
          get32-read v 1 (inode_sector dir_id) (inode_ptr dir_id + o) s.disk s.sct_buffer
            (omega arith)
          ∙ sym (ap (get32 (v.byte_at s.disk)) (place dir_id o))

-- The state in which `create_dentry` has entered the new entry.
abbrev pub added_state : {c : Card} (v : IsCard c) (dir_id b id type name len i : ℕ) → Fs c → Fs c
added_state v dir_id b id type name len i s =
    let m = new_sector v dir_id b id type name len i s in
    let w = new_block v dir_id b id type name len i s in
    let s1 = read_block b (record (get_inode dir_id s) { sct_buffer = m }) in
    write_block b (write_inode (dir_id / 4) (record s1 { blk_buffer = w }))

abbrev first_unused : {c : Card} → ℕ → Fs c → ℕ
first_unused {c} b s =
    find_from 128 0
      (λ j. get32 (c.sd_read s.disk 8 (block_sector b) s.blk_buffer) (Dentry.type j) == 0)

create_dentry-steps :
    {c : Card} (v : IsCard c) (fuel dir_id b id name type : ℕ) (xs : List ℕ) (s : Fs c)
    → inode_field v s dir_id (Inode.direct_block 0) ≡ b
    → IsString name xs s.mem
    → length xs < fuel
    → create_dentry fuel dir_id id name type s ≡ (
        if first_unused b s == 128
        then none
        else some (id, added_state v dir_id b id type name (length xs) (first_unused b s) s))
unfolding create_dentry get_inode read_inode read_block
create_dentry-steps {c} v fuel dir_id b id name type xs s e str n =
    let p = inode_ptr dir_id in
    let old = c.sd_read s.disk 1 (inode_sector dir_id) s.sct_buffer in
    let block : get32 (counted p type old) (p + Inode.direct_block 0) ≡ b =
      counted-other p type (Inode.direct_block 0) old (inr (omega arith))
      ∙ get32-read v 1 (inode_sector dir_id) (p + Inode.direct_block 0) s.disk s.sct_buffer
          (omega arith)
      ∙ sym (ap (get32 (v.byte_at s.disk)) (place dir_id (Inode.direct_block 0)))
      ∙ e in
    let size = strlen-IsString fuel name xs s.mem str n in
    rw (count_dentry_lem p type (get_inode dir_id s), create_dentry)
      (rw (block, create_dentry) (rw (size, create_dentry) refl))

-- `create_dentry` with a name of at most 24 characters, in a directory whose block is `b`, fails its
-- assertion exactly if all 128 entries are in use; else the first that is not gets the inode, the
-- type and the characters of the name, the directory counts one entry more, and one link more if
-- the entry is for a directory; outside of the entry and of the directory's two counts no byte of
-- the card changes.
pub create_dentry-Added :
    {c : Card} (v : IsCard c) (fuel dir_id b id name type : ℕ) (xs : List ℕ) (s : Fs c)
    → dir_id < 512
    → inode_field v s dir_id (Inode.direct_block 0) ≡ b
    → b < 131072
    → IsString name xs s.mem
    → length xs < fuel
    → length xs ≤ 24
    → id < 2 ^ 32
    → type < 2 ^ 32
    → inode_field v s dir_id Inode.file_num + 1 < 2 ^ 32
    → inode_field v s dir_id Inode.links_count + 1 < 2 ^ 32
    → ((create_dentry fuel dir_id id name type s ≡ none)
        × ((j : ℕ) → j < 128 → card_type v b s j ≢ 0))
      ⊎ ((i : ℕ) × (s' : Fs c) × (create_dentry fuel dir_id id name type s ≡ some (id, s'))
          × Added v dir_id b id type name (length xs) i s s')
unfolding get_inode read_inode read_block write_inode write_block
create_dentry-Added {c} v fuel dir_id b id name type xs s r e l str n1 n2 h1 h2 h3 h4 =
    let blk = c.sd_read s.disk 8 (block_sector b) s.blk_buffer in
    let i = first_unused b s in
    let steps = create_dentry-steps v fuel dir_id b id name type xs s e str n1 in
    let on_card =
      λ (j : ℕ) (k : j < 128). block-word v b (Dentry.type j) s.disk s.blk_buffer l (omega arith) in
    elim (first_free 128 (λ j. get32 blk (Dentry.type j)) (card_type v b s) on_card) [
      | inl (full, taken) ↦ inl (steps ∙ rw full refl, taken)
      | inr (free, f) ↦
          let s' = added_state v dir_id b id type name (length xs) i s in
          inr (
            i,
            s',
            steps ∙ rw free refl,
            new-Added v dir_id b id type name (length xs) i s r l n2 h1 h2 h3 h4 f s' refl,
          )
    ]
