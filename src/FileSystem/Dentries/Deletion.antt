-- ===== src/FileSystem/Dentries/Deletion.antt =====
-- What delete_dentry of kernel/fs/fs.c leaves on the card.
use oslab_riscv.Prelude.{
  ℕ, ◌+◌, ◌/◌, ◌^◌, ◌<◌, ◌≡◌, ◌≢◌, refl, sym, ap, ◌∙◌, ◌⊎◌, inl, inr, true, false, Bool-cases, not,
  ◌&&◌, none, some, ◌==◌, if◌then◌else◌, find_from, arith,
}
use oslab_riscv.FileSystem.{Card, IsCard, Fs, get32, d_dir, inode_get}
use oslab_riscv.FileSystem.Inode
use oslab_riscv.FileSystem.Dentry
use oslab_riscv.FileSystem.Sectors.{
  inode_ptr, read_inode, get_inode, write_inode, read_block, write_block,
}
use oslab_riscv.FileSystem.Sectors.Places.{inode_sector}
use oslab_riscv.FileSystem.Sectors.First.{first_with}
use oslab_riscv.FileSystem.Sectors.Rewrite.{get32-read}
use oslab_riscv.FileSystem.Sectors.Inodes.{get_inode-field, inode_field, place}
use oslab_riscv.FileSystem.Dentries.{is_busy, clear_dentry, delete_dentry}
use oslab_riscv.FileSystem.Dentries.Deleting.{uncounted, uncounted-other, cleared}
use oslab_riscv.FileSystem.Dentries.Deleted.{
  card_inode, Removed, new_sector, old_block, old_block-inode, cleared-Removed,
}

abbrev first_entry : {c : Card} → IsCard c → (dir_id b id : ℕ) → Fs c → ℕ
first_entry v dir_id b id s =
    find_from 128 0 (λ j. get32 (old_block v dir_id b s) (Dentry.inode_id j) == id)

-- The state in which `clear_dentry` has cleared entry `i`.
abbrev cleared_state : {c : Card} → IsCard c → (dir_id b i : ℕ) → Fs c → Fs c
cleared_state v dir_id b i s =
    let m = new_sector v dir_id b s in
    let s1 =
      read_block b (write_inode (dir_id / 4) (record (get_inode dir_id s) { sct_buffer = m })) in
    write_block b (record s1 { blk_buffer = cleared i (old_block v dir_id b s) })

clear_dentry-steps :
    {c : Card} (v : IsCard c) (dir_id b id : ℕ) (s : Fs c)
    → inode_field v s dir_id (Inode.direct_block 0) ≡ b
    → clear_dentry dir_id id s ≡ (
        if first_entry v dir_id b id s == 128
        then none
        else some (cleared_state v dir_id b (first_entry v dir_id b id s) s))
unfolding clear_dentry get_inode read_inode read_block write_inode uncounted
clear_dentry-steps {c} v dir_id b id s e =
    let p = inode_ptr dir_id in
    let old = c.sd_read s.disk 1 (inode_sector dir_id) s.sct_buffer in
    let block : get32 (uncounted p old) (p + Inode.direct_block 0) ≡ b =
      uncounted-other p (Inode.direct_block 0) old (inr (omega arith))
      ∙ get32-read v 1 (inode_sector dir_id) (p + Inode.direct_block 0) s.disk s.sct_buffer
          (omega arith)
      ∙ sym (ap (get32 (v.byte_at s.disk)) (place dir_id (Inode.direct_block 0)))
      ∙ e in
    rw (block, clear_dentry) refl

clear_dentry-Removed :
    {c : Card} (v : IsCard c) (dir_id b id : ℕ) (s : Fs c)
    → dir_id < 512
    → inode_field v s dir_id (Inode.direct_block 0) ≡ b
    → b < 131072
    → 0 < inode_field v s dir_id Inode.file_num
    → inode_field v s dir_id Inode.file_num < 2 ^ 32
    → 0 < inode_field v s dir_id Inode.links_count
    → inode_field v s dir_id Inode.links_count < 2 ^ 32
    → ((clear_dentry dir_id id s ≡ none) × ((j : ℕ) → j < 128 → card_inode v b s j ≢ id))
      ⊎ ((i : ℕ) × (s' : Fs c) × (clear_dentry dir_id id s ≡ some s')
          × Removed v dir_id b id i s s')
unfolding get_inode read_inode read_block write_inode write_block
clear_dentry-Removed {c} v dir_id b id s r e l h1 h2 h3 h4 =
    let i = first_entry v dir_id b id s in
    let steps = clear_dentry-steps v dir_id b id s e in
    elim (first_with 128 id (λ j. get32 (old_block v dir_id b s) (Dentry.inode_id j))
      (card_inode v b s) (old_block-inode v dir_id b s r l)) [
        | inl (full, taken) ↦ inl (steps ∙ rw full refl, taken)
        | inr (free, f) ↦
            let s' = cleared_state v dir_id b i s in
            inr (
              i,
              s',
              steps ∙ rw free refl,
              cleared-Removed v dir_id b s id i r l h1 h2 h3 h4 f s' refl,
            )
      ]

-- Reading an inode first does not matter.
get_inode-Removed :
    {c : Card} (v : IsCard c) (dir_id b id i : ℕ) (s s' : Fs c)
    → Removed v dir_id b id i (get_inode id s) s'
    → Removed v dir_id b id i s s'
unfolding get_inode read_inode
get_inode-Removed v dir_id b id i s s' w = record {
  first = w.first;
  unused = w.unused;
  unnamed = w.unnamed;
  still = w.still;
  file_num = w.file_num;
  links_count = w.links_count;
  others = w.others;
}

-- What `delete_dentry` returns once the entry is cleared: 0 for a file that has other links.
abbrev pub deleted_result : (type links : ℕ) → ℕ
deleted_result type links = if not (type == d_dir) && not (links == 1) then 0 else 1

-- `delete_dentry` returns 0 and writes nothing where a directory has entries of its own or other
-- links. Else, in a directory whose block is `b` and whose counts are not 0, it fails its assertion
-- exactly if no entry has the inode; or it clears the type and all 24 bytes of the name of the
-- first that has it, whatever that name, but not its inode, and takes one from the directory's count of
-- entries and one from its count of links, whatever the type: outside of the entry and of these two
-- counts no byte of the card changes, not even the links of the inode itself.
pub delete_dentry-Removed :
    {c : Card} (v : IsCard c) (dir_id b id type : ℕ) (s : Fs c)
    → dir_id < 512
    → inode_field v s dir_id (Inode.direct_block 0) ≡ b
    → b < 131072
    → 0 < inode_field v s dir_id Inode.file_num
    → inode_field v s dir_id Inode.file_num < 2 ^ 32
    → 0 < inode_field v s dir_id Inode.links_count
    → inode_field v s dir_id Inode.links_count < 2 ^ 32
    → let files = inode_field v s id Inode.file_num in
      let links = inode_field v s id Inode.links_count in
      let busy = type == d_dir && not (files == 2 && links == 1) in
      ((busy ≡ true) × (delete_dentry dir_id id type s ≡ some (0, get_inode id s)))
      ⊎ (((busy ≡ false)
            × (delete_dentry dir_id id type s ≡ none)
            × ((j : ℕ) → j < 128 → card_inode v b s j ≢ id))
          ⊎ ((i : ℕ) × (s' : Fs c) × (busy ≡ false)
              × (delete_dentry dir_id id type s ≡ some (deleted_result type links, s'))
              × Removed v dir_id b id i s s'))
unfolding delete_dentry get_inode read_inode
delete_dentry-Removed {c} v dir_id b id type s r e l h1 h2 h3 h4 =
    let s1 = get_inode id s in
    let files = get_inode-field v id Inode.file_num s (omega arith) in
    let links = get_inode-field v id Inode.links_count s (omega arith) in
    let busy = type == d_dir && is_busy (inode_ptr id) s1 in
    let same : busy ≡ (
        type == d_dir
        && not
            (inode_field v s id Inode.file_num == 2 && inode_field v s id Inode.links_count == 1)) =
      ap
        (λ (x : ℕ).
          type == d_dir && not (x == 2 && inode_get (inode_ptr id + Inode.links_count) s1 == 1))
        files
      ∙ ap (λ (x : ℕ). type == d_dir && not (inode_field v s id Inode.file_num == 2 && x == 1))
          links in
    let result = ap (deleted_result type) links in
    elim (Bool-cases busy) [
      | inl x ↦ inl (sym same ∙ x, rw (x, delete_dentry) refl)
      | inr x ↦ inr (elim (clear_dentry-Removed v dir_id b id s1 r e l h1 h2 h3 h4) [
        | inl (n, taken) ↦
            inl (sym same ∙ x, rw (x, delete_dentry) (rw (n, delete_dentry) refl), taken)
        | inr (i, s', n, w) ↦ inr (
          i,
          s',
          sym same ∙ x,
          rw (x, delete_dentry) (rw (n, delete_dentry) (ap (λ (r : ℕ). some (r, s')) result)),
          get_inode-Removed v dir_id b id i s s' w,
        )
      ])
    ]
