-- ===== src/FileSystem/Dentries/Deleting.antt =====
-- The bytes that delete_dentry of kernel/fs/fs.c writes: the entry, and the counts of the directory.
use oslab_riscv.Prelude.{ℕ, ◌+◌, ◌-◌, ◌*◌, ◌^◌, ◌≤◌, ◌<◌, ◌≡◌, ◌∙◌, ◌⊎◌, inl, inr, arith}
use oslab_riscv.Strings.{memset}
use oslab_riscv.Strings.Blocks.{memset-in, memset-out}
use oslab_riscv.FileSystem.{get32, set32, d_name}
use oslab_riscv.FileSystem.Inode
use oslab_riscv.FileSystem.Dentry
use oslab_riscv.FileSystem.Sectors.Bytes.{
  set32-out, get32-congr, get32-set32, get32-set32_ne, get32-set32_mod,
}

-- The sector with both counts of the directory at `p` one less.
unfoldable pub uncounted : (p : ℕ) → (ℕ → ℕ) → ℕ → ℕ
uncounted p m =
    let a = set32 m (p + Inode.file_num) (get32 m (p + Inode.file_num) + (2 ^ 32 - 1)) in
    set32 a (p + Inode.links_count) (get32 a (p + Inode.links_count) + (2 ^ 32 - 1))

pub uncounted-out :
    (p : ℕ) (m : ℕ → ℕ) (j : ℕ) → (j < p + 16) ⊎ (p + 28 ≤ j) → uncounted p m j ≡ m j
unfolding uncounted
uncounted-out p m j x =
    let n = get32 m (p + Inode.file_num) + (2 ^ 32 - 1) in
    let a = set32 m (p + Inode.file_num) n in
    set32-out a (p + Inode.links_count) (get32 a (p + Inode.links_count) + (2 ^ 32 - 1)) j
      (omega (arith, x))
    ∙ set32-out m (p + Inode.file_num) n j (omega (arith, x))

pub uncounted-between :
    (p : ℕ) (m : ℕ → ℕ) (j : ℕ) → j < 4 → uncounted p m (p + 20 + j) ≡ m (p + 20 + j)
unfolding uncounted
uncounted-between p m j x =
    let n = get32 m (p + Inode.file_num) + (2 ^ 32 - 1) in
    let a = set32 m (p + Inode.file_num) n in
    set32-out a (p + Inode.links_count) (get32 a (p + Inode.links_count) + (2 ^ 32 - 1))
      (p + 20 + j) (inl (omega (arith, x)))
    ∙ set32-out m (p + Inode.file_num) n (p + 20 + j) (inr (omega arith))

pub uncounted-file_num :
    (p : ℕ) (m : ℕ → ℕ)
    → 0 < get32 m (p + Inode.file_num)
    → get32 m (p + Inode.file_num) < 2 ^ 32
    → get32 (uncounted p m) (p + Inode.file_num) + 1 ≡ get32 m (p + Inode.file_num)
unfolding uncounted
uncounted-file_num p m k l =
    let n = get32 m (p + Inode.file_num) + (2 ^ 32 - 1) in
    let a = set32 m (p + Inode.file_num) n in
    let kept =
      get32-set32_ne a (p + Inode.links_count) (p + Inode.file_num)
        (get32 a (p + Inode.links_count) + (2 ^ 32 - 1)) (inl (omega arith)) in
    let new = get32-set32_mod m (p + Inode.file_num) n in rw (kept, new) (omega arith)

pub uncounted-links_count :
    (p : ℕ) (m : ℕ → ℕ)
    → 0 < get32 m (p + Inode.links_count)
    → get32 m (p + Inode.links_count) < 2 ^ 32
    → get32 (uncounted p m) (p + Inode.links_count) + 1 ≡ get32 m (p + Inode.links_count)
unfolding uncounted
uncounted-links_count p m k l =
    let n = get32 m (p + Inode.file_num) + (2 ^ 32 - 1) in
    let a = set32 m (p + Inode.file_num) n in
    let kept =
      get32-set32_ne m (p + Inode.file_num) (p + Inode.links_count) n (inr (omega arith)) in
    let new =
      get32-set32_mod a (p + Inode.links_count) (get32 a (p + Inode.links_count) + (2 ^ 32 - 1)) in
    rw (new, kept) (omega arith)

pub uncounted-other :
    (p o : ℕ) (m : ℕ → ℕ)
    → (o + 4 ≤ 16) ⊎ (28 ≤ o)
    → get32 (uncounted p m) (p + o) ≡ get32 m (p + o)
uncounted-other p o m x =
    get32-congr (uncounted p m) m (p + o) (p + o)
      λ j k. uncounted-out p m (p + o + j) (omega (arith, x))

-- Entry `i` of a block is cleared.
abbrev pub cleared : (i : ℕ) → (ℕ → ℕ) → ℕ → ℕ
cleared i blk = memset (Dentry.name i) 0 d_name (set32 blk (Dentry.type i) 0)

pub cleared-out :
    (i : ℕ) (blk : ℕ → ℕ) (j : ℕ) → (j < 32 * i) ⊎ (32 * i + 32 ≤ j) → cleared i blk j ≡ blk j
cleared-out i blk j x =
    memset-out (Dentry.name i) 0 d_name (set32 blk (Dentry.type i) 0) j (omega (arith, x))
    ∙ set32-out blk (Dentry.type i) 0 j (omega (arith, x))

pub cleared-type : (i : ℕ) (blk : ℕ → ℕ) → get32 (cleared i blk) (Dentry.type i) ≡ 0
cleared-type i blk =
    let b = set32 blk (Dentry.type i) 0 in
    get32-congr (memset (Dentry.name i) 0 d_name b) b (Dentry.type i) (Dentry.type i)
      (λ j k. memset-out (Dentry.name i) 0 d_name b (Dentry.type i + j) (omega arith))
    ∙ get32-set32 blk (Dentry.type i) 0 (omega arith)

pub cleared-inode_id :
    (i : ℕ) (blk : ℕ → ℕ)
    → get32 (cleared i blk) (Dentry.inode_id i) ≡ get32 blk (Dentry.inode_id i)
cleared-inode_id i blk =
    let b = set32 blk (Dentry.type i) 0 in
    get32-congr (memset (Dentry.name i) 0 d_name b) b (Dentry.inode_id i) (Dentry.inode_id i)
      (λ j k. memset-out (Dentry.name i) 0 d_name b (Dentry.inode_id i + j) (omega arith))
    ∙ get32-set32_ne blk (Dentry.type i) (Dentry.inode_id i) 0 (inr (omega arith))

pub cleared-name : (i : ℕ) (blk : ℕ → ℕ) (j : ℕ) → j < 24 → cleared i blk (Dentry.name i + j) ≡ 0
cleared-name i blk j l = memset-in (Dentry.name i) 0 d_name (set32 blk (Dentry.type i) 0) j l
