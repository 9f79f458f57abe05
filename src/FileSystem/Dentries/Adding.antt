-- ===== src/FileSystem/Dentries/Adding.antt =====
-- The bytes that create_dentry of kernel/fs/fs.c writes: the entry, and the counts of the directory.
use oslab_riscv.Prelude.{
  ℕ, ◌+◌, ◌*◌, ◌^◌, ◌≤◌, ◌<◌, ◌≡◌, refl, ◌∙◌, ◌⊎◌, inl, inr, Bool-cases, ◌==◌, if◌then◌else◌, arith,
}
use oslab_riscv.Strings.{copy_bytes}
use oslab_riscv.Strings.Blocks.{copy_bytes-in, copy_bytes-out}
use oslab_riscv.FileSystem.{Card, Fs, get32, set32, d_dir}
use oslab_riscv.FileSystem.Inode
use oslab_riscv.FileSystem.Dentry
use oslab_riscv.FileSystem.Sectors.Bytes.{set32-out, get32-congr, get32-set32, get32-set32_ne}
use oslab_riscv.FileSystem.Dentries.{fill_dentry, count_dentry}

-- The entry that `fill_dentry` writes, and what it leaves.
pub fill_dentry-out :
    (i id type name len : ℕ) (mem blk : ℕ → ℕ) (j : ℕ)
    → len ≤ 24
    → (j < 32 * i) ⊎ (32 * i + 32 ≤ j)
    → fill_dentry i id type name len mem blk j ≡ blk j
unfolding fill_dentry
fill_dentry-out i id type name len mem blk j l x =
    copy_bytes-out (Dentry.name i) name len mem
      (set32 (set32 blk (Dentry.inode_id i) id) (Dentry.type i) type) j (omega (arith, x))
    ∙ set32-out (set32 blk (Dentry.inode_id i) id) (Dentry.type i) type j (omega (arith, x))
    ∙ set32-out blk (Dentry.inode_id i) id j (omega (arith, x))

pub fill_dentry-type :
    (i id type name len : ℕ) (mem blk : ℕ → ℕ)
    → type < 2 ^ 32
    → get32 (fill_dentry i id type name len mem blk) (Dentry.type i) ≡ type
unfolding fill_dentry
fill_dentry-type i id type name len mem blk l =
    let b = set32 (set32 blk (Dentry.inode_id i) id) (Dentry.type i) type in
    get32-congr (copy_bytes (Dentry.name i) name len mem b) b (Dentry.type i) (Dentry.type i)
      (λ j k. copy_bytes-out (Dentry.name i) name len mem b (Dentry.type i + j) (omega arith))
    ∙ get32-set32 (set32 blk (Dentry.inode_id i) id) (Dentry.type i) type l

pub fill_dentry-inode_id :
    (i id type name len : ℕ) (mem blk : ℕ → ℕ)
    → id < 2 ^ 32
    → get32 (fill_dentry i id type name len mem blk) (Dentry.inode_id i) ≡ id
unfolding fill_dentry
fill_dentry-inode_id i id type name len mem blk l =
    let a = set32 blk (Dentry.inode_id i) id in
    let b = set32 a (Dentry.type i) type in
    get32-congr (copy_bytes (Dentry.name i) name len mem b) b (Dentry.inode_id i)
      (Dentry.inode_id i)
      (λ j k. copy_bytes-out (Dentry.name i) name len mem b (Dentry.inode_id i + j) (omega arith))
    ∙ get32-set32_ne a (Dentry.type i) (Dentry.inode_id i) type (inr (omega arith))
    ∙ get32-set32 blk (Dentry.inode_id i) id l

pub fill_dentry-name :
    (i id type name len : ℕ) (mem blk : ℕ → ℕ) (j : ℕ)
    → j < len
    → fill_dentry i id type name len mem blk (Dentry.name i + j) ≡ mem (name + j)
unfolding fill_dentry
fill_dentry-name i id type name len mem blk j l =
    copy_bytes-in (Dentry.name i) name len mem
      (set32 (set32 blk (Dentry.inode_id i) id) (Dentry.type i) type) j l

-- The inode's words that `count_dentry` changes: what it adds to the links.
abbrev pub links_added : ℕ → ℕ
links_added type = if type == d_dir then 1 else 0

-- The sector that `count_dentry` leaves in the buffer.
unfoldable pub counted : (p type : ℕ) → (ℕ → ℕ) → ℕ → ℕ
counted p type m =
    let a = set32 m (p + Inode.file_num) (get32 m (p + Inode.file_num) + 1) in
    if type == d_dir
    then set32 a (p + Inode.links_count) (get32 a (p + Inode.links_count) + 1)
    else a

pub count_dentry_lem :
    {c : Card} (p type : ℕ) (s : Fs c)
    → count_dentry p type s ≡ (record s { sct_buffer = counted p type s.sct_buffer })
unfolding count_dentry counted
count_dentry_lem p type s = elim (Bool-cases (type == d_dir)) [
  | inl e ↦ rw e refl
  | inr e ↦ rw e refl
]

pub counted-out :
    (p type : ℕ) (m : ℕ → ℕ) (j : ℕ) → (j < p + 16) ⊎ (p + 28 ≤ j) → counted p type m j ≡ m j
unfolding counted
counted-out p type m j x =
    let n = get32 m (p + Inode.file_num) + 1 in
    let a = set32 m (p + Inode.file_num) n in
    let first = set32-out m (p + Inode.file_num) n j (omega (arith, x)) in
    elim (Bool-cases (type == d_dir)) [
      | inr e ↦ rw e first
      | inl e ↦ rw e (
          set32-out a (p + Inode.links_count) (get32 a (p + Inode.links_count) + 1) j
            (omega (arith, x))
          ∙ first)
    ]

pub counted-between :
    (p type : ℕ) (m : ℕ → ℕ) (j : ℕ) → j < 4 → counted p type m (p + 20 + j) ≡ m (p + 20 + j)
unfolding counted
counted-between p type m j x =
    let n = get32 m (p + Inode.file_num) + 1 in
    let a = set32 m (p + Inode.file_num) n in
    let first = set32-out m (p + Inode.file_num) n (p + 20 + j) (inr (omega arith)) in
    elim (Bool-cases (type == d_dir)) [
      | inr e ↦ rw e first
      | inl e ↦ rw e (
          set32-out a (p + Inode.links_count) (get32 a (p + Inode.links_count) + 1) (p + 20 + j)
            (inl (omega (arith, x)))
          ∙ first)
    ]

pub counted-file_num :
    (p type : ℕ) (m : ℕ → ℕ)
    → get32 m (p + Inode.file_num) + 1 < 2 ^ 32
    → get32 (counted p type m) (p + Inode.file_num) ≡ get32 m (p + Inode.file_num) + 1
unfolding counted
counted-file_num p type m l =
    let n = get32 m (p + Inode.file_num) + 1 in
    let a = set32 m (p + Inode.file_num) n in
    let first = get32-set32 m (p + Inode.file_num) n l in
    elim (Bool-cases (type == d_dir)) [
      | inr e ↦ rw e first
      | inl e ↦ rw e (
          get32-set32_ne a (p + Inode.links_count) (p + Inode.file_num)
            (get32 a (p + Inode.links_count) + 1) (inl (omega arith))
          ∙ first)
    ]

pub counted-links_count :
    (p type : ℕ) (m : ℕ → ℕ)
    → get32 m (p + Inode.links_count) + 1 < 2 ^ 32
    → get32 (counted p type m) (p + Inode.links_count)
      ≡ get32 m (p + Inode.links_count) + links_added type
unfolding counted
counted-links_count p type m l =
    let n = get32 m (p + Inode.file_num) + 1 in
    let a = set32 m (p + Inode.file_num) n in
    let first =
      get32-set32_ne m (p + Inode.file_num) (p + Inode.links_count) n (inr (omega arith)) in
    elim (Bool-cases (type == d_dir)) [
      | inr e ↦ rw e (first ∙ omega arith)
      | inl e ↦ rw e (get32-set32 a (p + Inode.links_count) _ (rw first l) ∙ rw first refl)
    ]

pub counted-other :
    (p type o : ℕ) (m : ℕ → ℕ)
    → (o + 4 ≤ 16) ⊎ (28 ≤ o)
    → get32 (counted p type m) (p + o) ≡ get32 m (p + o)
counted-other p type o m x =
    get32-congr (counted p type m) m (p + o) (p + o)
      λ j k. counted-out p type m (p + o + j) (omega (arith, x))
