-- ===== src/FileSystem/Sectors/TwoWrites.antt =====
-- An inode's sector and then a block are written back, as the calls of kernel/fs/fs.c on entries of a
-- directory do.
use oslab_riscv.Prelude.{ℕ, ◌+◌, ◌-◌, ◌*◌, ◌≤◌, ◌<◌, ◌≡◌, sym, ap, ◌∙◌, ◌⊎◌, inl, inr, subst, arith}
use oslab_riscv.FileSystem.{Card, IsCard, get32}
use oslab_riscv.FileSystem.Sectors.{inode_ptr, block_sector}
use oslab_riscv.FileSystem.Sectors.Bytes.{get32-congr}
use oslab_riscv.FileSystem.Sectors.Places.{data_at, sector-data_at, inode_sector}
use oslab_riscv.FileSystem.Sectors.Rewrite.{store-outside, get32-write}
use oslab_riscv.FileSystem.Sectors.Inodes.{inode_at, place}

-- In the sector the words from `file_num` to `links_count` of inode `id` are new, in the block the
-- bytes from `lo` to `hi`.
pub record AreNew {c : Card} (v : IsCard c) (id b lo hi : ℕ) (d : c.Disk) (m w : ℕ → ℕ)
    : Type 0 where
  pub range : id < 512
  pub block : b < 131072
  pub order : (lo ≤ hi) × (hi ≤ 4096)
  pub sector :
      (j : ℕ)
      → j < 512
      → (j < inode_ptr id + 16) ⊎ (inode_ptr id + 28 ≤ j)
      → m j ≡ v.byte_at d (512 * inode_sector id + j)
  pub bytes : (j : ℕ) → j < 4096 → (j < lo) ⊎ (hi ≤ j) → w j ≡ v.byte_at d (data_at b + j)

-- A byte that is neither in the count of entries nor in the count of links of inode `id`.
abbrev pub OutsideCounts : (id j : ℕ) → Type 0
OutsideCounts id j =
    (j < inode_at id + 16)
    ⊎ (((inode_at id + 20 ≤ j) × (j < inode_at id + 24)) ⊎ (inode_at id + 28 ≤ j))

abbrev pub both_written : (c : Card) → (id b : ℕ) → c.Disk → (m w : ℕ → ℕ) → c.Disk
both_written c id b d m w = c.sd_write w 8 (block_sector b) (c.sd_write m 1 (inode_sector id) d)

module _ {c : Card} (v : IsCard c) (id b lo hi : ℕ) (d : c.Disk) (m w : ℕ → ℕ) where
  sector-outside :
      AreNew v id b lo hi d m w
      → (j : ℕ) → (j < inode_at id + 16) ⊎ (inode_at id + 28 ≤ j)
      → v.byte_at (c.sd_write m 1 (inode_sector id) d) j ≡ v.byte_at d j
  sector-outside a j x =
      store-outside v 1 (inode_sector id) (inode_ptr id + 16) (inode_ptr id + 28) d m a.sector j
        (omega (arith, x))

  pub both_written-outside :
      AreNew v id b lo hi d m w
      → (j : ℕ) → (j < inode_at id + 16) ⊎ (inode_at id + 28 ≤ j)
      → (j < data_at b + lo) ⊎ (data_at b + hi ≤ j)
      → v.byte_at (both_written c id b d m w) j ≡ v.byte_at d j
  both_written-outside a j x y =
      store-outside v 8 (block_sector b) lo hi (c.sd_write m 1 (inode_sector id) d) w
        (λ k l o.
          let there : data_at b + k ≡ 512 * block_sector b + k =
            omega (arith, sector-data_at b a.block) in
          a.bytes k l o
          ∙ sym (sector-outside a (data_at b + k) (omega (arith, a.range)))
          ∙ ap (v.byte_at (c.sd_write m 1 (inode_sector id) d)) there)
        j (omega (arith, y, sector-data_at b a.block))
      ∙ sector-outside a j x

  -- In the inode the bytes from 20 to 23, between the counts, are those of the sector.
  pub both_written-between :
      AreNew v id b lo hi d m w
      → ((j : ℕ)
          → j < 4
          → m (inode_ptr id + 20 + j)
            ≡ v.byte_at d (512 * inode_sector id + (inode_ptr id + 20 + j)))
      → (j : ℕ) → j < 4
      → v.byte_at (both_written c id b d m w) (inode_at id + 20 + j)
        ≡ v.byte_at d (inode_at id + 20 + j)
  both_written-between a f j l =
      let there : inode_at id + 20 + j ≡ 512 * inode_sector id + (inode_ptr id + 20 + j) =
        omega arith in
      v.write_out w 8 (block_sector b) (c.sd_write m 1 (inode_sector id) d) (inode_at id + 20 + j)
        (omega (arith, a.range, a.block))
      ∙ ap (v.byte_at (c.sd_write m 1 (inode_sector id) d)) there
      ∙ v.write_in m 1 (inode_sector id) d (inode_ptr id + 20 + j) (omega arith)
      ∙ f j l
      ∙ sym (ap (v.byte_at d) there)

  -- Outside of both counts and of the new bytes of the block no byte of the card changes.
  pub both_written-others :
      AreNew v id b lo hi d m w
      → ((j : ℕ)
          → j < 4
          → m (inode_ptr id + 20 + j)
            ≡ v.byte_at d (512 * inode_sector id + (inode_ptr id + 20 + j)))
      → (j : ℕ) → OutsideCounts id j
      → (j < data_at b + lo) ⊎ (data_at b + hi ≤ j)
      → v.byte_at (both_written c id b d m w) j ≡ v.byte_at d j
  both_written-others a f j (inl x) y = both_written-outside a j (inl x) y
  both_written-others a f j (inr (inr x)) y = both_written-outside a j (inr x) y
  both_written-others a f j (inr (inl (x, z))) y =
      let there : j ≡ inode_at id + 20 + (j - (inode_at id + 20)) = omega (arith, x) in
      subst (λ q. v.byte_at (both_written c id b d m w) q ≡ v.byte_at d q) (sym there)
        (both_written-between a f (j - (inode_at id + 20)) (omega (arith, x, z)))

  pub both_written-block :
      b < 131072 → (j : ℕ) → j < 4096 → v.byte_at (both_written c id b d m w) (data_at b + j) ≡ w j
  both_written-block l j k =
      let there : data_at b + j ≡ 512 * block_sector b + j = omega (arith, sector-data_at b l) in
      rw there
        (v.write_in w 8 (block_sector b) (c.sd_write m 1 (inode_sector id) d) j (omega arith))

  pub both_written-word :
      b < 131072
      → (o : ℕ) → o ≤ 4092
      → get32 (v.byte_at (both_written c id b d m w)) (data_at b + o) ≡ get32 w o
  both_written-word l o k =
      get32-congr (v.byte_at (both_written c id b d m w)) w (data_at b + o) o λ j h.
        let there : data_at b + o + j ≡ data_at b + (o + j) = omega arith in
        ap (v.byte_at (both_written c id b d m w)) there
        ∙ both_written-block l (o + j) (omega arith)

  pub both_written-inode :
      AreNew v id b lo hi d m w
      → (o : ℕ) → o ≤ 124
      → get32 (v.byte_at (both_written c id b d m w)) (inode_at id + o) ≡ get32 m (inode_ptr id + o)
  both_written-inode a o k =
      get32-congr (v.byte_at (both_written c id b d m w))
        (v.byte_at (c.sd_write m 1 (inode_sector id) d)) (inode_at id + o) (inode_at id + o)
        (λ j h.
          v.write_out w 8 (block_sector b) (c.sd_write m 1 (inode_sector id) d)
            (inode_at id + o + j) (omega (arith, a.range, a.block)))
      ∙ ap (get32 (v.byte_at (c.sd_write m 1 (inode_sector id) d))) (place id o)
      ∙ get32-write v 1 (inode_sector id) (inode_ptr id + o) d m (omega arith)
