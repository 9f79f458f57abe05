-- ===== src/FileSystem/Locate/Levels.antt =====
-- Which blocks byte_locate of kernel/fs/fs.c goes through for each offset.
use oslab_riscv.Prelude.{
  ℕ, zero, suc, ◌+◌, ◌-◌, ◌*◌, ◌/◌, ◌^◌, ◌≤◌, ◌<◌, ◌≡◌, inl, inr, Bool-cases, some, ltb, arith,
}
use oslab_riscv.FileSystem.Locate.{block_level}

-- How many pages come before those of a level, by the fields of `inode_t` and blocks of 1024 ids:
-- 14 direct blocks, 3 blocks of ids, 2 blocks of blocks of ids.
abbrev pub pages_before : ℕ → ℕ
pages_before zero = 0
pages_before (suc zero) = 14
pages_before (suc (suc n)) = 14 + 3 * 1024

-- The field of the inode that a page of a level is reached from, and how many such fields there are.
abbrev pub field_of : (level page : ℕ) → ℕ
field_of zero page = page
field_of (suc zero) page = page / 1024
field_of (suc (suc n)) page = page / 1048576

abbrev pub fields_of : ℕ → ℕ
fields_of zero = 14
fields_of (suc zero) = 3
fields_of (suc (suc n)) = 2

-- The page at `offset` is reached at a level below the third, from a field that the inode has.
pub record Reaches (offset level page : ℕ) : Type 0 where
  pub level_le : level ≤ 2
  pub numbered : pages_before level + page ≡ offset / 4096
  pub in_inode : field_of level page < fields_of level

-- For each offset of 32 bits `byte_locate` goes by the direct blocks or by one or two levels of
-- index blocks, never by three, and starts at a field that the inode has; level and page determine
-- the page of the offset.
pub block_level-Reaches :
    (offset : ℕ)
    → offset < 2 ^ 32
    → (level : ℕ) × (page : ℕ) × (block_level (offset / 4096) ≡ some (level, page))
      × Reaches offset level page
unfolding block_level
block_level-Reaches offset l = elim (Bool-cases (ltb (offset / 4096) 14)) [
  | inl a ↦ (
    0,
    offset / 4096,
    ground (arith, a),
    record { level_le = omega arith; numbered = omega arith; in_inode = ground (arith, a) },
  )
  | inr a ↦ elim (Bool-cases (ltb (offset / 4096) 3086)) [
    | inl b ↦ (
      1,
      offset / 4096 - 14,
      ground (arith, a, b),
      record {
        level_le = omega arith;
        numbered = ground (arith, a);
        in_inode = ground (arith, a, b);
      },
    )
    | inr b ↦ (
      2,
      offset / 4096 - 3086,
      ground (arith, a, b),
      record { level_le = omega arith; numbered = ground (arith, b); in_inode = ground (arith, b) },
    )
  ]
]
