-- ===== src/FileSystem/Tests/Paths.antt =====
-- The theorems about paths and about the pages of files at one path and one offset.
use oslab_riscv.Prelude.{ℕ, ◌≡◌, some, [], ◌∷◌, arith}
use oslab_riscv.FileSystem.Names.Cut.{IsPart, last, more}
use oslab_riscv.FileSystem.Locate.{block_level}
use oslab_riscv.FileSystem.Locate.Levels.{Reaches, block_level-Reaches}

path_d : IsPart (b'd' ∷ [])
path_d = more (ground arith) (ground arith) last

path_a : IsPart (b'a' ∷ [])
path_a = more (ground arith) (ground arith) last

block_level-Reaches_example :
    (level : ℕ) × (page : ℕ) × (block_level 3086 ≡ some (level, page)) × Reaches 12640256 level page
block_level-Reaches_example = block_level-Reaches 12640256 (omega arith)
