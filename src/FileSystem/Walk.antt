-- ===== src/FileSystem/Walk.antt =====
-- How the calls of kernel/fs/fs.c follow a path. `fuel` bounds the lengths of names and of paths.
use oslab_riscv.Prelude.{ℕ, zero, suc, true, false, Option, none, some, ◌==◌}
use oslab_riscv.FileSystem.{Card, Fs, get32, none_id, d_dir}
use oslab_riscv.FileSystem.Inode
use oslab_riscv.FileSystem.Names.{get_dir, get_subdir}
use oslab_riscv.FileSystem.Dentries.{search_dentry}

-- `current_inode.inode_id`
abbrev pub current_id : {c : Card} → Fs c → ℕ
current_id s = get32 s.current_inode Inode.inode_id

-- Where following a path ends: the directory and the name of the last component, or on the way.
pub data Walked : Type 0 where
  too_long missing : Walked
  reached : (dir_id dir : ℕ) → Walked

-- The `while` loop that the calls share. A null pointer that the C code goes on with is `none`.
unfoldable pub walk_from :
    {c : Card} → (fuel n dir_id dir : ℕ) → Option ℕ → Fs c → Option (Walked × Fs c)
walk_from fuel zero dir_id dir subdir s = none
walk_from fuel (suc n) dir_id dir none s = some (reached dir_id dir, s)
walk_from fuel (suc n) dir_id dir (some sub) s = elim (s.mem sub == 0) [
  | true ↦ some (reached dir_id dir, s)
  | false ↦ elim (search_dentry fuel dir_id dir d_dir s) [
    | none ↦ none
    | some (id, s1) ↦ elim (id == none_id) [
      | true ↦ some (missing, s1)
      | false ↦ elim (get_dir sub s1.mem) [
        | none ↦ none
        | some m ↦ walk_from fuel n id sub (get_subdir sub m) (record s1 { mem = m })
      ]
    ]
  ]
]

-- The first component, from the current directory.
unfoldable pub walk : {c : Card} → (fuel path : ℕ) → Fs c → Option (Walked × Fs c)
unfolding walk_from
walk fuel path s = elim (get_dir path s.mem) [
  | none ↦ some (too_long, s)
  | some m ↦ walk_from fuel fuel (current_id s) path (get_subdir path m) (record s { mem = m })
]

-- The `do` loop of `do_cd` and `do_ls`: every component is a directory.
unfoldable pub descend : {c : Card} → (fuel n dir_id subdir : ℕ) → Fs c → Option (Option ℕ × Fs c)
descend fuel zero dir_id dir s = none
descend fuel (suc n) dir_id dir s = elim (get_dir dir s.mem) [
  | none ↦ none
  | some m ↦ elim (search_dentry fuel dir_id dir d_dir (record s { mem = m })) [
    | none ↦ none
    | some (id, s1) ↦ elim (id == none_id) [
      | true ↦ some (none, s1)
      | false ↦ elim (get_subdir dir s1.mem) [
        | none ↦ some (some id, s1)
        | some sub ↦ elim (s1.mem sub == 0) [
          | true ↦ some (some id, s1)
          | false ↦ descend fuel n id sub s1
        ]
      ]
    ]
  ]
]
