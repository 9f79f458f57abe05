-- ===== src/FileSystem/Names.antt =====
-- Paths and names: getDir, getSubdir and is_name_illegal of kernel/fs/fs.c. A path stands in the
-- caller's memory, and getDir cuts it there. A null pointer is `none`.
pub mod Cut
use oslab_riscv.Prelude.{
  ℕ, zero, suc, ◌+◌, Bool, true, false, not, ◌&&◌, ◌||◌, Option, none, some, update, ◌==◌, leb,
  if◌then◌else◌,
}
use oslab_riscv.FileSystem.{d_name}

-- The loop of `getDir` at `p`, with `n` rounds left: the memory with the first '/' cut.
unfoldable pub cut_from : (n p : ℕ) → (ℕ → ℕ) → Option (ℕ → ℕ)
cut_from zero p m = none
cut_from (suc n) p m =
    let rest = cut_from n (p + 1) m in
    if m p == 0 then some m else if m p == b'/' then some (update m p 0) else rest

-- `getDir` without its result, which is `path` again.
unfoldable pub get_dir : (path : ℕ) → (ℕ → ℕ) → Option (ℕ → ℕ)
unfolding cut_from
get_dir path m = cut_from d_name path m

-- The loop of `getSubdir`. In the last round what follows the NUL is out of range.
unfoldable pub after_nul : (n p : ℕ) → (ℕ → ℕ) → Option ℕ
after_nul zero p m = none
after_nul (suc n) p m =
    let rest = after_nul n (p + 1) m in
    if m p == 0 then if n == 0 then none else some (p + 1) else rest

unfoldable pub get_subdir : (path : ℕ) → (ℕ → ℕ) → Option ℕ
unfolding after_nul
get_subdir path m = after_nul d_name path m

-- The characters that a name may have.
unfoldable pub is_legal : ℕ → Bool
is_legal x =
    x == b'-'
    || x == b'.'
    || x == b'_'
    || (leb b'0' x && leb x b'9')
    || (leb b'a' x && leb x b'z')
    || (leb b'A' x && leb x b'Z')

-- On fuel, as the loop ends at the NUL.
unfoldable pub is_name_illegal : (fuel name : ℕ) → (ℕ → ℕ) → Option Bool
unfolding is_legal
is_name_illegal zero p m = none
is_name_illegal (suc n) p m =
    let rest = is_name_illegal n (p + 1) m in
    if m p == 0 then some false else if is_legal (m p) then rest else some true
