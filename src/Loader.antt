-- ===== src/Loader.antt =====
-- kernel/loader/loader.c and include/os/task.h: a task's image is read from the card into the pages of
-- a new process. `buffer`, the address of the loader's buffer of two sectors, is the linker's choice.
pub mod Page
pub mod Pages
pub mod Final
pub mod Image
pub mod Tests
use oslab_riscv.Prelude.{
  ℕ, zero, suc, ◌+◌, ◌-◌, ◌*◌, ◌/◌, ◌%◌, ◌^◌, ◌≤◌, ◌<◌, ◌≡◌, ◌⊎◌, min, Bool, true, false, Option,
  none, some, ◌>>=◌, ◌==◌, ltb, if◌then◌else◌, find_from,
}
use oslab_riscv.Prelude.Int.{ℤ, pos, eq_ℤ}
use oslab_riscv.Strings.{strcmp}
use oslab_riscv.Memory.{unswapable, SdCard, Memory, kva2pa, pa2kva, clear_pgdir}
use oslab_riscv.Memory.Bytes.{load_byte, copy_mem, fill_mem}
use oslab_riscv.Memory.Tables.{alloc_page_helper}

-- `task_info_t`; `name` is an array of bytes.
pub record TaskInfo : Type 0 where
  pub begin_block : ℕ
  pub end_block : ℕ
  pub begin_offset : ℕ
  pub end_offset : ℕ
  pub memsz : ℕ
  pub entry_addr : ℕ
  pub name : ℕ → ℕ

-- `TASK_MAXNUM` and `TASK_NAME_LEN`
abbrev pub task_maxnum : ℕ
task_maxnum = 16

abbrev pub task_name_len : ℕ
task_name_len = 18

-- `strcmp(tasks[taskid].name, taskname) == 0`. A name that fills its array without a NUL runs on into
-- the next task: no match.
abbrev pub is_named : (mem : ℕ → ℕ) (taskname : ℕ) → TaskInfo → Bool
is_named mem taskname t = elim (strcmp task_name_len 0 taskname t.name mem) [
  | none ↦ false
  | some d ↦ eq_ℤ d (pos 0)
]

abbrev pub find_task : (ℕ → TaskInfo) → (mem : ℕ → ℕ) (taskname : ℕ) → ℕ
find_task tasks mem taskname = find_from task_maxnum 0 (λ i. is_named mem taskname (tasks i))

-- `(block << 9) + offset` in 32 bits
abbrev pub image_addr : (block offset : ℕ) → ℕ
image_addr block offset = (block * 512 + offset) % 2 ^ 32

-- `end_addr - begin_addr` in 64 bits
abbrev pub image_size : TaskInfo → ℕ
image_size t =
    (image_addr t.end_block t.end_offset + 2 ^ 64 - image_addr t.begin_block t.begin_offset)
    % 2 ^ 64

-- Two sectors are read into the buffer, and what the page needs is copied.
unfoldable pub load_sector :
    (sd : SdCard) (buffer kva block offset k left : ℕ) → Memory sd.Disk → Memory sd.Disk
load_sector sd buffer kva block offset k left m = record m {
  words =
      copy_mem (kva + k * 512) (buffer + offset) (min 512 left)
        (sd.sd_read m.disk (kva2pa buffer) 2 ((block + k) % 2 ^ 32) m.words);
}

-- The loop over the sectors of a page; after the last, incomplete sector the rest is zeroed.
unfoldable pub load_sectors :
    (sd : SdCard) (buffer kva block offset rounds k left : ℕ) → Memory sd.Disk → Memory sd.Disk
unfolding load_sector
load_sectors sd buffer kva block offset zero k left m = m
load_sectors sd buffer kva block offset (suc n) k left m =
    let m1 = load_sector sd buffer kva block offset k left m in
    let rest = load_sectors sd buffer kva block offset n (k + 1) (left - 512) m1 in
    if left == 0
    then m
    else if ltb left 512
    then record m1 { words = fill_mem (kva + k * 512 + left) 0 (4096 - k * 512 - left) m1.words }
    else rest

-- The rounds of the loop over `it`, which goes up by a page.
unfoldable pub load_pages :
    (sd : SdCard) (buffer entry_va filesz offset rounds it block : ℕ)
    → Memory sd.Disk
    → Option (Memory sd.Disk)
unfolding load_sectors
load_pages sd buffer entry_va filesz offset zero it block m = some m
load_pages sd buffer entry_va filesz offset (suc n) it block m = do
  (kva, m1) ← alloc_page_helper sd ((entry_va + it) % 2 ^ 64) unswapable m
  if ltb it filesz
      then load_pages sd buffer entry_va filesz offset n (it + 4096) ((block + 8) % 2 ^ 32)
          (load_sectors sd buffer kva block offset 8 0 (filesz - it) m1)
      else load_pages sd buffer entry_va filesz offset n (it + 4096) block (clear_pgdir kva m1)

-- `mem` is the memory that the caller sees. Without a task of this name the C code goes on with what
-- stands after the table: `none`.
unfoldable pub load_task_img :
    (sd : SdCard) (buffer : ℕ)
    → (ℕ → TaskInfo)
    → (mem : ℕ → ℕ) (taskname : ℕ) → Memory sd.Disk
    → Option (ℕ × Memory sd.Disk)
unfolding load_pages
load_task_img sd buffer tasks mem taskname m =
    let i = find_task tasks mem taskname in
    let t = tasks i in
    if i == task_maxnum then none else (do
      m1 ←
          load_pages sd buffer t.entry_addr (image_size t) t.begin_offset ((t.memsz + 4095) / 4096)
            0 t.begin_block m
      some (t.entry_addr, m1))
