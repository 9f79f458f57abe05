-- ===== src/Creation.antt =====
-- How processes are made: do_exec, do_taskset_exec and do_thread_create of kernel/sched/sched.c, and
-- init_pcb and init_pcb_stack of init/main.c. Addresses that the linker chooses are in `Link`.
pub mod Frame
pub mod Arguments
pub mod Passing
pub mod Calls
pub mod Exec
pub mod Placed
pub mod Ready
pub mod Tests
use oslab_riscv.Prelude.{
  ℕ, zero, suc, ◌+◌, ◌-◌, ◌*◌, ◌/◌, ◌%◌, ◌^◌, Bool, ◌||◌, Option, none, some, ◌>>=◌, update, ◌==◌,
  if◌then◌else◌, find_from, for_range, [], ◌≡◌, arith,
}
use oslab_riscv.Prelude.Int.{ℤ, pos, minus_one}
use oslab_riscv.Strings.{strlen}
use oslab_riscv.Kernel.{
  Status, task_ready, task_exited, task_available, eq_status, Pcb, QueueId, ready_queue, wait_list,
  Kernel,
}
use oslab_riscv.Kernel.Queue.{set_status, add_queue, init_queue}
use oslab_riscv.Kernel.Process.{num_max_task}
use oslab_riscv.Memory.{unswapable, SdCard, Memory, page_size, pa2kva, clear_pgdir, store_word}
use oslab_riscv.Memory.Bytes.{store_byte, fill_mem}
use oslab_riscv.Memory.Pages.{alloc_page, alloc_pagetable}
use oslab_riscv.Memory.Tables.{share_pgtable, alloc_page_helper}
use oslab_riscv.Loader.{TaskInfo, load_task_img}

-- `task_mode_t`
pub data Mode : Type 0 where
  user supervisor thread : Mode

-- The fields of `pcb_t` that only the creation of a process sets.
pub record Stacks : Type 0 where
  pub kernel_sp : ℕ
  pub user_sp : ℕ
  pub kernel_stack_base : ℕ
  pub user_stack_base : ℕ
  pub childnum : ℕ
  pub cursor_x : ℕ
  pub cursor_y : ℕ
  pub mode : Mode

-- `&pcb[i]`, the function `ret_from_exception` and the loader's buffer.
pub record Link : Type 0 where
  pub pcb_at : ℕ → ℕ
  pub ret_from_exception : ℕ
  pub buffer : ℕ

-- The fields of `memory` that belong to a process are those of the process that is made.
pub record System (sd : SdCard) : Type 0 where
  pub kernel : Kernel
  pub memory : Memory sd.Disk
  pub stacks : ℕ → Stacks
  pub process_id : ℕ
  pub tasks : ℕ → TaskInfo

-- `PGDIR_PA`, `USER_STACK_ADDR` and `MAX_PAGETABLE_NUM`
abbrev pub pgdir_pa : ℕ
pgdir_pa = 0x51000000

abbrev pub user_stack_addr : ℕ
user_stack_addr = 0xf00010000

abbrev pub max_pagetable_num : ℕ
max_pagetable_num = 24

-- `a - b` on 64-bit words
abbrev pub sub64 : ℕ → ℕ → ℕ
sub64 a b = (a + (2 ^ 64 - b)) % 2 ^ 64

-- The search for a slot; slot 0 is the shell's.
abbrev pub is_vacant : Kernel → ℕ → Bool
is_vacant k i = eq_status (k.pcb i).status task_exited || eq_status (k.pcb i).status task_available

abbrev pub find_slot : Kernel → ℕ
find_slot k = find_from (num_max_task - 1) 1 (is_vacant k)

-- `regs[i]` of a register context: `sstatus` and `sepc` follow the 32 registers.
abbrev pub regs_context_size : ℕ
regs_context_size = 288

abbrev pub switchto_context_size : ℕ
switchto_context_size = 112

abbrev pub reg_at : ℕ → ℕ → ℕ
reg_at base i = base + 8 * i

abbrev pub put_word : ℕ → ℕ → (ℕ → ℕ) → ℕ → ℕ
put_word p v words = update words p v

-- The two contexts below `top` of a process that starts at `entry` in user mode, its control block at
-- `tp`: the address of the second, and the memory.
unfoldable pub push_frame : (top entry tp ret : ℕ) → (ℕ → ℕ) → ℕ × (ℕ → ℕ)
push_frame top entry tp ret words =
    let pt_regs = sub64 top regs_context_size in
    let pt_switchto = sub64 pt_regs switchto_context_size in
    let w1 = for_range 32 0 (λ i w. put_word (reg_at pt_regs i) 0 w) words in
    let w2 = put_word (reg_at pt_regs 4) tp (put_word (reg_at pt_regs 1) entry w1) in
    let w3 = put_word (reg_at pt_regs 32) 0x20 (put_word (reg_at pt_regs 33) entry w2) in
    (
      pt_switchto,
      put_word (reg_at pt_switchto 1) pt_switchto (put_word (reg_at pt_switchto 0) ret w3),
    )

-- `strncpy` from the caller's memory.
unfoldable pub strncpy_from : (dest src n : ℕ) → (mem : ℕ → ℕ) → (ℕ → ℕ) → ℕ → ℕ
strncpy_from dest src zero mem words = words
strncpy_from dest src (suc n) mem words =
    let rest = strncpy_from (dest + 1) (src + 1) n mem (store_byte dest (mem src) words) in
    if mem src == 0 then fill_mem dest 0 (suc n) words else rest

-- `va_argc_addr`, `kva_argc_addr`, `kva_argv_base` and the memory.
pub record Copying : Type 0 where
  pub va_addr : ℕ
  pub kva_addr : ℕ
  pub kva_base : ℕ
  pub words : ℕ → ℕ

unfoldable pub copy_arg : (len src : ℕ) → (mem : ℕ → ℕ) → Copying → Copying
unfolding strncpy_from
copy_arg len src mem s =
    let va = sub64 s.va_addr len in
    let kva = sub64 s.kva_addr len in
    let w = strncpy_from kva src len mem s.words in
    record {
      va_addr = va;
      kva_addr = kva;
      kva_base = s.kva_base + 8;
      words = put_word s.kva_base va w;
    }

-- The loop over the arguments; `fuel` bounds the length of each.
unfoldable pub copy_args :
    (fuel : ℕ) → (argv mem : ℕ → ℕ) → (rounds i : ℕ) → Copying → Option Copying
unfolding copy_arg
copy_args fuel argv mem zero i s = some s
copy_args fuel argv mem (suc n) i s = do
  len ← strlen fuel (argv i) mem
  copy_args fuel argv mem n (i + 1) (copy_arg (len + 1) (argv i) mem s)

-- The arguments below the top of the stack, which is `user_sp` to the process and `top` to the kernel:
-- the new stack pointer and the memory.
unfoldable pub push_args :
    (fuel user_sp top argc : ℕ) → (argv mem : ℕ → ℕ) → (ℕ → ℕ) → Option (ℕ × (ℕ → ℕ))
unfolding copy_args
push_args fuel user_sp top argc argv mem words = do
  let va = sub64 user_sp ((argc + 1) * 8)
  let kva = sub64 top ((argc + 1) * 8)
  s ←
      copy_args fuel argv mem argc 0
        (record { va_addr = va; kva_addr = kva; kva_base = kva; words = words })
  some (s.va_addr / 128 * 128, put_word s.kva_base 0 s.words)
