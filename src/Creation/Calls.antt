-- ===== src/Creation/Calls.antt =====
-- The calls that make a process: do_exec and do_thread_create of kernel/sched/sched.c, and init_pcb of
-- init/main.c. A failed assertion is `none`. `mem` is the memory that the caller sees.
use oslab_riscv.Prelude.{
  ℕ, ◌+◌, ◌-◌, ◌*◌, Option, none, some, ◌>>=◌, [], update, ◌==◌, if◌then◌else◌, for_range,
}
use oslab_riscv.Prelude.Int.{ℤ, pos, minus_one}
use oslab_riscv.Kernel.{task_ready, task_available, Pcb, ready_queue, wait_list, Kernel}
use oslab_riscv.Kernel.Queue.{add_queue, init_queue}
use oslab_riscv.Kernel.Process.{num_max_task}
use oslab_riscv.Memory.{unswapable, SdCard, Memory, page_size, pa2kva, clear_pgdir}
use oslab_riscv.Memory.Pages.{alloc_pagetable}
use oslab_riscv.Memory.Tables.{share_pgtable, alloc_page_helper}
use oslab_riscv.Loader.{TaskInfo, load_task_img}
use oslab_riscv.Creation.{
  Mode, user, thread, Stacks, Link, System, pgdir_pa, user_stack_addr, max_pagetable_num, sub64,
  find_slot, regs_context_size, switchto_context_size, reg_at, put_word, push_frame, push_args,
}

-- The page list of a new process.
abbrev pub no_pages : {D : Type 0} → Memory D → Memory D
no_pages m = record m { upbound = max_pagetable_num; pagenum = 0; pagehead = [] }

-- Its page table, which starts as a copy of the kernel's.
unfoldable pub new_space : (sd : SdCard) → Memory sd.Disk → Option (Memory sd.Disk)
new_space sd m = do
  (i, m1) ← alloc_pagetable sd unswapable m
  let kva = (m1.page_manager i).kva
  some (share_pgtable kva (pa2kva pgdir_pa) (clear_pgdir kva (record m1 { pgdir = kva })))

-- Its kernel stack: the address of the top.
unfoldable pub new_stack : (sd : SdCard) → Memory sd.Disk → Option (ℕ × Memory sd.Disk)
new_stack sd m = do
  (i, m1) ← alloc_pagetable sd unswapable m
  some ((m1.page_manager i).kva + page_size, m1)

-- What the scheduler sees of it.
abbrev pub make_ready : (i : ℕ) (pid : ℤ) (mask pgdir : ℕ) → Kernel → Kernel
make_ready i pid mask pgdir k =
    let p : Pcb = record {
      pid = pid;
      status = task_ready;
      wakeup_time = 0;
      mask = mask;
      pgdir = pgdir;
    } in
    add_queue ready_queue i (init_queue (wait_list i) (record k { pcb = update k.pcb i p }))

abbrev pub set_words : {D : Type 0} → (ℕ → ℕ) → Memory D → Memory D
set_words w m = record m { words = w }

abbrev pub new_stacks : (kernel_sp user_sp kernel_base user_base childnum : ℕ) → Mode → Stacks
new_stacks kernel_sp user_sp kernel_base user_base childnum mode = record {
  kernel_sp = kernel_sp;
  user_sp = user_sp;
  kernel_stack_base = kernel_base;
  user_stack_base = user_base;
  childnum = childnum;
  cursor_x = 0;
  cursor_y = 0;
  mode = mode;
}

-- The address space of a new program: the top of its kernel stack, the page of its user stack, its
-- entry, and the memory.
pub record Image (D : Type 0) : Type 0 where
  pub base : ℕ
  pub page : ℕ
  pub entry : ℕ
  pub memory : Memory D

unfoldable pub new_image :
    (sd : SdCard)
    → Link
    → (ℕ → TaskInfo)
    → (mem : ℕ → ℕ) → (name : ℕ) → Memory sd.Disk
    → Option (Image sd.Disk)
unfolding new_space new_stack
new_image sd link tasks mem name m = do
  m1 ← new_space sd (no_pages m)
  (base, m2) ← new_stack sd m1
  (page, m3) ← alloc_page_helper sd (user_stack_addr - page_size) unswapable m2
  (entry, m4) ← load_task_img sd link.buffer tasks mem name m3
  some (record { base = base; page = page; entry = entry; memory = m4 })

-- The two contexts on the kernel stack, with the registers for the arguments but the stack pointer.
abbrev pub exec_frame : (link : Link) (i argc base entry : ℕ) → (ℕ → ℕ) → ℕ × (ℕ → ℕ)
exec_frame link i argc base entry words =
    let (kernel_sp, w) = push_frame base entry (link.pcb_at i) link.ret_from_exception words in
    let regs = sub64 base regs_context_size in
    let args = sub64 user_stack_addr ((argc + 1) * 8) in
    (kernel_sp, put_word (reg_at regs 11) args (put_word (reg_at regs 10) argc w))

-- The state with the new process in slot `i`.
abbrev pub started :
    {sd : SdCard}
    → (cpu i : ℕ) → Image sd.Disk
    → (kernel_sp user_sp : ℕ) → (ℕ → ℕ)
    → System sd
    → System sd
started cpu i im kernel_sp user_sp words s =
    let mask = (s.kernel.pcb (s.kernel.core_running cpu)).mask in
    record {
      kernel = make_ready i (pos s.process_id) mask im.memory.pgdir s.kernel;
      memory = set_words words im.memory;
      stacks = update s.stacks i (new_stacks kernel_sp user_sp im.base user_stack_addr 0 user);
      process_id = s.process_id + 1;
      tasks = s.tasks;
    }

unfoldable pub do_exec :
    (sd : SdCard)
    → Link
    → (fuel cpu : ℕ) → (mem : ℕ → ℕ) → (name argc : ℕ) → (argv : ℕ → ℕ) → System sd
    → Option (ℕ × System sd)
unfolding new_image
do_exec sd link fuel cpu mem name argc argv s =
    let i = find_slot s.kernel in
    if i == num_max_task then none else (do
      im ← new_image sd link s.tasks mem name s.memory
      let (kernel_sp, w) = exec_frame link i argc im.base im.entry im.memory.words
      (user_sp, w') ← push_args fuel user_stack_addr (im.page + page_size) argc argv mem w
      let sp_reg = reg_at (sub64 im.base regs_context_size) 2
      some (s.process_id, started cpu i im kernel_sp user_sp (put_word sp_reg user_sp w') s))

-- `new_pcb->childnum` keeps what the slot held. What it stores in `*thread` is the result.
unfoldable pub do_thread_create :
    (sd : SdCard) → Link → (cpu start_routine arg : ℕ) → System sd → Option (ℤ × System sd)
do_thread_create sd link cpu start_routine arg s =
    let k = s.kernel in
    let father = k.core_running cpu in
    let children = (s.stacks father).childnum + 1 in
    let counted = update s.stacks father (record (s.stacks father) { childnum = children }) in
    let i = find_slot k in
    let pgdir = (k.pcb father).pgdir in
    let top = user_stack_addr + children * page_size in
    if i == num_max_task then none else (do
      let m1 = share_pgtable pgdir pgdir (record (no_pages s.memory) { pgdir = pgdir })
      (base, m2) ← new_stack sd m1
      (page, m3) ← alloc_page_helper sd (top - page_size) unswapable m2
      let (kernel_sp, w1) =
          push_frame base start_routine (link.pcb_at i) link.ret_from_exception m3.words
      some (
        (k.pcb father).pid,
        record {
          kernel = make_ready i (k.pcb father).pid (k.pcb father).mask pgdir k;
          memory = set_words (put_word (reg_at (sub64 base regs_context_size) 10) arg w1) m3;
          stacks = update counted i (new_stacks kernel_sp top base top (counted i).childnum thread);
          process_id = s.process_id;
          tasks = s.tasks;
        },
      ))

-- `init_pcb_stack` of a process in user mode, which is the only one that calls it.
unfoldable pub init_pcb_stack : (top user_stack entry tp ret : ℕ) → (ℕ → ℕ) → ℕ × (ℕ → ℕ)
init_pcb_stack top user_stack entry tp ret words =
    let pt_regs = sub64 top regs_context_size in
    let pt_switchto = sub64 pt_regs switchto_context_size in
    let w1 = for_range 32 0 (λ i w. put_word (reg_at pt_regs i) 0 w) words in
    let w2 = put_word (reg_at pt_regs 2) user_stack (put_word (reg_at pt_regs 1) entry w1) in
    let w3 = put_word (reg_at pt_regs 33) entry (put_word (reg_at pt_regs 4) tp w2) in
    let w4 = put_word (reg_at pt_regs 32) 0x40020 w3 in
    (
      pt_switchto,
      put_word (reg_at pt_switchto 1) pt_switchto (put_word (reg_at pt_switchto 0) ret w4),
    )

-- `pcb[i].pid = -1; pcb[i].status = TASK_AVAILABLE`
abbrev pub make_available : ℕ → Kernel → Kernel
make_available i k = record k {
  pcb = update k.pcb i (record (k.pcb i) { pid = minus_one; status = task_available });
}

-- `init_pcb`: the shell in slot 0, the other slots available. `shell` is the name in the kernel's
-- memory `mem`.
unfoldable pub init_pcb :
    (sd : SdCard) → Link → (mem : ℕ → ℕ) → (shell : ℕ) → System sd → Option (System sd)
unfolding new_image init_pcb_stack
init_pcb sd link mem shell s = do
  im ← new_image sd link s.tasks mem shell s.memory
  let (kernel_sp, w) =
      init_pcb_stack im.base user_stack_addr im.entry (link.pcb_at 0) link.ret_from_exception
        im.memory.words
  let k1 = make_ready 0 (pos s.process_id) 3 im.memory.pgdir s.kernel
  some (record {
    kernel = for_range (num_max_task - 1) 1 make_available k1;
    memory = set_words w im.memory;
    stacks =
        update s.stacks 0 (new_stacks kernel_sp user_stack_addr im.base user_stack_addr 0 user);
    process_id = s.process_id + 1;
    tasks = s.tasks;
  })
