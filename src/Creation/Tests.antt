-- ===== src/Creation/Tests.antt =====
-- The theorems about do_exec when process 1 starts the task "t" with the arguments "t" and "xy".
use oslab_riscv.Prelude.{
  ℕ, ◌+◌, ◌*◌, ◌≤◌, ◌<◌, ◌≡◌, ◌≢◌, inl, inr, refl, Option, none, some, List, [], ◌∷◌, ◌++◌, count,
  Bool-cases, find_from, for_range, update, ◌==◌, if◌then◌else◌, arith,
}
use oslab_riscv.Kernel.{task_ready, task_exited, ready_queue, wait_list, Kernel}
use oslab_riscv.Kernel.Sched.Held.{IsHeld}
use oslab_riscv.Kernel.Queue.Linked.{IsFree}
use oslab_riscv.Kernel.Sched.Placed.{IsPlaced}
use oslab_riscv.Kernel.Tests.{system, system-IsPlaced}
use oslab_riscv.Strings.{strcmp}
use oslab_riscv.Memory.{kva_offset, clear_pgdir}
use oslab_riscv.Memory.Bytes.{store_byte, copy_mem, fill_mem, put_bytes}
use oslab_riscv.Memory.Pages.{alloc_page, alloc_pagetable, find_unused}
use oslab_riscv.Memory.Tables.{share_pgtable, alloc_page_helper}
use oslab_riscv.Loader.{load_task_img}
use oslab_riscv.Loader.Tests.{card, memory, buffer, tasks}
use oslab_riscv.Creation.{user, Stacks, Link, System, find_slot, push_args, user_stack_addr}
use oslab_riscv.Creation.Calls.{Image, new_image, do_exec}
use oslab_riscv.Creation.Passing.{sizes, AreArguments, KeepsOutside}
use oslab_riscv.Creation.Passing.Whole.{HasArguments, push_args-HasArguments}
use oslab_riscv.Creation.Exec.{HasPages, IsExecuted, do_exec-IsExecuted}
use oslab_riscv.Creation.Placed.{do_exec-IsPlaced}

-- Process 9 has exited.
abbrev kernel : Kernel
kernel = record system {
  pcb = update system.pcb 9 (record (system.pcb 9) { status = task_exited });
}

abbrev stacks : ℕ → Stacks
stacks i = record {
  kernel_sp = 0;
  user_sp = 0;
  kernel_stack_base = 0;
  user_stack_base = 0;
  childnum = 0;
  cursor_x = 0;
  cursor_y = 0;
  mode = user;
}

abbrev link : Link
link = record {
  pcb_at = λ i. kva_offset + 0x50500000 + 256 * i;
  ret_from_exception = kva_offset + 0x50201000;
  buffer = buffer;
}

abbrev state : System card
state = record { kernel = kernel; memory = memory; stacks = stacks; process_id = 10; tasks = tasks }

-- The caller's memory: "t", "t" and "xy".
abbrev mem : ℕ → ℕ
mem p =
    if p == 0
    then 116
    else if p == 8
    then 116
    else if p == 16
    then 120
    else if p == 17
    then 121
    else 0

abbrev argv : ℕ → ℕ
argv i = 8 + 8 * i

abbrev texts : ℕ → List ℕ
texts i = if i == 0 then 116 ∷ [] else 120 ∷ 121 ∷ []

arguments : AreArguments 9 2 argv mem texts
arguments = record {
  bytes = λ p. ground arith;
  text = λ i l. elim (Bool-cases (i == 0)) [
    | inl t ↦ rw t (ground (arith, t), (λ e. absurd (omega (arith, e))), ground (arith, t))
    | inr f ↦ rw f (
      ground (arith, f, l),
      (λ e. absurd (omega (arith, e))),
      (ground (arith, f, l), (λ e. absurd (omega (arith, e))), ground (arith, f, l)),
    )
  ];
  short = λ i l. ground arith;
}

abbrev made : Option (Image (ℕ → ℕ))
made = new_image card link tasks mem 0 memory

abbrev image : Image (ℕ → ℕ)
image = elim made [
  | none ↦ record { base = 0; page = 0; entry = 0; memory = memory }
  | some im ↦ im
]

makes : new_image card link tasks mem 0 memory ≡ some image
unfolding new_image alloc_pagetable find_unused alloc_page share_pgtable for_range clear_pgdir
    alloc_page_helper load_task_img find_from strcmp fill_mem store_byte copy_mem put_bytes
makes = refl

image_base : image.base ≡ kva_offset + 0x52002000
unfolding new_image alloc_pagetable find_unused alloc_page share_pgtable for_range clear_pgdir
    alloc_page_helper load_task_img find_from strcmp fill_mem store_byte copy_mem put_bytes
image_base = refl

image_page : image.page ≡ kva_offset + 0x52004000
unfolding new_image alloc_pagetable find_unused alloc_page share_pgtable for_range clear_pgdir
    alloc_page_helper load_task_img find_from strcmp fill_mem store_byte copy_mem put_bytes
image_page = refl

image-HasPages : HasPages image
image-HasPages = record {
  base_aligned = omega (arith, image_base);
  base_room = omega (arith, image_base);
  base_range = omega (arith, image_base);
  page_aligned = omega (arith, image_page);
  page_range = omega (arith, image_page);
  apart = inl (omega (arith, image_base, image_page));
}

room : 24 + sizes texts 2 0 + 128 ≤ 4096
unfolding sizes
room = omega arith

do_exec-IsExecuted_example :
    (s' : System card) × (do_exec card link 9 0 mem 0 2 argv state ≡ some (10, s'))
    × IsExecuted link 0 2 texts image (find_slot kernel) state s'
do_exec-IsExecuted_example =
    do_exec-IsExecuted card link 9 0 mem 0 2 argv texts state image 9 (omega arith) (omega arith)
      refl makes image-HasPages arguments room

slot : find_slot kernel ≡ 9
unfolding find_from
slot = refl

kernel-IsPlaced : IsPlaced kernel
kernel-IsPlaced = record {
  quiet = record {
    linked = system-IsPlaced.quiet.linked;
    idle_free = system-IsPlaced.quiet.idle_free;
    idle_pid = λ c. ground (arith, system-IsPlaced.quiet.idle_pid c);
    cores = system-IsPlaced.quiet.cores;
    foreign = system-IsPlaced.quiet.foreign;
  };
  out = system-IsPlaced.out;
}

free : IsFree (find_slot kernel) kernel.queue
free = rw slot (λ q. ground arith)

not_run : (c : ℕ) → c < 2 → kernel.core_running c ≢ find_slot kernel
not_run c l = rw slot (λ e. absurd (ground (arith, e)))

do_exec-IsPlaced_example :
    (s' : System card) × (do_exec card link 9 0 mem 0 2 argv state ≡ some (10, s'))
    × IsPlaced s'.kernel
    × ((s'.kernel.pcb (find_slot kernel)).status ≡ task_ready)
    × (s'.kernel.queue ready_queue ≡ kernel.queue ready_queue ++ (find_slot kernel ∷ []))
    × ((g : ℕ)
        → count g (kernel.queue (wait_list (find_slot kernel))) ≡ 0
        → IsHeld g kernel
        → IsHeld g s'.kernel)
do_exec-IsPlaced_example =
    let (s', run, done) =
      do_exec-IsExecuted card link 9 0 mem 0 2 argv texts state image 9 (omega arith) (omega arith)
        refl makes image-HasPages arguments room in
    let (placed, ready, last, held) =
      do_exec-IsPlaced card link 9 0 mem 0 2 argv state s' 10 run free not_run kernel-IsPlaced in
    (s', run, placed, ready, last, held)

push_args-HasArguments_example :
    (sp : ℕ) × (w : ℕ → ℕ) × (push_args 9 user_stack_addr 0xffffffc052005000 2 argv mem (λ p. 0)
      ≡ some (sp, w))
    × HasArguments 0xffffffc052005000 user_stack_addr 2 texts (24 + 5) sp w
    × KeepsOutside 0xffffffc052005000 (λ p. 0) w
unfolding sizes
push_args-HasArguments_example =
    push_args-HasArguments 0xffffffc052005000 user_stack_addr 2 texts 9 argv mem (λ p. 0)
      (record {
        top_aligned = refl;
        top_range = omega arith;
        top_room = omega arith;
        user_range = omega arith;
        user_room = omega arith;
      })
      arguments (omega arith)
