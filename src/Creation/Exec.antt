-- ===== src/Creation/Exec.antt =====
-- What do_exec of kernel/sched/sched.c makes.
use oslab_riscv.Prelude.{
  ℕ, ◌+◌, ◌-◌, ◌*◌, ◌%◌, ◌^◌, ◌≤◌, ◌<◌, ◌≡◌, ◌≢◌, refl, ◌⊎◌, inl, inr, Bool-cases, true, false,
  some, List, update, ◌==◌, if◌then◌else◌, find_from-below, find_from-holds, find_from-ge, ltb,
  arith,
}
use oslab_riscv.Prelude.Int.{pos}
use oslab_riscv.Kernel.{Kernel}
use oslab_riscv.Kernel.Process.{num_max_task}
use oslab_riscv.Memory.{SdCard}
use oslab_riscv.Creation.{
  user, Link, System, user_stack_addr, sub64, is_vacant, find_slot, regs_context_size, reg_at,
  put_word, push_frame,
}
use oslab_riscv.Creation.Calls.{Image, new_image, new_stacks, started, do_exec}
use oslab_riscv.Creation.Ready.{IsReady, make_ready-IsReady}
use oslab_riscv.Creation.Frame.{restore_context, switch_ra, switch_sp, IsFrame, push_frame-IsFrame}
use oslab_riscv.Creation.Passing.{sizes, AreArguments, IsStack, KeepsOutside}
use oslab_riscv.Creation.Passing.Whole.{HasArguments, HasArguments-put_word, push_args-HasArguments}

-- The stacks of the image are aligned pages apart from each other.
pub record HasPages {D : Type 0} (im : Image D) : Type 0 where
  pub base_aligned : im.base % 8 ≡ 0
  pub base_room : 4096 ≤ im.base
  pub base_range : im.base < 2 ^ 64
  pub page_aligned : im.page % 8 ≡ 0
  pub page_range : im.page + 4096 < 2 ^ 64
  pub apart : (im.base ≤ im.page) ⊎ (im.page + 8192 ≤ im.base)

-- What the program starts with: the entry, its arguments in `a0` and `a1`, and its stack pointer.
pub record Starts (link : Link) (i argc base entry user_sp kernel_sp : ℕ) (w : ℕ → ℕ) : Type 0 where
  pub ra : switch_ra w kernel_sp ≡ link.ret_from_exception
  pub sp : switch_sp w kernel_sp ≡ kernel_sp
  pub pc : (restore_context w kernel_sp user_sp).pc ≡ entry
  pub sstatus : (restore_context w kernel_sp user_sp).sstatus ≡ 0x20
  pub x :
      (r : ℕ)
      → r < 32
      → (restore_context w kernel_sp user_sp).x r ≡ (
          if r == 1
          then entry
          else if r == 2
          then user_sp
          else if r == 4
          then link.pcb_at i
          else if r == 10
          then argc
          else if r == 11
          then user_stack_addr - 8 * (argc + 1)
          else 0)

exec_frame-Starts :
    (link : Link) (i argc base page entry sp kernel_sp args : ℕ) (w0 w1 w3 : ℕ → ℕ)
    → IsFrame base entry (link.pcb_at i) link.ret_from_exception kernel_sp w0 w1
    → args ≡ user_stack_addr - 8 * (argc + 1)
    → 4096 ≤ base
    → (base ≤ page) ⊎ (page + 8192 ≤ base)
    → KeepsOutside
        (page + 4096)
        (put_word (reg_at (base - 288) 11) args (put_word (reg_at (base - 288) 10) argc w1))
        w3
    → Starts link i argc base entry sp kernel_sp (put_word (reg_at (base - 288) 2) sp w3)
exec_frame-Starts link i argc base page entry sp kernel_sp args w0 w1 w3 f e b o k =
    let same : (q : ℕ)
        → base - 400 ≤ q
        → q + 8 ≤ base
        → w3 q
          ≡ put_word (reg_at (base - 288) 11) args (put_word (reg_at (base - 288) 10) argc w1) q =
      λ q x y. k.word q (ground (arith, o, x, y, b)) in
    record {
      ra = ground (
        arith,
        f.ra,
        f.place,
        b,
        same (reg_at kernel_sp 0) (omega (arith, f.place)) (omega (arith, f.place, b)),
      );
      sp = ground (
        arith,
        f.sp,
        f.place,
        b,
        same (reg_at kernel_sp 1) (omega (arith, f.place)) (omega (arith, f.place, b)),
      );
      pc = ground (
        arith,
        f.pc sp,
        f.place,
        b,
        same (reg_at (kernel_sp + 112) 33) (omega (arith, f.place)) (omega (arith, f.place, b)),
      );
      sstatus = ground (
        arith,
        f.sstatus sp,
        f.place,
        b,
        same (reg_at (kernel_sp + 112) 32) (omega (arith, f.place)) (omega (arith, f.place, b)),
      );
      x = λ r l. ground (
        arith,
        e,
        f.x sp r l,
        f.place,
        b,
        l,
        same (reg_at (kernel_sp + 112) r) (omega (arith, f.place)) (omega (arith, f.place, b, l)),
      );
    }

update_self : {A : Type 0} (f : ℕ → A) (i : ℕ) (v : A) → update f i v i ≡ v
update_self f i v = ground arith

find_slot-vacant :
    (k : Kernel) (j : ℕ)
    → 1 ≤ j
    → j < num_max_task
    → is_vacant k j ≡ true
    → (1 ≤ find_slot k) × (find_slot k < num_max_task) × (is_vacant k (find_slot k) ≡ true)
find_slot-vacant k j a b v = elim (Bool-cases (ltb (find_slot k) num_max_task)) [
  | inl t ↦ (
    find_from-ge 15 1 (is_vacant k),
    ground (arith, t),
    find_from-holds 15 1 (is_vacant k) (ground (arith, t)),
  )
  | inr f ↦
      absurd (ground (arith, find_from-below 15 1 (is_vacant k) j a (ground (arith, f, b)), v))
]

-- The state after a call: the process in slot `i` is ready, with the number that was next, and starts
-- with its arguments.
pub record IsExecuted {sd : SdCard} (link : Link) (cpu argc : ℕ) (texts : ℕ → List ℕ)
    (im : Image sd.Disk) (i : ℕ) (s s' : System sd) : Type 0 where
  pub range : (1 ≤ i) × (i < num_max_task)
  pub vacant : is_vacant s.kernel i ≡ true
  pub kernel :
      IsReady i
        (pos s.process_id)
        (s.kernel.pcb (s.kernel.core_running cpu)).mask
        im.memory.pgdir
        s.kernel
        s'.kernel
  pub next : s'.process_id ≡ s.process_id + 1
  pub others : (h : ℕ) → h ≢ i → s'.stacks h ≡ s.stacks h
  pub starts :
      let st = s'.stacks i in
      Starts link i argc im.base im.entry st.user_sp st.kernel_sp s'.memory.words
  pub arguments :
      HasArguments
        (im.page + 4096)
        user_stack_addr
        argc
        texts
        (8 * (argc + 1) + sizes texts argc 0)
        (s'.stacks i).user_sp
        s'.memory.words

-- With a free slot, an image whose stacks are aligned pages apart from each other, and arguments that
-- fit in a page, the call returns the next process number: the first free slot from 1 on holds a process
-- that is marked as ready, has that number, the caller's mask and the new page table, and is the last
-- of the ready queue, with nothing else of the kernel's state changed but the slot's list of waiters,
-- which is empty; the process,
-- when it is switched to and its context restored, starts at the image's entry in user mode with
-- the number of its arguments and their table, which are on its stack.
pub do_exec-IsExecuted :
    (sd : SdCard) (link : Link) (fuel cpu : ℕ) (mem : ℕ → ℕ) (name argc : ℕ) (argv : ℕ → ℕ)
    (texts : ℕ → List ℕ) (s : System sd) (im : Image sd.Disk) (j : ℕ)
    → 1 ≤ j
    → j < num_max_task
    → is_vacant s.kernel j ≡ true
    → new_image sd link s.tasks mem name s.memory ≡ some im
    → HasPages im
    → AreArguments fuel argc argv mem texts
    → 8 * (argc + 1) + sizes texts argc 0 + 128 ≤ 4096
    → (s' : System sd) × (do_exec sd link fuel cpu mem name argc argv s ≡ some (s.process_id, s'))
      × IsExecuted link cpu argc texts im (find_slot s.kernel) s s'
unfolding do_exec
do_exec-IsExecuted sd link fuel cpu mem name argc argv texts s im j a b v n p ar m =
    let k = s.kernel in
    let i = find_slot k in
    let (low, high, vac) = find_slot-vacant k j a b v in
    let here : (i == num_max_task) ≡ false = ground (arith, high) in
    let frame =
      push_frame im.base im.entry (link.pcb_at i) link.ret_from_exception im.memory.words in
    let f =
      push_frame-IsFrame im.base im.entry (link.pcb_at i) link.ret_from_exception im.memory.words
        (omega (arith, p.base_room)) p.base_range in
    let args = sub64 user_stack_addr ((argc + 1) * 8) in
    let regs : sub64 im.base regs_context_size ≡ im.base - 288 =
      omega (arith, p.base_room, p.base_range) in
    let w2 =
      put_word (reg_at (im.base - 288) 11) args
        (put_word (reg_at (im.base - 288) 10) argc frame.1) in
    let stack : IsStack (im.page + 4096) user_stack_addr = record {
      top_aligned = omega (arith, p.page_aligned);
      top_range = p.page_range;
      top_room = omega arith;
      user_range = omega arith;
      user_room = omega arith;
    } in
    let (sp, w3, run, has, keeps) =
      push_args-HasArguments (im.page + 4096) user_stack_addr argc texts fuel argv mem w2 stack ar
        m in
    let st = new_stacks frame.0 sp im.base user_stack_addr 0 user in
    let own : update s.stacks i st i ≡ st = update_self s.stacks i st in
    (
      started cpu i im frame.0 sp (put_word (reg_at (im.base - 288) 2) sp w3) s,
      rw (here, do_exec) (rw (n, regs) (rw run (rw regs refl))),
      record {
        range = (low, high);
        vacant = vac;
        kernel =
            make_ready-IsReady i (pos s.process_id) (k.pcb (k.core_running cpu)).mask
              im.memory.pgdir k;
        next = refl;
        others = λ h ne. ground arith;
        starts =
            let table : args ≡ user_stack_addr - 8 * (argc + 1) = omega (arith, m) in
            let go =
              exec_frame-Starts link i argc im.base im.page im.entry sp frame.0 args im.memory.words
                frame.1 w3 f table p.base_room p.apart keeps in
            rw own go;
        arguments =
            let go =
              HasArguments-put_word (im.page + 4096) user_stack_addr argc texts
                (8 * (argc + 1) + sizes texts argc 0) sp (reg_at (im.base - 288) 2) sp w3 stack
                (omega (arith, m)) (omega arith) (omega (arith, p.base_aligned, p.base_room))
                (ground (arith, p.apart, p.base_room)) has in
            rw own go;
      },
    )
