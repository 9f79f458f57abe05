-- ===== src/Creation/Placed.antt =====
-- do_exec of kernel/sched/sched.c among the other processes.
use oslab_riscv.Prelude.{
  ℕ, ◌+◌, ◌≤◌, ◌<◌, ◌≡◌, ◌≢◌, refl, sym, ap, inl, inr, Bool-cases, Option-cases, false, Option,
  none, some, [], ◌∷◌, ◌++◌, count, ◌==◌, find_from-le, find_from-ge, find_from-holds, subst, arith,
}
use oslab_riscv.Prelude.Int.{ℤ, pos}
use oslab_riscv.Kernel.{task_ready, QueueId, ready_queue, wait_list, Kernel}
use oslab_riscv.Kernel.Queue.{init_queue}
use oslab_riscv.Kernel.Queue.Linked.{IsFree, IsLinked, IsLinked-add_queue, IsFree-add_queue}
use oslab_riscv.Kernel.Sched.{idle}
use oslab_riscv.Kernel.Sched.Placed.{IsPlaced}
use oslab_riscv.Kernel.Sched.Held.{IsHeld}
use oslab_riscv.Creation.Ready.{make_ready-IsReady, make_ready-IsHeld}
use oslab_riscv.Kernel.Process.{num_max_task}
use oslab_riscv.Memory.{SdCard, page_size}
use oslab_riscv.Creation.{Link, System, user_stack_addr, is_vacant, find_slot, push_args}
use oslab_riscv.Creation.Calls.{new_image, exec_frame, make_ready, do_exec}

init_queue-le :
    (q r : QueueId) (h : ℕ) (k : Kernel) → count h ((init_queue q k).queue r) ≤ count h (k.queue r)
init_queue-le q r h k = ground arith

IsLinked-init_queue :
    (q : QueueId) (k : Kernel) → IsLinked k.queue → IsLinked (init_queue q k).queue
IsLinked-init_queue q k v = record {
  once = λ h r. omega (arith, init_queue-le q r h k, v.once h r);
  apart = λ h r t a b.
      v.apart h r t (omega (arith, a, init_queue-le q r h k))
        (omega (arith, b, init_queue-le q t h k));
}

IsFree-init_queue :
    (q : QueueId) (h : ℕ) (k : Kernel) → IsFree h k.queue → IsFree h (init_queue q k).queue
IsFree-init_queue q h k f r = omega (arith, init_queue-le q r h k, f r)

-- A slot that is in no queue and that no core runs may become a ready process.
pub make_ready-IsPlaced :
    (i : ℕ) (pid : ℤ) (mask pgdir : ℕ) (k : Kernel)
    → i < num_max_task
    → IsFree i k.queue
    → ((c : ℕ) → c < 2 → k.core_running c ≢ i)
    → IsPlaced k
    → IsPlaced (make_ready i pid mask pgdir k)
make_ready-IsPlaced i pid mask pgdir k l f n v =
    let k1 = init_queue (wait_list i) k in
    let apart : (c : ℕ) → i ≢ idle c = λ c e. absurd (ground (arith, l, e)) in
    record {
      quiet = record {
        linked =
            IsLinked-add_queue ready_queue i k1 (IsFree-init_queue (wait_list i) i k f)
              (IsLinked-init_queue (wait_list i) k v.quiet.linked);
        idle_free = λ c.
            IsFree-add_queue ready_queue i (idle c) k1 (apart c)
              (IsFree-init_queue (wait_list i) (idle c) k (v.quiet.idle_free c));
        idle_pid = λ c. ground (arith, l, v.quiet.idle_pid c);
        cores = v.quiet.cores;
        foreign = v.quiet.foreign;
      };
      out = λ c b.
          IsFree-add_queue ready_queue i (k.core_running c) k1 (λ e. n c b (ground (arith, e)))
            (IsFree-init_queue (wait_list i) (k.core_running c) k (v.out c b));
    }

abbrev kernel_of : {sd : SdCard} → Kernel → Option (ℕ × System sd) → Kernel
kernel_of k none = k
kernel_of k (some (pid, s)) = s.kernel

-- Whenever the call returns, the kernel's queues and cores are those with the slot made ready.
do_exec-makes :
    (sd : SdCard) (link : Link) (fuel cpu : ℕ) (mem : ℕ → ℕ) (name argc : ℕ) (argv : ℕ → ℕ)
    (s s' : System sd) (pid : ℕ)
    → do_exec sd link fuel cpu mem name argc argv s ≡ some (pid, s')
    → (find_slot s.kernel < num_max_task)
      × (pgdir : ℕ) × (s'.kernel
          ≡ make_ready
              (find_slot s.kernel)
              (pos s.process_id)
              (s.kernel.pcb (s.kernel.core_running cpu)).mask
              pgdir
              s.kernel)
unfolding do_exec
do_exec-makes sd link fuel cpu mem name argc argv s s' pid e =
    let i = find_slot s.kernel in
    elim (Bool-cases (i == num_max_task)) [
      | inl t ↦ absurd (cc (rw (t, do_exec) at e))
      | inr f ↦ elim (Option-cases (new_image sd link s.tasks mem name s.memory)) [
        | inl x ↦ absurd (cc (rw x at (rw (f, do_exec) at e)))
        | inr (im, x) ↦
            let w = (exec_frame link i argc im.base im.entry im.memory.words).1 in
            elim (Option-cases
              (push_args fuel user_stack_addr (im.page + page_size) argc argv mem w)) [
                | inl y ↦ absurd (cc (rw y at (rw x at (rw (f, do_exec) at e))))
                | inr ((sp, w'), y) ↦
                    let e' = rw y at (rw x at (rw (f, do_exec) at e)) in
                    (
                      ground (arith, f, find_from-le 15 1 (is_vacant s.kernel)),
                      im.memory.pgdir,
                      sym (ap (kernel_of s.kernel) e'),
                    )
              ]
      ]
    ]

-- A call that returns, where the slot that it takes is in no queue and no core runs the process in it,
-- leaves the new process ready as the last of the ready queue, no process in two places, and loses
-- none: each that was linked in a queue or ran on a core, and did not wait for the slot's last process,
-- is linked in a queue or runs on a core.
pub do_exec-IsPlaced :
    (sd : SdCard) (link : Link) (fuel cpu : ℕ) (mem : ℕ → ℕ) (name argc : ℕ) (argv : ℕ → ℕ)
    (s s' : System sd) (pid : ℕ)
    → let i = find_slot s.kernel in
      do_exec sd link fuel cpu mem name argc argv s ≡ some (pid, s')
      → IsFree i s.kernel.queue
      → ((c : ℕ) → c < 2 → s.kernel.core_running c ≢ i)
      → IsPlaced s.kernel
      → IsPlaced s'.kernel
        × ((s'.kernel.pcb i).status ≡ task_ready)
        × (s'.kernel.queue ready_queue ≡ s.kernel.queue ready_queue ++ (i ∷ []))
        × ((g : ℕ)
            → count g (s.kernel.queue (wait_list i)) ≡ 0
            → IsHeld g s.kernel
            → IsHeld g s'.kernel)
do_exec-IsPlaced sd link fuel cpu mem name argc argv s s' pid e f n v =
    let i = find_slot s.kernel in
    let mask = (s.kernel.pcb (s.kernel.core_running cpu)).mask in
    let (l, pgdir, k) = do_exec-makes sd link fuel cpu mem name argc argv s s' pid e in
    let r = make_ready-IsReady i (pos s.process_id) mask pgdir s.kernel in
    (
      subst IsPlaced (sym k) (make_ready-IsPlaced i (pos s.process_id) mask pgdir s.kernel l f n v),
      subst (λ (x : Kernel). (x.pcb i).status ≡ task_ready) (sym k) r.status,
      subst (λ (x : Kernel). x.queue ready_queue ≡ s.kernel.queue ready_queue ++ (i ∷ [])) (sym k)
          r.ready,
      λ g z h.
          subst (IsHeld g) (sym k)
            (make_ready-IsHeld i (pos s.process_id) mask pgdir s.kernel g z h),
    )

-- Without a free slot from 1 on the call fails its assertion.
pub do_exec-full :
    (sd : SdCard) (link : Link) (fuel cpu : ℕ) (mem : ℕ → ℕ) (name argc : ℕ) (argv : ℕ → ℕ)
    (s : System sd)
    → ((j : ℕ) → 1 ≤ j → j < num_max_task → is_vacant s.kernel j ≡ false)
    → do_exec sd link fuel cpu mem name argc argv s ≡ none
unfolding do_exec
do_exec-full sd link fuel cpu mem name argc argv s h =
    elim (Bool-cases (find_slot s.kernel == num_max_task)) [
      | inl t ↦ rw (t, do_exec) refl
      | inr f ↦
          let l : find_slot s.kernel < num_max_task =
            ground (arith, f, find_from-le 15 1 (is_vacant s.kernel)) in
          let holds = find_from-holds 15 1 (is_vacant s.kernel) l in
          absurd (cc (holds, h (find_slot s.kernel) (find_from-ge 15 1 (is_vacant s.kernel)) l))
    ]
