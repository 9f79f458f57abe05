-- ===== src/Creation/Ready.antt =====
-- What the scheduler sees of a process that do_exec of kernel/sched/sched.c has made.
use oslab_riscv.Prelude.{ℕ, ◌≡◌, ◌≢◌, refl, inl, inr, [], ◌∷◌, ◌++◌, count, count-append, arith}
use oslab_riscv.Prelude.Int.{ℤ}
use oslab_riscv.Kernel.{task_ready, QueueId, ready_queue, wait_list, eq_queue_iff, Kernel}
use oslab_riscv.Kernel.Sched.Held.{IsHeld}
use oslab_riscv.Creation.Calls.{make_ready}

-- Process `i` is new, ready and the last of the ready queue, nobody waits for it, and nothing else of
-- the kernel's state has changed.
pub record IsReady (i : ℕ) (number : ℤ) (cores root : ℕ) (k k' : Kernel) : Type 0 where
  pub pid : (k'.pcb i).pid ≡ number
  pub status : (k'.pcb i).status ≡ task_ready
  pub wakeup_time : (k'.pcb i).wakeup_time ≡ 0
  pub mask : (k'.pcb i).mask ≡ cores
  pub pgdir : (k'.pcb i).pgdir ≡ root
  pub others : (h : ℕ) → h ≢ i → k'.pcb h ≡ k.pcb h
  pub ready : k'.queue ready_queue ≡ k.queue ready_queue ++ (i ∷ [])
  pub waiters : k'.queue (wait_list i) ≡ []
  pub queues : (q : QueueId) → q ≢ ready_queue → q ≢ wait_list i → k'.queue q ≡ k.queue q
  pub core : k'.core_running ≡ k.core_running
  pub satp : k'.satp ≡ k.satp
  pub mlocks : k'.mlocks ≡ k.mlocks
  pub barriers : k'.barriers ≡ k.barriers
  pub conditions : k'.conditions ≡ k.conditions
  pub mboxs : k'.mboxs ≡ k.mboxs

pub make_ready-IsReady :
    (i : ℕ) (pid : ℤ) (mask pgdir : ℕ) (k : Kernel)
    → IsReady i pid mask pgdir k (make_ready i pid mask pgdir k)
make_ready-IsReady i pid mask pgdir k = record {
  pid = ground arith;
  status = ground arith;
  wakeup_time = ground arith;
  mask = ground arith;
  pgdir = ground arith;
  others = λ h ne. ground arith;
  ready = ground arith;
  waiters = ground arith;
  queues = λ q a b. ground (arith, eq_queue_iff ready_queue q, eq_queue_iff (wait_list i) q, a, b);
  core = refl;
  satp = refl;
  mlocks = refl;
  barriers = refl;
  conditions = refl;
  mboxs = refl;
}

-- It loses nobody but those who wait in the queue that it empties.
pub make_ready-IsHeld :
    (i : ℕ) (pid : ℤ) (mask pgdir : ℕ) (k : Kernel) (g : ℕ)
    → count g (k.queue (wait_list i)) ≡ 0
    → IsHeld g k
    → IsHeld g (make_ready i pid mask pgdir k)
make_ready-IsHeld i pid mask pgdir k g z (inr o) = inr o
make_ready-IsHeld i pid mask pgdir k g z (inl (q, n)) =
    inl (q, ground (arith, eq_queue_iff (wait_list i) q, count-append g (k.queue q) (i ∷ []), n, z))
