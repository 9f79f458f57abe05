-- ===== src/Kernel/Sched/Calls.antt =====
-- do_block, do_unblock and do_sleep of kernel/sched/sched.c put no process in two places.
use oslab_riscv.Prelude.{
  ℕ, ◌+◌, ◌≤◌, ◌<◌, ◌≡◌, ◌≢◌, refl, sym, some, List, [], ◌∷◌, count, remove, remove_of_count_zero,
  arith,
}
use oslab_riscv.Kernel.{
  Status, task_blocked, task_running, task_ready, QueueId, ready_queue, sleep_queue, Kernel,
}
use oslab_riscv.Kernel.Queue.{set_status, add_queue, del_queue}
use oslab_riscv.Kernel.Queue.Linked.{
  IsLinked, count-add_queue, IsFree-add_queue, IsFree-del_queue, del_queue-IsFree,
  IsLinked-add_queue, IsLinked-del_queue,
}
use oslab_riscv.Kernel.Sched.{idle, set_wakeup_time, do_sleep, do_block, do_unblock}
use oslab_riscv.Kernel.Sched.Placed.{
  IsPlaced, IsStopped, IsLeft, IsLoose, add_queue-IsLeft, set_status-IsLeft, set_status-IsLoose,
  IsLeft-del_queue, linked-ne, IsPlaced-IsStopped, do_scheduler-IsPlaced,
}

pub IsStopped-IsLeft : (cpu : ℕ) {k : Kernel} → IsStopped cpu k → IsLeft cpu k
IsStopped-IsLeft cpu v = record { quiet = v.quiet; others = v.others }

-- Putting a process that does not run into a queue is safe before `do_scheduler`.
pub add_queue-IsStopped :
    (cpu h : ℕ) (q : QueueId) (k : Kernel)
    → (k.pcb h).status ≢ task_running
    → IsLoose cpu h k
    → IsStopped cpu k
    → IsStopped cpu (add_queue q h k)
add_queue-IsStopped cpu h q k s o v =
    let left = add_queue-IsLeft cpu h q k o (IsStopped-IsLeft cpu v) in
    record {
      quiet = left.quiet;
      others = left.others;
      own = λ e r. ground (
        arith,
        count-add_queue q h (k.core_running cpu) k r,
        λ (s : (k.pcb (k.core_running cpu)).status ≡ task_running). v.own s r,
      );
    }

pub set_status-IsStopped :
    (cpu h : ℕ) (s : Status) (k : Kernel)
    → s ≢ task_running
    → IsStopped cpu k
    → IsStopped cpu (set_status h s k)
set_status-IsStopped cpu h s k ne v =
    let left = set_status-IsLeft cpu h s k (IsStopped-IsLeft cpu v) in
    record {
      quiet = left.quiet;
      others = left.others;
      own = λ e r.
          ground (arith, λ (t : (k.pcb (k.core_running cpu)).status ≡ task_running). v.own t r);
    }

-- The running process, if it is not the idle one, may enter a queue.
pub running-IsLoose :
    (cpu : ℕ) (k : Kernel)
    → cpu < 2
    → IsPlaced k
    → k.core_running cpu ≢ idle cpu
    → IsLoose cpu (k.core_running cpu) k
running-IsLoose cpu k l v ne = record {
  free = v.out cpu l;
  not_idle = λ c p. ground (arith, v.quiet.foreign cpu 0 l, v.quiet.foreign cpu 1 l);
  not_foreign = λ c hc d. v.quiet.cores cpu c l hc (λ p. d (sym p));
}

-- A process that is blocked and enters a queue, just before `do_scheduler`.
pub blocked-IsStopped :
    (cpu h : ℕ) (q : QueueId) (k : Kernel)
    → IsLoose cpu h k
    → IsStopped cpu k
    → IsStopped cpu (add_queue q h (set_status h task_blocked k))
blocked-IsStopped cpu h q k o v =
    add_queue-IsStopped cpu h q (set_status h task_blocked k) (ground arith)
      (set_status-IsLoose cpu h h task_blocked k o)
      (set_status-IsStopped cpu h task_blocked k (λ e. cc) v)

-- On core 0 or 1, from a state in which no process is in two places, where the process that runs
-- on the core may be in a queue already if it is not marked as running, `do_block` of a process
-- that is linked nowhere, idles nowhere and runs on no other core leaves no process in two
-- places.
pub do_block-IsPlaced :
    (cpu now h : ℕ) (q : QueueId) (k : Kernel)
    → cpu < 2
    → IsLoose cpu h k
    → IsStopped cpu k
    → IsPlaced (do_block cpu now h q k)
unfolding do_block
do_block-IsPlaced cpu now h q k l o v =
    do_scheduler-IsPlaced cpu now l (blocked-IsStopped cpu h q k o v)

pub set_wakeup_time-IsStopped :
    (cpu h t : ℕ) (k : Kernel) → IsStopped cpu k → IsStopped cpu (set_wakeup_time h t k)
set_wakeup_time-IsStopped cpu h t k v = record {
  quiet = record {
    linked = v.quiet.linked;
    idle_free = v.quiet.idle_free;
    idle_pid = λ c. ground (arith, v.quiet.idle_pid c);
    cores = v.quiet.cores;
    foreign = v.quiet.foreign;
  };
  others = v.others;
  own = λ e. v.own (ground arith);
}

-- On core 0 or 1, with no process in two places, `do_sleep` of a process that is not the idle one
-- leaves no process in two places.
pub do_sleep-IsPlaced :
    (cpu now t : ℕ) (k : Kernel)
    → cpu < 2
    → IsPlaced k
    → k.core_running cpu ≢ idle cpu
    → IsPlaced (do_sleep cpu now t k)
unfolding do_sleep
do_sleep-IsPlaced cpu now t k l v ne =
    let h = k.core_running cpu in
    let o = running-IsLoose cpu k l v ne in
    let b = set_status-IsStopped cpu h task_blocked k (λ e. cc) (IsPlaced-IsStopped cpu l v) in
    do_scheduler-IsPlaced cpu now l (
      add_queue-IsStopped cpu h sleep_queue
        (set_wakeup_time h (t + now) (set_status h task_blocked k)) (ground arith)
        (record { free = o.free; not_idle = o.not_idle; not_foreign = o.not_foreign })
        (set_wakeup_time-IsStopped cpu h (t + now) (set_status h task_blocked k) b))

-- The state after `do_unblock`, whose queue has the head `h`.
abbrev pub unblocked : ℕ → Kernel → Kernel
unblocked h k = add_queue ready_queue h (set_status h task_ready (del_queue h k))

do_unblock-head :
    (q : QueueId) (k : Kernel) (xs : List ℕ) {k' : Kernel}
    → k.queue q ≡ xs
    → do_unblock q k ≡ some k'
    → (h : ℕ) × (hs : List ℕ) × (k.queue q ≡ h ∷ hs) × (k' ≡ unblocked h k)
unfolding do_unblock
do_unblock-head q k [] e u = ground arith
do_unblock-head q k (h ∷ hs) e u = (h, hs, e, ground arith)

pub do_unblock_cases :
    (q : QueueId) (k : Kernel) {k' : Kernel}
    → do_unblock q k ≡ some k'
    → (h : ℕ) × (hs : List ℕ) × (k.queue q ≡ h ∷ hs) × (k' ≡ unblocked h k)
do_unblock_cases q k u = do_unblock-head q k (k.queue q) refl u

pub do_unblock-cons :
    (q : QueueId) (k : Kernel) (h : ℕ) (hs : List ℕ)
    → k.queue q ≡ h ∷ hs
    → do_unblock q k ≡ some (unblocked h k)
unfolding do_unblock
do_unblock-cons q k h hs e = ground arith

-- Where a queue begins with `h`, `del_queue` takes `h` from that queue only.
pub remove-head :
    (q : QueueId) (k : Kernel) (h : ℕ) (hs : List ℕ)
    → IsLinked k.queue
    → k.queue q ≡ h ∷ hs
    → (remove h (k.queue q) ≡ hs) × ((r : QueueId) → r ≢ q → remove h (k.queue r) ≡ k.queue r)
remove-head q k h hs v e =
    let here : 0 < count h (k.queue q) = rw e (ground arith) in
    let once : count h (h ∷ hs) ≤ 1 = rw e at (v.once h q) in
    (
      rw e (ground (arith, remove_of_count_zero h hs)),
      λ r ne. remove_of_count_zero h (k.queue r) (ground (arith, v.apart h r q)),
    )

-- A process that is linked in a queue may leave it for another.
pub unblocked-IsStopped :
    (cpu h : ℕ) (q : QueueId) (k : Kernel)
    → 0 < count h (k.queue q)
    → IsStopped cpu k
    → IsStopped cpu (unblocked h k)
unblocked-IsStopped cpu h q k n v =
    let k1 = set_status h task_ready (del_queue h k) in
    let left = IsLeft-del_queue cpu h k (IsStopped-IsLeft cpu v) in
    let d : IsStopped cpu (del_queue h k) = record {
      quiet = left.quiet;
      others = left.others;
      own = λ e. IsFree-del_queue h (k.core_running cpu) k (v.own e);
    } in
    add_queue-IsStopped cpu h ready_queue k1 (ground arith)
      (record {
        free = del_queue-IsFree h k;
        not_idle = λ c p. linked-ne k.queue q (v.quiet.idle_free c) n (sym p);
        not_foreign = λ c hc ne p. linked-ne k.queue q (v.others c hc ne) n (sym p);
      })
      (set_status-IsStopped cpu h task_ready (del_queue h k) (λ e. cc) d)

-- `do_unblock` keeps the state in which `do_scheduler` may be called.
pub do_unblock-IsStopped :
    (cpu : ℕ) (q : QueueId) (k : Kernel) {k' : Kernel}
    → do_unblock q k ≡ some k'
    → IsStopped cpu k
    → IsStopped cpu k'
do_unblock-IsStopped cpu q k u v =
    let (h, hs, e, r) = do_unblock_cases q k u in
    rw r (unblocked-IsStopped cpu h q k (rw e (ground arith)) v)

pub unblocked-IsPlaced :
    (h : ℕ) (q : QueueId) (k : Kernel)
    → 0 < count h (k.queue q)
    → IsPlaced k
    → IsPlaced (unblocked h k)
unblocked-IsPlaced h q k n v = record {
  quiet = (unblocked-IsStopped 0 h q k n (IsPlaced-IsStopped 0 (omega arith) v)).quiet;
  out = λ c hc.
      IsFree-add_queue ready_queue h (k.core_running c) (del_queue h k)
        (λ p. linked-ne k.queue q (v.out c hc) n (sym p))
        (IsFree-del_queue h (k.core_running c) k (v.out c hc));
}

-- With no process in two places, `do_unblock` of a queue that is not empty leaves no process
-- in two places.
pub do_unblock-IsPlaced :
    (q : QueueId) (k : Kernel) {k' : Kernel} → do_unblock q k ≡ some k' → IsPlaced k → IsPlaced k'
do_unblock-IsPlaced q k u v =
    let (h, hs, e, r) = do_unblock_cases q k u in
    rw r (unblocked-IsPlaced h q k (rw e (ground arith)) v)

-- A process that is linked in a queue may move to any other.
pub moved-IsPlaced :
    (h : ℕ) (q r : QueueId) (k : Kernel)
    → 0 < count h (k.queue q)
    → IsPlaced k
    → IsPlaced (add_queue r h (del_queue h k))
moved-IsPlaced h q r k n v =
    let k1 = del_queue h k in
    let idle_ne = λ (c : ℕ) (p : h ≡ idle c). linked-ne k.queue q (v.quiet.idle_free c) n (sym p) in
    record {
      quiet = record {
        linked =
            IsLinked-add_queue r h k1 (del_queue-IsFree h k)
              (IsLinked-del_queue h k v.quiet.linked);
        idle_free = λ c.
            IsFree-add_queue r h (idle c) k1 (idle_ne c)
              (IsFree-del_queue h (idle c) k (v.quiet.idle_free c));
        idle_pid = v.quiet.idle_pid;
        cores = v.quiet.cores;
        foreign = v.quiet.foreign;
      };
      out = λ c hc.
          IsFree-add_queue r h (k.core_running c) k1
            (λ p. linked-ne k.queue q (v.out c hc) n (sym p))
            (IsFree-del_queue h (k.core_running c) k (v.out c hc));
    }

pub set_status-IsPlaced :
    (h : ℕ) (s : Status) (k : Kernel) → IsPlaced k → IsPlaced (set_status h s k)
set_status-IsPlaced h s k v = record {
  quiet = record {
    linked = v.quiet.linked;
    idle_free = v.quiet.idle_free;
    idle_pid = λ c. ground (arith, v.quiet.idle_pid c);
    cores = v.quiet.cores;
    foreign = v.quiet.foreign;
  };
  out = v.out;
}
