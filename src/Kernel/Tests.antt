-- ===== src/Kernel/Tests.antt =====
-- The theorems about the kernel's processes and locks at one state: process 1 runs on core 0, core 1
-- idles, and each queue that matters holds somebody.
pub mod Turns
use oslab_riscv.Prelude.{
  ℕ, ◌≤◌, ◌<◌, ◌≡◌, ◌≢◌, ◌⊎◌, refl, sym, ◌∙◌, true, false, none, some, List, [], ◌∷◌, ◌++◌, ◌==◌,
  count, if◌then◌else◌, arith,
}
use oslab_riscv.Prelude.Int.{pos, eq_ℤ, minus_one}
use oslab_riscv.Kernel.{
  task_blocked, task_running, task_ready, task_exited, Pcb, QueueId, ready_queue, sleep_queue,
  wait_list, mlock_queue, barrier_queue, condition_queue, mbox_lock_queue, mbox_full_queue,
  mbox_empty_queue, unlocked, locked, Kernel,
}
use oslab_riscv.Kernel.Queue.Linked.{IsFree, IsLinked}
use oslab_riscv.Kernel.Sched.{idle, check_sleeping, do_scheduler}
use oslab_riscv.Kernel.Sched.Placed.{IsPlaced, IsStopped, IsLoose, IsPlaced-IsStopped}
use oslab_riscv.Kernel.Sched.Held.{IsDue, IsHeld, KeepsAll, do_scheduler-IsKept}
use oslab_riscv.Kernel.Sched.Calls.{running-IsLoose}
use oslab_riscv.Kernel.Sched.Choice.{candidates, IsFirst, NoneAllowed, do_scheduler-IsFirst}
use oslab_riscv.Kernel.Sched.Sleep.{due, asleep, check_sleeping-filters}
use oslab_riscv.Kernel.Mutexes.{
  lock_num, set_mutex, spin_lock_release, set_owner, stops_at, do_mutex_lock_init,
  do_mutex_lock_acquire, do_mutex_lock_release,
}
use oslab_riscv.Kernel.Mutexes.Init.{IsTaken, do_mutex_lock_init-finds}
use oslab_riscv.Kernel.Mutexes.Refine.{
  view, ask, give_up, NoIdleLock, acquire_refines, release_refines,
}
use oslab_riscv.Kernel.Barriers.{arrive, do_barrier_wait}
use oslab_riscv.Kernel.Barriers.Cycle.{Counts, arrive-opens, do_barrier_wait-Counts}
use oslab_riscv.Kernel.Conditions.{
  start_wait, do_condition_wait, do_condition_signal, do_condition_broadcast,
}
use oslab_riscv.Kernel.Conditions.Signal.{do_condition_wait-waits, do_condition_signal-lost}
use oslab_riscv.Kernel.Conditions.Broadcast.{ask_all, do_condition_broadcast-asks}
use oslab_riscv.Kernel.Process.{do_exit}
use oslab_riscv.Kernel.Process.Exit.{do_exit-IsExited}

-- The queue that each process is in; those from 9 on are in none.
abbrev queues : QueueId → List ℕ
queues ready_queue = 2 ∷ 3 ∷ []
queues sleep_queue = 4 ∷ []
queues (wait_list i) = if i == 1 then 8 ∷ [] else []
queues (mlock_queue i) = if i == 1 then 6 ∷ [] else []
queues (barrier_queue i) = if i == 0 then 5 ∷ [] else []
queues (condition_queue i) = if i == 0 then 7 ∷ [] else []
queues (mbox_lock_queue i) = []
queues (mbox_full_queue i) = []
queues (mbox_empty_queue i) = []

abbrev place : ℕ → QueueId
place h =
    if h == 4
    then sleep_queue
    else if h == 8
    then wait_list 1
    else if h == 6
    then mlock_queue 1
    else if h == 5
    then barrier_queue 0
    else if h == 7
    then condition_queue 0
    else ready_queue

-- Process 2 may only run on core 1.
abbrev pcbs : ℕ → Pcb
pcbs h = record {
  pid = pos (if h == 16 then 0 else if h == 17 then 0 else h);
  status =
      if h == 1
      then task_running
      else if h == 2
      then task_ready
      else if h == 3
      then task_ready
      else task_blocked;
  wakeup_time = 10;
  mask = if h == 2 then 2 else 3;
  pgdir = h;
}

abbrev pub system : Kernel
system = record {
  pcb = pcbs;
  queue = queues;
  core_running = λ c. if c == 0 then 1 else 17;
  satp = λ c. record { asid = pos 0; root = 0 };
  mlocks = λ i. record {
    lock = if i == 1 then locked else unlocked;
    owner = if i == 1 then pos 1 else minus_one;
    key = pos i;
  };
  barriers = λ i. record { key = pos 7; barrier_num = pos 1 };
  conditions = λ i. record { cond_key = pos 3; lock_idx = pos 1; valid = true };
  mboxs = λ i. record {
    valid = true;
    name = 97 ∷ [];
    content = λ j. j;
    head = 3;
    tail = 8;
    user_num = 0;
    lock = unlocked;
  };
}

in_place : (h : ℕ) (q : QueueId) → 0 < count h (queues q) → q ≡ place h
in_place h ready_queue l = ground arith
in_place h sleep_queue l = ground arith
in_place h (wait_list i) l = ground arith
in_place h (mlock_queue i) l = ground arith
in_place h (barrier_queue i) l = ground arith
in_place h (condition_queue i) l = ground arith
in_place h (mbox_lock_queue i) l = ground arith
in_place h (mbox_full_queue i) l = ground arith
in_place h (mbox_empty_queue i) l = ground arith

once_each : (h : ℕ) (q : QueueId) → count h (queues q) ≤ 1
once_each h ready_queue = ground arith
once_each h sleep_queue = ground arith
once_each h (wait_list i) = ground arith
once_each h (mlock_queue i) = ground arith
once_each h (barrier_queue i) = ground arith
once_each h (condition_queue i) = ground arith
once_each h (mbox_lock_queue i) = ground arith
once_each h (mbox_full_queue i) = ground arith
once_each h (mbox_empty_queue i) = ground arith

-- Only the processes 2 to 8 are linked.
not_linked : (h : ℕ) → (h < 2) ⊎ (8 < h) → IsFree h queues
not_linked h l ready_queue = ground arith
not_linked h l sleep_queue = ground arith
not_linked h l (wait_list i) = ground arith
not_linked h l (mlock_queue i) = ground arith
not_linked h l (barrier_queue i) = ground arith
not_linked h l (condition_queue i) = ground arith
not_linked h l (mbox_lock_queue i) = ground arith
not_linked h l (mbox_full_queue i) = ground arith
not_linked h l (mbox_empty_queue i) = ground arith

system-IsLinked : IsLinked queues
system-IsLinked = record {
  once = once_each;
  apart = λ h q r a b. in_place h q a ∙ sym (in_place h r b);
}

pub system-IsPlaced : IsPlaced system
system-IsPlaced = record {
  quiet = record {
    linked = system-IsLinked;
    idle_free = λ c. not_linked (idle c) (ground arith);
    idle_pid = λ c. ground arith;
    cores = λ c d hc hd ne. ground arith;
    foreign = λ c d hc hd ne. ground arith;
  };
  out = λ c l. not_linked (if c == 0 then 1 else 17) (ground arith);
}

system-IsStopped : IsStopped 0 system
system-IsStopped = IsPlaced-IsStopped 0 (omega arith) system-IsPlaced

-- Process 1 may be put into a queue.
system-IsLoose : IsLoose 0 1 system
system-IsLoose = running-IsLoose 0 system (omega arith) system-IsPlaced (omega arith)

system-NoIdleLock : NoIdleLock system
system-NoIdleLock i e = ground arith

do_scheduler-IsKept_example :
    IsPlaced (do_scheduler 0 20 system) × KeepsAll 0 system (do_scheduler 0 20 system)
do_scheduler-IsKept_example = do_scheduler-IsKept 0 20 system (omega arith) system-IsStopped

do_scheduler-IsFirst_example :
    let k' = do_scheduler 0 20 system in
    let hs = candidates 0 20 system in
    (IsFirst 0 system.pcb hs (k'.core_running 0) (k'.queue ready_queue))
    ⊎ (NoneAllowed 0 system.pcb hs × (k'.core_running 0 ≡ idle 0) × (k'.queue ready_queue ≡ hs))
do_scheduler-IsFirst_example = do_scheduler-IsFirst 0 20 system (omega arith) system-IsStopped

check_sleeping-filters_example :
    let k' = check_sleeping 20 system in
    let sleepers = system.queue sleep_queue in
    (k'.queue ready_queue ≡ system.queue ready_queue ++ due 20 system.pcb sleepers)
    × (k'.queue sleep_queue ≡ asleep 20 system.pcb sleepers)
    × ((q : QueueId) → q ≢ ready_queue → q ≢ sleep_queue → k'.queue q ≡ system.queue q)
check_sleeping-filters_example = check_sleeping-filters 20 system system-IsLinked

acquire_refines_example :
    let k' = do_mutex_lock_acquire 0 20 1 system in
    (view 1 k' ≡ ask 1 (pos 1) (view 1 system))
    × ((j : ℕ) → 1 ≢ j → view j k' ≡ view j system)
    × NoIdleLock k'
    × IsPlaced k'
acquire_refines_example =
    acquire_refines 0 20 1 system (omega arith) system-IsPlaced (omega arith) system-NoIdleLock

release_refines_example :
    (k' : Kernel) × (do_mutex_lock_release 1 system ≡ some k')
    × (view 1 k' ≡ give_up system.pcb (view 1 system))
    × ((j : ℕ) → 1 ≢ j → view j k' ≡ view j system)
    × NoIdleLock k'
    × IsStopped 0 k'
release_refines_example = release_refines 0 1 system system-IsStopped system-NoIdleLock

do_mutex_lock_init-finds_example :
    ((do_mutex_lock_init (pos 5) system ≡ none)
      × ((j : ℕ) → j < 16 → IsTaken (pos 5) (system.mlocks j)))
    ⊎ ((i : ℕ) × (i < 16)
        × ((j : ℕ) → j < i → IsTaken (pos 5) (system.mlocks j))
        × ((((system.mlocks i).key ≡ pos 5)
              × (do_mutex_lock_init (pos 5) system ≡ some (i, system)))
            ⊎ (((system.mlocks i).key ≢ pos 5)
                × ((system.mlocks i).owner ≡ minus_one)
                × (do_mutex_lock_init (pos 5) system
                    ≡ some (
                      i,
                      set_mutex i (record { lock = unlocked; owner = pos 0; key = pos 5 }) system,
                    )))))
do_mutex_lock_init-finds_example = do_mutex_lock_init-finds (pos 5) system

system-Counts : Counts 0 2 system
system-Counts = record { to_come = 0; num = refl; total = refl }

arrive-opens_example :
    (k' : Kernel) × (arrive 0 0 system ≡ some k')
    × (k'.queue (barrier_queue 0) ≡ [])
    × (k'.queue ready_queue ≡ system.queue ready_queue ++ system.queue (barrier_queue 0))
    × ((k'.barriers 0).barrier_num ≡ pos 2)
    × IsPlaced k'
arrive-opens_example =
    arrive-opens 0 0 2 system (omega arith) system-IsPlaced
      (record { to_come = 0; num = refl; total = refl }) refl

do_barrier_wait-Counts_example :
    (k' : Kernel) × (do_barrier_wait 0 20 0 system ≡ some k')
    × Counts 0 2 k'
    × IsPlaced k'
    × KeepsAll 0 system k'
do_barrier_wait-Counts_example =
    do_barrier_wait-Counts 0 20 0 2 system (omega arith) system-IsPlaced (omega arith) system-Counts

do_condition_wait-waits_example :
    (k1 : Kernel) × (k' : Kernel) × (start_wait 0 0 1 system ≡ some k1)
    × (view 1 k1 ≡ give_up system.pcb (view 1 system))
    × ((k1.conditions 0).lock_idx ≡ pos 1)
    × ((k1.pcb 1).status ≡ task_blocked)
    × (do_condition_wait 0 20 0 1 system ≡ some k')
    × (k'.queue (condition_queue 0) ≡ system.queue (condition_queue 0) ++ (1 ∷ []))
    × IsPlaced k'
    × KeepsAll 0 system k'
do_condition_wait-waits_example =
    do_condition_wait-waits 0 20 0 1 system (omega arith) system-IsPlaced (omega arith)
      system-NoIdleLock

do_condition_broadcast-asks_example :
    (k1 : Kernel) × (do_condition_broadcast 0 20 0 system ≡ some (do_scheduler 0 20 k1))
    × (view 1 k1 ≡ ask_all system.pcb (system.queue (condition_queue 0)) (view 1 system))
    × (k1.queue (condition_queue 0) ≡ [])
    × IsPlaced (do_scheduler 0 20 k1)
    × KeepsAll 0 system (do_scheduler 0 20 k1)
do_condition_broadcast-asks_example =
    do_condition_broadcast-asks 0 20 0 1 system (omega arith) system-IsPlaced refl (λ e. cc)

-- The same with a condition whose mutex is free.
abbrev system_unheld : Kernel
system_unheld = record system {
  conditions = λ i. record { cond_key = pos 3; lock_idx = pos 2; valid = true };
}

do_condition_signal-lost_example :
    (k' : Kernel) × (do_condition_signal 0 20 0 system_unheld ≡ some k')
    × ((k'.mlocks 2).lock ≡ locked)
    × ((k'.mlocks 2).owner ≡ pos 7)
    × ((k'.pcb 7).status ≡ task_blocked)
    × IsFree 7 k'.queue
do_condition_signal-lost_example =
    do_condition_signal-lost 0 20 0 2 7 [] system_unheld refl refl refl refl

do_exit-IsExited_example :
    (k1 : Kernel) × (do_exit 0 20 system ≡ some (do_scheduler 0 20 k1))
    × ((k1.pcb 1).status ≡ task_exited)
    × IsFree 1 k1.queue
    × (k1.queue ready_queue ≡ system.queue ready_queue ++ system.queue (wait_list 1))
    × (k1.queue (wait_list 1) ≡ [])
    × IsPlaced (do_scheduler 0 20 k1)
    × ((g : ℕ) → g ≢ 1 → IsDue 0 g system → IsHeld g (do_scheduler 0 20 k1))
do_exit-IsExited_example =
    do_exit-IsExited 0 20 system (omega arith) system-IsPlaced (λ w l. ground arith)
