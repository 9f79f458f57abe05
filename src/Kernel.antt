-- ===== src/Kernel.antt =====
-- The kernel's shared state: include/os/sched.h, include/os/lock.h, and the globals of
-- kernel/sched/sched.c and kernel/locking/lock.c. A process is named by a handle: `pcb[i]` is i,
-- `pid0_pcb_master` is 16 and `pid0_pcb_slave` 17. A queue is the list of the handles that are
-- linked in it, first to last, that is, along the `next` pointers of include/os/list.h.
pub mod Queue
pub mod Sched
pub mod Mutexes
pub mod Barriers
pub mod Conditions
pub mod Process
pub mod Mailboxes
pub mod Tests
use oslab_riscv.Prelude.{ℕ, ◌≡◌, ◌↔◌, Bool, ◌&&◌, true, List, ◌==◌, arith}
use oslab_riscv.Prelude.Int.{ℤ}

-- `task_status_t`
pub data Status : Type 0 where
  task_blocked task_running task_ready task_exited task_available : Status

abbrev pub status_code : Status → ℕ
status_code task_blocked = 0
status_code task_running = 1
status_code task_ready = 2
status_code task_exited = 3
status_code task_available = 4

abbrev pub eq_status : Status → Status → Bool
eq_status a b = status_code a == status_code b

-- `pcb_t`, without its saved registers and stacks. `list` and `wait_list` are in the queues.
pub record Pcb : Type 0 where
  pub pid : ℤ
  pub status : Status
  pub wakeup_time : ℕ
  pub mask : ℕ
  pub pgdir : ℕ

-- The heads of all the queues; the index is that of the array the head stands in.
pub data QueueId : Type 0 where
  ready_queue sleep_queue : QueueId
  wait_list mlock_queue barrier_queue condition_queue : ℕ → QueueId
  mbox_lock_queue mbox_full_queue mbox_empty_queue : ℕ → QueueId

abbrev pub queue_tag : QueueId → ℕ
queue_tag ready_queue = 0
queue_tag sleep_queue = 1
queue_tag (wait_list i) = 2
queue_tag (mlock_queue i) = 3
queue_tag (barrier_queue i) = 4
queue_tag (condition_queue i) = 5
queue_tag (mbox_lock_queue i) = 6
queue_tag (mbox_full_queue i) = 7
queue_tag (mbox_empty_queue i) = 8

abbrev pub queue_index : QueueId → ℕ
queue_index ready_queue = 0
queue_index sleep_queue = 0
queue_index (wait_list i) = i
queue_index (mlock_queue i) = i
queue_index (barrier_queue i) = i
queue_index (condition_queue i) = i
queue_index (mbox_lock_queue i) = i
queue_index (mbox_full_queue i) = i
queue_index (mbox_empty_queue i) = i

abbrev pub eq_queue : QueueId → QueueId → Bool
eq_queue q r = queue_tag q == queue_tag r && queue_index q == queue_index r

pub eq_queue_iff : (q r : QueueId) → (eq_queue q r ≡ true) ↔ (q ≡ r)
eq_queue_iff q r = ground arith

-- `lock_status_t`
pub data LockStatus : Type 0 where
  unlocked locked : LockStatus

-- `mutex_lock_t`
pub record Mutex : Type 0 where
  pub lock : LockStatus
  pub owner : ℤ
  pub key : ℤ

-- `barrier_t`
pub record Barrier : Type 0 where
  pub key : ℤ
  pub barrier_num : ℤ

-- `condition_t`
pub record Condition : Type 0 where
  pub cond_key : ℤ
  pub lock_idx : ℤ
  pub valid : Bool

-- `mailbox_t`; `name` is the string before its final NUL.
pub record Mailbox : Type 0 where
  pub valid : Bool
  pub name : List ℕ
  pub content : ℕ → ℕ
  pub head : ℕ
  pub tail : ℕ
  pub user_num : ℕ
  pub lock : LockStatus

-- What `satp` of a core holds: the address space's id and its root page table.
pub record Satp : Type 0 where
  pub asid : ℤ
  pub root : ℕ

pub record Kernel : Type 0 where
  pub pcb : ℕ → Pcb
  pub queue : QueueId → List ℕ
  pub core_running : ℕ → ℕ
  pub satp : ℕ → Satp
  pub mlocks : ℕ → Mutex
  pub barriers : ℕ → Barrier
  pub conditions : ℕ → Condition
  pub mboxs : ℕ → Mailbox
