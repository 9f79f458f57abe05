-- ===== src/Kernel/Conditions.antt =====
-- The condition variables of kernel/locking/lock.c.
pub mod Signal
pub mod Broadcast
use oslab_riscv.Prelude.{
  ℕ, zero, suc, ◌+◌, ◌≡◌, Bool, true, false, not, Option, none, some, ◌>>=◌, List, [], ◌∷◌, length,
  update, ◌==◌, if◌then◌else◌, for_range, find_from,
}
use oslab_riscv.Prelude.Int.{ℤ, pos, negsuc, minus_one}
use oslab_riscv.Kernel.{
  Condition, task_blocked, QueueId, ready_queue, condition_queue, mlock_queue, Kernel,
}
use oslab_riscv.Kernel.Queue.{
  head_of, is_empty, init_queue, set_status, add_queue, get_head, del_queue,
}
use oslab_riscv.Kernel.Sched.{do_scheduler, do_block, do_unblock}
use oslab_riscv.Kernel.Mutexes.{
  spin_lock_try_acquire, spin_lock_acquire, set_owner, do_mutex_lock_release,
}

-- `CONDITION_NUM`
abbrev pub condition_num : ℕ
condition_num = 16

abbrev pub set_condition : ℕ → Condition → Kernel → Kernel
set_condition i c k = record k { conditions = update k.conditions i c }

abbrev pub no_condition : Condition
no_condition = record { cond_key = minus_one; lock_idx = minus_one; valid = false }

-- The body of the loop of `init_conditions`.
abbrev pub init_condition : ℕ → Kernel → Kernel
init_condition i k = set_condition i no_condition (init_queue (condition_queue i) k)

pub init_conditions : Kernel → Kernel
init_conditions k = for_range condition_num 0 init_condition k

-- A C result of -1 is `none`.
pub do_condition_init : ℤ → Kernel → Option ℕ × Kernel
unfolding find_from
do_condition_init key k =
    let i = find_from condition_num 0 (λ j. not (k.conditions j).valid) in
    if i == condition_num
    then (none, k)
    else (some i, set_condition i (record (k.conditions i) { cond_key = key; valid = true }) k)

-- What `do_condition_wait` does before it calls `do_scheduler`.
pub start_wait : ℕ → ℕ → ℕ → Kernel → Option Kernel
start_wait cpu i m k =
    let h = k.core_running cpu in
    let k1 = set_status h task_blocked k in
    let k2 = set_condition i (record (k.conditions i) { lock_idx = pos m }) k1 in
    do_mutex_lock_release m (add_queue (condition_queue i) h k2)

pub do_condition_wait : ℕ → ℕ → ℕ → ℕ → Kernel → Option Kernel
unfolding start_wait
do_condition_wait cpu now i m k = do k' ← start_wait cpu i m k; some (do_scheduler cpu now k')

-- An index into `mlocks`; at a negative one the C code reads outside the array: `none`.
abbrev pub mutex_index : ℤ → Option ℕ
mutex_index (pos m) = some m
mutex_index (negsuc m) = none

-- With nobody waiting, `get_head` takes the queue's own head for a process: `none`.
pub do_condition_signal : ℕ → ℕ → ℕ → Kernel → Option Kernel
do_condition_signal cpu now i k = do
  (h, k') ← get_head (condition_queue i) k
  m ← mutex_index (k.conditions i).lock_idx
  some (
      if spin_lock_try_acquire (k'.mlocks m).lock
      then set_owner m (k'.pcb h).pid (spin_lock_acquire m k')
      else do_block cpu now h (mlock_queue m) k')

-- The body of the loop of `do_condition_broadcast`, for the process `h` that was taken out.
abbrev pub pass_on : ℕ → ℕ → Kernel → Kernel
pass_on m h k =
    if spin_lock_try_acquire (k.mlocks m).lock
    then add_queue ready_queue h (set_owner m (k.pcb h).pid (spin_lock_acquire m k))
    else add_queue (mlock_queue m) h (set_status h task_blocked k)

-- The loop, on fuel: `none` if the fuel runs out.
pub pass_all : ℕ → ℕ → ℤ → Kernel → Option Kernel
pass_all zero i lock_id k = none
pass_all (suc n) i lock_id k = elim (head_of (k.queue (condition_queue i))) [
  | none ↦ some k
  | some h ↦ elim (mutex_index lock_id) [
    | none ↦ none
    | some m ↦ pass_all n i lock_id (pass_on m h (del_queue h k))
  ]
]

pub do_condition_broadcast : ℕ → ℕ → ℕ → Kernel → Option Kernel
unfolding pass_all
do_condition_broadcast cpu now i k = do
  k' ← pass_all (length (k.queue (condition_queue i)) + 1) i (k.conditions i).lock_idx k
  some (do_scheduler cpu now k')

pub do_condition_destroy : ℕ → Kernel → Kernel
do_condition_destroy i k =
    if is_empty (k.queue (condition_queue i))
    then set_condition i no_condition (init_queue (condition_queue i) k)
    else k
