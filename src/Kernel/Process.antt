-- ===== src/Kernel/Process.antt =====
-- The calls of kernel/sched/sched.c that end, await or adjust a process.
pub mod Exit
use oslab_riscv.Prelude.{
  ℕ, zero, suc, ◌+◌, ◌≡◌, Bool, true, false, not, ◌&&◌, ◌||◌, Option, none, some, ◌>>=◌, List, [],
  ◌∷◌, length, update, ◌==◌, if◌then◌else◌, find_from,
}
use oslab_riscv.Prelude.Int.{ℤ, pos, eq_ℤ}
use oslab_riscv.Kernel.{
  Status, task_blocked, task_running, task_ready, task_exited, task_available, eq_status, Pcb,
  QueueId, wait_list, Kernel,
}
use oslab_riscv.Kernel.Queue.{set_status, add_queue, del_queue, head_of, last_of}
use oslab_riscv.Kernel.Sched.{do_scheduler, do_unblock}
use oslab_riscv.Kernel.Mutexes.{release_pcb_lock}

-- `NUM_MAX_TASK`
abbrev pub num_max_task : ℕ
num_max_task = 16

-- The loop of `do_exit` and of `do_kill` over `wait_list`, on fuel: `peek` is the waiter whose
-- status it looks at. One that has exited is left there, and the C loop spins: `none`.
pub release_waiters : ℕ → (List ℕ → Option ℕ) → ℕ → Kernel → Option Kernel
release_waiters zero peek p k = none
release_waiters (suc n) peek p k = elim (peek (k.queue (wait_list p))) [
  | none ↦ some k
  | some w ↦ elim (eq_status (k.pcb w).status task_exited) [
    | true ↦ release_waiters n peek p k
    | false ↦ elim (do_unblock (wait_list p) k) [
      | none ↦ none
      | some k' ↦ release_waiters n peek p k'
    ]
  ]
]

pub do_exit : ℕ → ℕ → Kernel → Option Kernel
unfolding release_waiters
do_exit cpu now k = do
  let h = k.core_running cpu
  k' ← release_waiters (length (k.queue (wait_list h)) + 1) last_of h k
  some (do_scheduler cpu now (set_status h task_exited (del_queue h k')))

-- `for (i = 0; i != NUM_MAX_TASK; ++i) if (pcb[i].pid == pid) break;`
abbrev pub find_pid : ℤ → Kernel → ℕ
find_pid pid k = find_from num_max_task 0 (λ i. eq_ℤ (k.pcb i).pid pid)

-- `to_kill_pcb->pid = pid`
abbrev pub set_pid : ℕ → ℤ → Kernel → Kernel
set_pid h pid k = record k { pcb = update k.pcb h (record (k.pcb h) { pid = pid }) }

-- The `switch` at the end of `do_kill`.
abbrev pub kill_by_status : Status → ℕ → ℕ → ℕ → Kernel → ℕ × Kernel
kill_by_status task_blocked cpu now h k = (1, set_status h task_exited (del_queue h k))
kill_by_status task_running cpu now h k = (1, do_scheduler cpu now (set_status h task_exited k))
kill_by_status task_ready cpu now h k = (1, set_status h task_exited (del_queue h k))
kill_by_status task_exited cpu now h k = (0, k)
kill_by_status task_available cpu now h k = (0, k)

pub do_kill : ℕ → ℕ → ℤ → Kernel → Option (ℕ × Kernel)
unfolding release_waiters
do_kill cpu now pid k =
    let h = find_pid pid k in
    if h == num_max_task then some (0, k) else (do
      k1 ← release_waiters (length (k.queue (wait_list h)) + 1) head_of h k
      k2 ← release_pcb_lock pid (set_pid h (pos 0) k1)
      some (kill_by_status (k2.pcb h).status cpu now h k2))

pub do_waitpid : ℕ → ℕ → ℤ → Kernel → ℤ × Kernel
do_waitpid cpu now pid k =
    let w = find_pid pid k in
    let h = k.core_running cpu in
    let s = (k.pcb w).status in
    if w == num_max_task then (pos 0, k) else (
      pid,
      do_scheduler cpu now (
          if not (eq_status s task_exited) && not (eq_status s task_available)
          then add_queue (wait_list w) h (set_status h task_blocked k)
          else k),
    )

pub do_getpid : ℕ → Kernel → ℤ
do_getpid cpu k = (k.pcb (k.core_running cpu)).pid

-- With no such process the C code fails an assertion: `none`.
pub do_taskset_chg : ℤ → ℕ → Kernel → Option Kernel
do_taskset_chg pid mask k =
    let h = find_pid pid k in
    if h == num_max_task
    then none
    else some (record k { pcb = update k.pcb h (record (k.pcb h) { mask = mask }) })
