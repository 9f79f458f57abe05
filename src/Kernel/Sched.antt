-- ===== src/Kernel/Sched.antt =====
-- kernel/sched/sched.c and kernel/sched/time.c: which process runs. A core's number `cpu` and the
-- value `now` of `get_timer()` are arguments.
pub mod Placed
pub mod Calls
pub mod Choice
pub mod Sleep
pub mod Frame
pub mod Turns
pub mod Held
use Prim.Native.Nat.{bit_and}
use oslab_riscv.Prelude.{
  ℕ, ◌+◌, ◌^◌, ◌≡◌, Bool, not, ◌&&◌, Option, none, some, ◌>>=◌, List, [], ◌∷◌, update, ◌==◌, leb,
  if◌then◌else◌, arith,
}
use oslab_riscv.Prelude.Int.{ℤ, pos, eq_ℤ}
use oslab_riscv.Kernel.{
  Status, task_blocked, task_running, task_ready, eq_status, Pcb, QueueId, ready_queue, sleep_queue,
  Satp, Kernel,
}
use oslab_riscv.Kernel.Queue.{set_status, add_queue, del_queue, get_head}

-- The body of the loop of `check_sleeping`: a sleeper whose time has come moves to the ready queue.
pub wake_one : ℕ → ℕ → Kernel → Kernel
wake_one now h k =
    if leb (k.pcb h).wakeup_time now
    then add_queue ready_queue h (del_queue h (set_status h task_ready k))
    else k

-- `next` is read before the node moves, so the loop walks the list as it was.
pub wake : ℕ → List ℕ → Kernel → Kernel
unfolding wake_one
wake now [] k = k
wake now (h ∷ hs) k = wake now hs (wake_one now h k)

pub check_sleeping : ℕ → Kernel → Kernel
unfolding wake
check_sleeping now k = wake now (k.queue sleep_queue) k

-- `cpu_id ? &pid0_pcb_slave : &pid0_pcb_master`
abbrev pub idle : ℕ → ℕ
idle cpu = if cpu == 0 then 16 else 17

-- `next_running->mask & GETMASK(cpu_id)`
abbrev pub allowed : ℕ → Pcb → Bool
allowed cpu p = not (bit_and p.mask (2 ^ cpu) == 0)

-- The walk along the ready queue to the first process that may run on this core.
pub pick : ℕ → (ℕ → Pcb) → List ℕ → Option ℕ
pick cpu pcb [] = none
pick cpu pcb (h ∷ hs) = if allowed cpu (pcb h) then some h else pick cpu pcb hs

-- `last_running->status == TASK_RUNNING && last_running->pid != 0`
abbrev pub goes_back : Pcb → Bool
goes_back p = eq_status p.status task_running && not (eq_ℤ p.pid (pos 0))

-- The running process goes back to the ready queue, unless it is an idle one or has stopped.
pub requeue : ℕ → Kernel → Kernel
requeue cpu k =
    let last = k.core_running cpu in
    if goes_back (k.pcb last) then add_queue ready_queue last (set_status last task_ready k) else k

-- `current_running->status = TASK_RUNNING` and what follows it, up to `switch_to`.
pub dispatch : ℕ → ℕ → Kernel → Kernel
dispatch cpu h k =
    let last = k.core_running cpu in
    let p = k.pcb h in
    record (set_status h task_running k) {
      core_running = update k.core_running cpu h;
      satp =
          if (k.pcb last).pgdir == p.pgdir
          then k.satp
          else update k.satp cpu (record { asid = p.pid; root = p.pgdir });
    }

-- The choice from the ready queue.
pub choose : ℕ → Kernel → Kernel
unfolding pick dispatch
choose cpu k = elim (pick cpu k.pcb (k.queue ready_queue)) [
  | none ↦ dispatch cpu (idle cpu) k
  | some h ↦ dispatch cpu h (del_queue h k)
]

pub do_scheduler : ℕ → ℕ → Kernel → Kernel
unfolding check_sleeping requeue choose
do_scheduler cpu now k = choose cpu (requeue cpu (check_sleeping now k))

-- `p->wakeup_time = t`
abbrev pub set_wakeup_time : ℕ → ℕ → Kernel → Kernel
set_wakeup_time h t k = record k { pcb = update k.pcb h (record (k.pcb h) { wakeup_time = t }) }

unfoldable pub do_sleep : ℕ → ℕ → ℕ → Kernel → Kernel
do_sleep cpu now sleep_time k =
    let h = k.core_running cpu in
    let k' = set_wakeup_time h (sleep_time + now) (set_status h task_blocked k) in
    do_scheduler cpu now (add_queue sleep_queue h k')

unfoldable pub do_block : ℕ → ℕ → ℕ → QueueId → Kernel → Kernel
do_block cpu now h q k = do_scheduler cpu now (add_queue q h (set_status h task_blocked k))

unfoldable pub do_unblock : QueueId → Kernel → Option Kernel
do_unblock q k = do
  (h, k') ← get_head q k
  some (add_queue ready_queue h (set_status h task_ready k'))
