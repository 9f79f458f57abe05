-- ===== src/Kernel/Barriers.antt =====
-- The barriers of kernel/locking/lock.c.
pub mod Cycle
use oslab_riscv.Prelude.{
  ℕ, zero, suc, ◌+◌, ◌≡◌, Bool, true, false, Option, none, some, ◌>>=◌, List, [], ◌∷◌, length,
  update, ◌==◌, if◌then◌else◌, for_range, find_from,
}
use oslab_riscv.Prelude.Int.{ℤ, pos, negsuc, minus_one, eq_ℤ, succ_ℤ, pred_ℤ}
use oslab_riscv.Kernel.{Barrier, task_blocked, QueueId, barrier_queue, Kernel}
use oslab_riscv.Kernel.Queue.{head_of, init_queue, set_status, add_queue}
use oslab_riscv.Kernel.Sched.{do_scheduler, do_unblock}

-- `BARRIER_NUM`
abbrev pub barrier_count : ℕ
barrier_count = 16

abbrev pub set_barrier : ℕ → Barrier → Kernel → Kernel
set_barrier i b k = record k { barriers = update k.barriers i b }

abbrev pub no_barrier : Barrier
no_barrier = record { key = minus_one; barrier_num = minus_one }

-- The body of the loop of `init_barriers`.
abbrev pub init_barrier : ℕ → Kernel → Kernel
init_barrier i k = set_barrier i no_barrier (init_queue (barrier_queue i) k)

pub init_barriers : Kernel → Kernel
init_barriers k = for_range barrier_count 0 init_barrier k

-- A C result of -1 is `none`.
pub do_barrier_init : ℤ → ℤ → Kernel → Option ℕ × Kernel
unfolding find_from
do_barrier_init key goal k =
    let i = find_from barrier_count 0 (λ j. eq_ℤ (k.barriers j).key minus_one) in
    if i == barrier_count
    then (none, k)
    else (some i, set_barrier i (record { key = key; barrier_num = goal }) k)

abbrev pub add_num : (ℤ → ℤ) → ℕ → Kernel → Kernel
add_num f i k = let b = k.barriers i in set_barrier i (record b { barrier_num = f b.barrier_num }) k

-- The loop of the last arrival, on fuel: `none` if the fuel runs out.
pub release_all : ℕ → ℕ → Kernel → Option Kernel
release_all zero i k = none
release_all (suc n) i k = elim (head_of (k.queue (barrier_queue i))) [
  | none ↦ some k
  | some h ↦ elim (do_unblock (barrier_queue i) k) [
    | none ↦ none
    | some k' ↦ release_all n i (add_num succ_ℤ i k')
  ]
]

-- What `do_barrier_wait` does before it calls `do_scheduler`.
pub arrive : ℕ → ℕ → Kernel → Option Kernel
unfolding release_all
arrive cpu i k =
    let h = k.core_running cpu in
    if eq_ℤ (k.barriers i).barrier_num (pos 1)
    then release_all (length (k.queue (barrier_queue i)) + 1) i k
    else some (add_num pred_ℤ i (add_queue (barrier_queue i) h (set_status h task_blocked k)))

pub do_barrier_wait : ℕ → ℕ → ℕ → Kernel → Option Kernel
unfolding arrive
do_barrier_wait cpu now i k = do k' ← arrive cpu i k; some (do_scheduler cpu now k')

pub do_barrier_destroy : ℕ → Kernel → Kernel
do_barrier_destroy i k = if eq_ℤ (k.barriers i).key minus_one then k else set_barrier i no_barrier k
