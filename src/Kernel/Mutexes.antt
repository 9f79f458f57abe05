-- ===== src/Kernel/Mutexes.antt =====
-- The mutexes of kernel/locking/lock.c.
pub mod Refine
pub mod Init
use oslab_riscv.Prelude.{
  ℕ, ◌+◌, ◌≡◌, Bool, true, false, ◌||◌, Option, none, some, List, [], ◌∷◌, update, ◌==◌,
  if◌then◌else◌, for_range, find_from,
}
use oslab_riscv.Prelude.Int.{ℤ, pos, minus_one, eq_ℤ}
use oslab_riscv.Kernel.{
  LockStatus, unlocked, locked, Mutex, Pcb, QueueId, mlock_queue, eq_queue, Kernel,
}
use oslab_riscv.Kernel.Queue.{head_of, init_queue}
use oslab_riscv.Kernel.Sched.{do_block, do_unblock}

-- `LOCK_NUM`
abbrev pub lock_num : ℕ
lock_num = 16

abbrev pub set_mutex : ℕ → Mutex → Kernel → Kernel
set_mutex i m k = record k { mlocks = update k.mlocks i m }

-- `spin_lock_try_acquire`: it only looks.
abbrev pub spin_lock_try_acquire : LockStatus → Bool
spin_lock_try_acquire unlocked = true
spin_lock_try_acquire locked = false

-- `spin_lock_acquire`, `spin_lock_release` and `spin_lock_init` of lock `i`.
abbrev pub spin_lock_acquire : ℕ → Kernel → Kernel
spin_lock_acquire i k = set_mutex i (record (k.mlocks i) { lock = locked }) k

abbrev pub spin_lock_release : ℕ → Kernel → Kernel
spin_lock_release i k = set_mutex i (record (k.mlocks i) { lock = unlocked }) k

abbrev pub spin_lock_init : ℕ → Kernel → Kernel
spin_lock_init i k = set_mutex i (record (k.mlocks i) { lock = unlocked }) k

abbrev pub set_owner : ℕ → ℤ → Kernel → Kernel
set_owner i o k = set_mutex i (record (k.mlocks i) { owner = o }) k

-- The body of the loop of `init_locks`.
abbrev pub init_lock : ℕ → Kernel → Kernel
init_lock i k =
    let k' = init_queue (mlock_queue i) k in
    spin_lock_init i (set_mutex i (record (k'.mlocks i) { key = pos 0; owner = minus_one }) k')

pub init_locks : Kernel → Kernel
init_locks k = for_range lock_num 0 init_lock k

-- What ends the loop of `do_mutex_lock_init`: the key is found, or the slot counts as free.
abbrev pub stops_at : ℤ → Kernel → ℕ → Bool
stops_at key k i = eq_ℤ (k.mlocks i).key key || eq_ℤ (k.mlocks i).owner minus_one

-- With no slot left the C code loops for ever: `none`.
unfoldable pub do_mutex_lock_init : ℤ → Kernel → Option (ℕ × Kernel)
unfolding find_from
do_mutex_lock_init key k =
    let i = find_from lock_num 0 (stops_at key k) in
    if i == lock_num
    then none
    else if eq_ℤ (k.mlocks i).key key
    then some (i, k)
    else some (i, set_mutex i (record { lock = unlocked; owner = pos 0; key = key }) k)

unfoldable pub do_mutex_lock_acquire : ℕ → ℕ → ℕ → Kernel → Kernel
do_mutex_lock_acquire cpu now i k =
    let h = k.core_running cpu in
    if spin_lock_try_acquire (k.mlocks i).lock
    then set_owner i (k.pcb h).pid (spin_lock_acquire i k)
    else do_block cpu now h (mlock_queue i) k

unfoldable pub do_mutex_lock_release : ℕ → Kernel → Option Kernel
do_mutex_lock_release i k = elim (head_of (k.queue (mlock_queue i))) [
  | none ↦ some (set_owner i minus_one (spin_lock_release i k))
  | some h ↦ do_unblock (mlock_queue i) (set_owner i (k.pcb h).pid k)
]

-- The loop of `release_pcb_lock`, from lock `i` on, with `n` rounds left.
pub release_locks : ℕ → ℕ → ℤ → Kernel → Option Kernel
release_locks ℕ.zero i pid k = some k
release_locks (ℕ.suc n) i pid k = elim (eq_ℤ (k.mlocks i).owner pid) [
  | true ↦ elim (do_mutex_lock_release i k) [
    | none ↦ none
    | some k' ↦ release_locks n (i + 1) pid k'
  ]
  | false ↦ release_locks n (i + 1) pid k
]

pub release_pcb_lock : ℤ → Kernel → Option Kernel
unfolding release_locks
release_pcb_lock pid k = release_locks lock_num 0 pid k
