-- ===== src/Kernel/Mutexes/Refine.antt =====
-- The mutexes of kernel/locking/lock.c against a lock with a first-come queue of waiters.
use oslab_riscv.Prelude.{
  ℕ, ◌<◌, ◌≡◌, ◌≢◌, refl, ◌∙◌, some, List, [], ◌∷◌, ◌++◌, arith, if◌then◌else◌, ◌==◌,
}
use oslab_riscv.Prelude.Int.{ℤ, minus_one}
use oslab_riscv.Kernel.{
  LockStatus, unlocked, locked, task_blocked, Pcb, QueueId, mlock_queue, Kernel,
}
use oslab_riscv.Kernel.Queue.{set_status, add_queue}
use oslab_riscv.Kernel.Queue.Linked.{IsLinked}
use oslab_riscv.Kernel.Sched.{idle, do_block, do_unblock}
use oslab_riscv.Kernel.Sched.Placed.{
  IsPlaced, IsPlaced-same, IsStopped-same, SamePlaces, IsStopped, IsPlaced-IsStopped,
}
use oslab_riscv.Kernel.Sched.Calls.{
  running-IsLoose, blocked-IsStopped, do_block-IsPlaced, unblocked, unblocked-IsStopped,
  do_unblock-cons, remove-head,
}
use oslab_riscv.Kernel.Sched.Frame.{do_scheduler-SameTables, do_scheduler-queue}
use oslab_riscv.Kernel.Mutexes.{
  set_owner, spin_lock_release, do_mutex_lock_acquire, do_mutex_lock_release,
}

-- A lock as its users see it: nobody has it, or a process has it and others wait in line.
pub data LockView : Type 0 where
  free : LockView
  held : ℤ → List ℕ → LockView

abbrev pub lock_view : LockStatus → ℤ → List ℕ → LockView
lock_view unlocked o ws = free
lock_view locked o ws = held o ws

abbrev pub view : ℕ → Kernel → LockView
view i k = lock_view (k.mlocks i).lock (k.mlocks i).owner (k.queue (mlock_queue i))

-- Process `h`, whose pid is `pid`, asks for the lock.
abbrev pub ask : ℕ → ℤ → LockView → LockView
ask h pid free = held pid []
ask h pid (held o ws) = held o (ws ++ (h ∷ []))

-- The lock is given up: the longest waiter has it next.
abbrev pub give_up : (ℕ → Pcb) → LockView → LockView
give_up pcb free = free
give_up pcb (held o []) = free
give_up pcb (held o (w ∷ ws)) = held (pcb w).pid ws

-- Nobody waits for a lock that is free.
abbrev pub NoIdleLock : Kernel → Type 0
NoIdleLock k = (i : ℕ) → (k.mlocks i).lock ≡ unlocked → k.queue (mlock_queue i) ≡ []

-- What a waiter's arrival does to the queues of the locks.
blocked-view :
    (cpu now i h : ℕ) (k : Kernel) (j : ℕ)
    → cpu < 2
    → IsStopped cpu (add_queue (mlock_queue i) h (set_status h task_blocked k))
    → (do_block cpu now h (mlock_queue i) k).queue (mlock_queue j)
      ≡ (if i == j then k.queue (mlock_queue j) ++ (h ∷ []) else k.queue (mlock_queue j))
unfolding do_block
blocked-view cpu now i h k j l v =
    do_scheduler-queue cpu now _ (mlock_queue j) l v (λ e. cc) (λ e. cc) ∙ ground arith

blocked-mlocks :
    (cpu now h : ℕ) (q : QueueId) (k : Kernel) → (do_block cpu now h q k).mlocks ≡ k.mlocks
unfolding do_block
blocked-mlocks cpu now h q k =
    (do_scheduler-SameTables cpu now (add_queue q h (set_status h task_blocked k))).mlocks

record Acquired (cpu i : ℕ) (k k' : Kernel) : Type 0 where
  this : view i k' ≡ ask (k.core_running cpu) (k.pcb (k.core_running cpu)).pid (view i k)
  others : (j : ℕ) → i ≢ j → view j k' ≡ view j k
  no_idle : NoIdleLock k'
  placed : IsPlaced k'

acquire_free :
    (cpu now i : ℕ) (k : Kernel)
    → IsPlaced k
    → NoIdleLock k
    → (k.mlocks i).lock ≡ unlocked
    → Acquired cpu i k (do_mutex_lock_acquire cpu now i k)
unfolding do_mutex_lock_acquire
acquire_free cpu now i k v n e = rw e (record {
  this = ground (arith, n i);
  others = λ j ne. ground arith;
  no_idle = λ j u. ground (arith, n j);
  placed = IsPlaced-same k _ (record { queue = refl; core = refl; pcb = refl }) v;
})

acquire_held :
    (cpu now i : ℕ) (k : Kernel)
    → cpu < 2
    → IsPlaced k
    → k.core_running cpu ≢ idle cpu
    → NoIdleLock k
    → (k.mlocks i).lock ≡ locked
    → Acquired cpu i k (do_mutex_lock_acquire cpu now i k)
unfolding do_mutex_lock_acquire
acquire_held cpu now i k l v ne n e =
    let h = k.core_running cpu in
    let o = running-IsLoose cpu k l v ne in
    let s = blocked-IsStopped cpu h (mlock_queue i) k o (IsPlaced-IsStopped cpu l v) in
    let m = blocked-mlocks cpu now h (mlock_queue i) k in
    let q = λ (j : ℕ). blocked-view cpu now i h k j l s in
    rw e (record {
      this = ground (arith, m, q i);
      others = λ j ne. ground (arith, m, q j);
      no_idle = λ j u. ground (arith, m, q j, n j);
      placed = do_block-IsPlaced cpu now h (mlock_queue i) k l o (IsPlaced-IsStopped cpu l v);
    })

-- On core 0 or 1, with no process in two places and nobody waiting for a free lock,
-- `do_mutex_lock_acquire`, called by a process that is not the idle one, does to the lock what
-- `ask` says and nothing to the other locks; still nobody waits for a free lock, and no process
-- is in two places.
pub acquire_refines :
    (cpu now i : ℕ) (k : Kernel)
    → cpu < 2
    → IsPlaced k
    → k.core_running cpu ≢ idle cpu
    → NoIdleLock k
    → let k' = do_mutex_lock_acquire cpu now i k in
      (view i k' ≡ ask (k.core_running cpu) (k.pcb (k.core_running cpu)).pid (view i k))
      × ((j : ℕ) → i ≢ j → view j k' ≡ view j k)
      × NoIdleLock k'
      × IsPlaced k'
acquire_refines cpu now i k l v ne n =
    let a = acquired (k.mlocks i).lock refl in (a.this, a.others, a.no_idle, a.placed)
  where
    acquired :
        (s : LockStatus)
        → (k.mlocks i).lock ≡ s
        → Acquired cpu i k (do_mutex_lock_acquire cpu now i k)
    acquired unlocked e = acquire_free cpu now i k v n e
    acquired locked e = acquire_held cpu now i k l v ne n e

record Released (i : ℕ) (k k' : Kernel) : Type 0 where
  this : view i k' ≡ give_up k.pcb (view i k)
  others : (j : ℕ) → i ≢ j → view j k' ≡ view j k
  no_idle : NoIdleLock k'

release_empty :
    (i : ℕ) (k : Kernel)
    → NoIdleLock k
    → k.queue (mlock_queue i) ≡ []
    → (k' : Kernel) × (do_mutex_lock_release i k ≡ some k') × Released i k k' × SamePlaces k k'
unfolding do_mutex_lock_release
release_empty i k n e = (
  set_owner i minus_one (spin_lock_release i k),
  rw (e, do_mutex_lock_release) refl,
  record {
    this = ground arith;
    others = λ j ne. ground arith;
    no_idle = λ j u. ground (arith, n j);
  },
  record { queue = refl; core = refl; pcb = refl },
)

-- The state after a release that wakes `h`.
abbrev passed : ℕ → ℕ → Kernel → Kernel
passed i h k = unblocked h (set_owner i (k.pcb h).pid k)

release_cons :
    (i h : ℕ) (hs : List ℕ) (k : Kernel)
    → IsLinked k.queue
    → NoIdleLock k
    → k.queue (mlock_queue i) ≡ h ∷ hs
    → (do_mutex_lock_release i k ≡ some (passed i h k)) × Released i k (passed i h k)
unfolding do_mutex_lock_release do_unblock
release_cons i h hs k v n e =
    let (here, there) = remove-head (mlock_queue i) k h hs v e in
    (
      rw (e, do_mutex_lock_release)
          (do_unblock-cons (mlock_queue i) (set_owner i (k.pcb h).pid k) h hs e),
      record {
        this = ground (arith, here, n i);
        others = λ j ne. ground (arith, there (mlock_queue j));
        no_idle = λ j u. ground (arith, n j, there (mlock_queue j));
      },
    )

-- From a state in which `do_scheduler` may be called on the core and nobody waits for a free lock,
-- `do_mutex_lock_release` always returns; it does to the lock what `give_up` says and nothing to
-- the other locks; still nobody waits for a free lock, and `do_scheduler` may be called.
pub release_refines :
    (cpu i : ℕ) (k : Kernel)
    → IsStopped cpu k
    → NoIdleLock k
    → (k' : Kernel) × (do_mutex_lock_release i k ≡ some k')
      × (view i k' ≡ give_up k.pcb (view i k))
      × ((j : ℕ) → i ≢ j → view j k' ≡ view j k)
      × NoIdleLock k'
      × IsStopped cpu k'
release_refines cpu i k v n = go (k.queue (mlock_queue i)) refl
  where
    go :
        (ws : List ℕ)
        → k.queue (mlock_queue i) ≡ ws
        → (k' : Kernel) × (do_mutex_lock_release i k ≡ some k')
          × (view i k' ≡ give_up k.pcb (view i k))
          × ((j : ℕ) → i ≢ j → view j k' ≡ view j k)
          × NoIdleLock k'
          × IsStopped cpu k'
    go [] e =
        let (k', r, s, p) = release_empty i k n e in
        (k', r, s.this, s.others, s.no_idle, IsStopped-same cpu k k' p v)
    go (h ∷ hs) e =
        let (r, s) = release_cons i h hs k v.quiet.linked n e in
        let o =
          IsStopped-same cpu k (set_owner i (k.pcb h).pid k)
            (record { queue = refl; core = refl; pcb = refl }) v in
        (
          passed i h k,
          r,
          s.this,
          s.others,
          s.no_idle,
          unblocked-IsStopped cpu h (mlock_queue i) (set_owner i (k.pcb h).pid k)
              (rw e (ground arith)) o,
        )
