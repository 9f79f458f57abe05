-- ===== src/Kernel/Conditions/Signal.antt =====
-- do_condition_wait and do_condition_signal of kernel/locking/lock.c.
use oslab_riscv.Prelude.{
  ℕ, ◌<◌, ◌≡◌, ◌≢◌, refl, ap, ◌∙◌, some, List, [], ◌∷◌, ◌++◌, count, subst, arith,
}
use oslab_riscv.Prelude.Int.{pos, minus_one}
use oslab_riscv.Kernel.{
  Pcb, task_blocked, task_ready, unlocked, locked, QueueId, ready_queue, condition_queue,
  mlock_queue, Kernel,
}
use oslab_riscv.Kernel.Queue.{set_status, add_queue, del_queue}
use oslab_riscv.Kernel.Queue.Linked.{IsFree, IsLinked, del_queue-IsFree}
use oslab_riscv.Kernel.Sched.{idle, do_scheduler}
use oslab_riscv.Kernel.Sched.Placed.{
  IsPlaced, IsStopped-same, IsPlaced-IsStopped, do_scheduler-IsPlaced,
}
use oslab_riscv.Kernel.Sched.Held.{IsDue, KeepsAll, IsDue-moved, IsDue-queued, KeepsAll-then}
use oslab_riscv.Kernel.Sched.Frame.{do_scheduler-queue}
use oslab_riscv.Kernel.Sched.Calls.{
  running-IsLoose, blocked-IsStopped, unblocked, do_unblock-cons, remove-head,
}
use oslab_riscv.Kernel.Mutexes.{
  set_owner, spin_lock_acquire, spin_lock_release, do_mutex_lock_release,
}
use oslab_riscv.Kernel.Mutexes.Refine.{LockView, NoIdleLock, view, give_up, release_refines}
use oslab_riscv.Kernel.Conditions.{
  set_condition, start_wait, do_condition_wait, do_condition_signal,
}

give_up_congr :
    (p p' : ℕ → Pcb) (v : LockView)
    → ((g : ℕ) → (p' g).pid ≡ (p g).pid)
    → give_up p' v ≡ give_up p v
give_up_congr p p' LockView.free same = refl
give_up_congr p p' (LockView.held o []) same = refl
give_up_congr p p' (LockView.held o (w ∷ ws)) same = ap (λ o. LockView.held o ws) (same w)

-- What a release leaves alone, and that it loses nobody.
record ReleaseFrame (m : ℕ) (k k' : Kernel) : Type 0 where
  due : (cpu g : ℕ) → IsDue cpu g k → IsDue cpu g k'
  queue : (q : QueueId) → q ≢ mlock_queue m → q ≢ ready_queue → k'.queue q ≡ k.queue q
  status : (g : ℕ) → count g (k.queue (mlock_queue m)) ≡ 0 → (k'.pcb g).status ≡ (k.pcb g).status
  conditions : k'.conditions ≡ k.conditions

release-ReleaseFrame :
    (m : ℕ) (k k' : Kernel)
    → IsLinked k.queue
    → do_mutex_lock_release m k ≡ some k'
    → ReleaseFrame m k k'
unfolding do_mutex_lock_release
release-ReleaseFrame m k k' v r = go (k.queue (mlock_queue m)) refl
  where
    go : (ws : List ℕ) → k.queue (mlock_queue m) ≡ ws → ReleaseFrame m k k'
    go [] e =
        let p : set_owner m minus_one (spin_lock_release m k) ≡ k' =
          cc (rw (e, do_mutex_lock_release) at r) in
        subst (ReleaseFrame m k) p (record {
          due = λ cpu g d. d;
          queue = λ q a b. refl;
          status = λ g z. refl;
          conditions = refl;
        })
    go (h ∷ hs) e =
        let a = set_owner m (k.pcb h).pid k in
        let p : unblocked h a ≡ k' =
          cc (do_unblock-cons (mlock_queue m) a h hs e, rw (e, do_mutex_lock_release) at r) in
        let (here, there) = remove-head (mlock_queue m) k h hs v e in
        subst (ReleaseFrame m k) p (record {
          due = λ cpu g d. IsDue-moved cpu ready_queue h g task_ready a d;
          queue = λ q x y. ground (arith, there q x, y);
          status = λ g z. ground (arith, e, z);
          conditions = refl;
        })

-- On core 0 or 1, with no process in two places, and nobody waiting for a free lock,
-- `do_condition_wait`, called by a process that is not the idle one, returns; before `do_scheduler` is
-- called the mutex has been given up, and noted as the condition's, and the caller is marked as
-- blocked; in the end the caller is the last in the condition's queue, no process is in two places,
-- and none is lost: each that was linked in a queue or ran on the other core is linked in a queue or
-- runs on a core.
pub do_condition_wait-waits :
    (cpu now i m : ℕ) (k : Kernel)
    → cpu < 2
    → IsPlaced k
    → k.core_running cpu ≢ idle cpu
    → NoIdleLock k
    → let h = k.core_running cpu in
      (k1 : Kernel) × (k' : Kernel) × (start_wait cpu i m k ≡ some k1)
      × (view m k1 ≡ give_up k.pcb (view m k))
      × ((k1.conditions i).lock_idx ≡ pos m)
      × ((k1.pcb h).status ≡ task_blocked)
      × (do_condition_wait cpu now i m k ≡ some k')
      × (k'.queue (condition_queue i) ≡ k.queue (condition_queue i) ++ (h ∷ []))
      × IsPlaced k'
      × KeepsAll cpu k k'
unfolding do_condition_wait start_wait
do_condition_wait-waits cpu now i m k l v ne n =
    let h = k.core_running cpu in
    let q = condition_queue i in
    let a = add_queue q h (set_status h task_blocked k) in
    let b = set_condition i (record (k.conditions i) { lock_idx = pos m }) a in
    let s1 =
      blocked-IsStopped cpu h q k (running-IsLoose cpu k l v ne) (IsPlaced-IsStopped cpu l v) in
    let s = IsStopped-same cpu a b (record { queue = refl; core = refl; pcb = refl }) s1 in
    let (k1, r, w, o, n1, s') = release_refines cpu m b s (λ j u. ground (arith, n j)) in
    let f = release-ReleaseFrame m b k1 s.quiet.linked r in
    let last : b.queue q ≡ k.queue q ++ (h ∷ []) = ground arith in
    (
      k1,
      do_scheduler cpu now k1,
      r,
      w ∙ give_up_congr k.pcb b.pcb (view m k) (λ g. ground arith),
      ap (λ t. (t i).lock_idx) f.conditions ∙ ground arith,
      f.status h (v.out cpu l (mlock_queue m)) ∙ ground arith,
      rw r refl,
      do_scheduler-queue cpu now k1 q l s' (λ x. cc) (λ x. cc)
          ∙ f.queue q (λ x. cc) (λ x. cc)
          ∙ last,
      do_scheduler-IsPlaced cpu now l s',
      KeepsAll-then cpu now k k1 l (λ g d. f.due cpu g (IsDue-queued cpu q h g task_blocked k d)),
    )

-- The lost wakeup: where a blocked process is the first to wait for the condition and the mutex is
-- free, `do_condition_signal` makes that process the owner of the mutex, and leaves it blocked and
-- in no queue.
pub do_condition_signal-lost :
    (cpu now i m h : ℕ) (hs : List ℕ) (k : Kernel)
    → k.queue (condition_queue i) ≡ h ∷ hs
    → (k.conditions i).lock_idx ≡ pos m
    → (k.mlocks m).lock ≡ unlocked
    → (k.pcb h).status ≡ task_blocked
    → (k' : Kernel) × (do_condition_signal cpu now i k ≡ some k')
      × ((k'.mlocks m).lock ≡ locked)
      × ((k'.mlocks m).owner ≡ (k.pcb h).pid)
      × ((k'.pcb h).status ≡ task_blocked)
      × IsFree h k'.queue
unfolding do_condition_signal
do_condition_signal-lost cpu now i m h hs k e c u b =
    let k1 = del_queue h k in
    (
      set_owner m (k.pcb h).pid (spin_lock_acquire m k1),
      ground arith,
      ground arith,
      ground arith,
      b,
      del_queue-IsFree h k,
    )
