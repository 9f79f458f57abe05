-- ===== src/Kernel/Barriers/Cycle.antt =====
-- do_barrier_wait of kernel/locking/lock.c: the count and the queue through a whole cycle.
use oslab_riscv.Prelude.{
  ℕ, zero, suc, ◌+◌, ◌<◌, ◌≡◌, ◌≢◌, refl, sym, ap, ◌∙◌, some, List, [], ◌∷◌, ◌++◌, length,
  length-append, arith,
}
use mathlib.Core.List.{append-nil, append_assoc}
use oslab_riscv.Prelude.Int.{pos, eq_ℤ, succ_ℤ, pred_ℤ}
use oslab_riscv.Kernel.{task_blocked, task_ready, ready_queue, barrier_queue, Kernel}
use oslab_riscv.Kernel.Queue.{set_status, add_queue}
use oslab_riscv.Kernel.Sched.{idle, do_scheduler}
use oslab_riscv.Kernel.Sched.Placed.{
  IsPlaced, IsPlaced-same, IsStopped-same, IsPlaced-IsStopped, do_scheduler-IsPlaced,
}
use oslab_riscv.Kernel.Sched.Held.{IsDue, KeepsAll, IsDue-moved, IsDue-queued, KeepsAll-then}
use oslab_riscv.Kernel.Sched.Calls.{
  running-IsLoose, blocked-IsStopped, unblocked, unblocked-IsPlaced, do_unblock-cons, remove-head,
}
use oslab_riscv.Kernel.Sched.Frame.{do_scheduler-SameTables, do_scheduler-queue}
use oslab_riscv.Kernel.Barriers.{add_num, release_all, arrive, do_barrier_wait}

-- What the loop of the last arrival has done, started at `k` with `hs` in the queue.
record Opened (i m : ℕ) (hs : List ℕ) (k k' : Kernel) : Type 0 where
  empty : k'.queue (barrier_queue i) ≡ []
  ready : k'.queue ready_queue ≡ k.queue ready_queue ++ hs
  num : (k'.barriers i).barrier_num ≡ pos (m + length hs)
  core : k'.core_running ≡ k.core_running
  placed : IsPlaced k'
  due : (cpu g : ℕ) → IsDue cpu g k → IsDue cpu g k'

release_all-Opened :
    (n i m : ℕ) (hs : List ℕ) (k : Kernel)
    → length hs < n
    → k.queue (barrier_queue i) ≡ hs
    → (k.barriers i).barrier_num ≡ pos m
    → IsPlaced k
    → (k' : Kernel) × (release_all n i k ≡ some k') × Opened i m hs k k'
unfolding release_all
release_all-Opened zero i m hs k f e b v = absurd (omega arith)
release_all-Opened (suc n) i m [] k f e b v = (
  k,
  rw (e, release_all) refl,
  record {
    empty = e;
    ready = sym (append-nil _);
    num = ground arith;
    core = refl;
    placed = v;
    due = λ cpu g d. d;
  },
)
release_all-Opened (suc n) i m (h ∷ hs) k f e b v =
    let q = barrier_queue i in
    let k1 = unblocked h k in
    let k2 = add_num succ_ℤ i k1 in
    let (here, there) = remove-head q k h hs v.quiet.linked e in
    let v1 = unblocked-IsPlaced h q k (rw e (ground arith)) v in
    let v2 = IsPlaced-same k1 k2 (record { queue = refl; core = refl; pcb = refl }) v1 in
    let (k', r, o) = release_all-Opened n i (m + 1) hs k2 (omega arith) here (ground arith) v2 in
    (
      k',
      rw (e, release_all) (rw (do_unblock-cons q k h hs e) r),
      record {
        empty = o.empty;
        ready =
            o.ready
            ∙ (rw (there ready_queue (λ p. cc)) (append_assoc (k.queue ready_queue) (h ∷ []) hs));
        num = o.num ∙ ground arith;
        core = o.core;
        placed = o.placed;
        due = λ cpu g d. o.due cpu g (IsDue-moved cpu ready_queue h g task_ready k d);
      },
    )

-- The barrier is set up for `goal` processes: those that wait and those that are still to come.
pub record Counts (i goal : ℕ) (k : Kernel) : Type 0 where
  pub to_come : ℕ
  pub num : (k.barriers i).barrier_num ≡ pos (suc to_come)
  pub total : suc to_come + length (k.queue (barrier_queue i)) ≡ goal

arrive_last :
    (cpu i : ℕ) (k : Kernel)
    → cpu < 2
    → IsPlaced k
    → (k.barriers i).barrier_num ≡ pos 1
    → (k' : Kernel) × (arrive cpu i k ≡ some k') × Opened i 1 (k.queue (barrier_queue i)) k k'
unfolding arrive
arrive_last cpu i k l v e =
    let hs = k.queue (barrier_queue i) in
    let (k', r, o) = release_all-Opened (length hs + 1) i 1 hs k (omega arith) refl e v in
    (k', rw (e, eq_ℤ) r, o)

arrive_early :
    (cpu i m : ℕ) (k : Kernel)
    → (k.barriers i).barrier_num ≡ pos (suc (suc m))
    → let h = k.core_running cpu in
      arrive cpu i k
      ≡ some (add_num pred_ℤ i (add_queue (barrier_queue i) h (set_status h task_blocked k)))
unfolding arrive
arrive_early cpu i m k e = rw (e, eq_ℤ) (ground arith)

-- On core 0 or 1, with no process in two places, the last arrival at a barrier that is set up for
-- `goal` processes opens it: before `do_scheduler` is called all waiters stand, in order, at the
-- end of the ready queue, nobody is left in the barrier's queue, the count is as it was when nobody
-- had come yet, and no process is in two places.
pub arrive-opens :
    (cpu i goal : ℕ) (k : Kernel)
    → cpu < 2
    → IsPlaced k
    → (c : Counts i goal k) → c.to_come ≡ 0
    → (k' : Kernel) × (arrive cpu i k ≡ some k')
      × (k'.queue (barrier_queue i) ≡ [])
      × (k'.queue ready_queue ≡ k.queue ready_queue ++ k.queue (barrier_queue i))
      × ((k'.barriers i).barrier_num ≡ pos goal)
      × IsPlaced k'
arrive-opens cpu i goal k l v c z =
    let (k', r, o) = arrive_last cpu i k l v (rw z at c.num) in
    let g : 1 + length (k.queue (barrier_queue i)) ≡ goal = omega (arith, c.total) in
    (k', r, o.empty, o.ready, o.num ∙ ap pos g, o.placed)

wait_last :
    (cpu now i goal : ℕ) (k : Kernel)
    → cpu < 2
    → IsPlaced k
    → (c : Counts i goal k) → c.to_come ≡ 0
    → (k' : Kernel) × (do_barrier_wait cpu now i k ≡ some k')
      × Counts i goal k'
      × IsPlaced k'
      × KeepsAll cpu k k'
unfolding do_barrier_wait
wait_last cpu now i goal k l v c z =
    let (k1, r, o) = arrive_last cpu i k l v (rw z at c.num) in
    let e = o.empty in
    let p = o.placed in
    let n = o.num in
    let s = IsPlaced-IsStopped cpu l p in
    let t = do_scheduler-SameTables cpu now k1 in
    let f = do_scheduler-queue cpu now k1 (barrier_queue i) l s (λ x. cc) (λ x. cc) in
    (
      do_scheduler cpu now k1,
      rw r refl,
      record {
        to_come = length (k.queue (barrier_queue i));
        num = rw t.barriers (n ∙ ap pos (omega arith));
        total = rw (f, e) (omega (arith, c.total));
      },
      do_scheduler-IsPlaced cpu now l s,
      KeepsAll-then cpu now k k1 l (o.due cpu),
    )

wait_early :
    (cpu now i goal m : ℕ) (k : Kernel)
    → cpu < 2
    → IsPlaced k
    → k.core_running cpu ≢ idle cpu
    → (c : Counts i goal k) → c.to_come ≡ suc m
    → (k' : Kernel) × (do_barrier_wait cpu now i k ≡ some k')
      × (k'.queue (barrier_queue i) ≡ k.queue (barrier_queue i) ++ (k.core_running cpu ∷ []))
      × Counts i goal k'
      × IsPlaced k'
      × KeepsAll cpu k k'
unfolding do_barrier_wait
wait_early cpu now i goal m k l v ne c z =
    let h = k.core_running cpu in
    let q = barrier_queue i in
    let k1 = add_queue q h (set_status h task_blocked k) in
    let k2 = add_num pred_ℤ i k1 in
    let o = running-IsLoose cpu k l v ne in
    let s1 = blocked-IsStopped cpu h q k o (IsPlaced-IsStopped cpu l v) in
    let s = IsStopped-same cpu k1 k2 (record { queue = refl; core = refl; pcb = refl }) s1 in
    let t = do_scheduler-SameTables cpu now k2 in
    let f : (do_scheduler cpu now k2).queue q ≡ k.queue q ++ (h ∷ []) =
      do_scheduler-queue cpu now k2 q l s (λ x. cc) (λ x. cc) ∙ ground arith in
    let n : (k.barriers i).barrier_num ≡ pos (suc (suc m)) = rw z at c.num in
    (
      do_scheduler cpu now k2,
      rw (arrive_early cpu i m k n) refl,
      f,
      record {
        to_come = m;
        num = rw t.barriers (ground (arith, n));
        total = rw f (omega (arith, length-append (k.queue q) (h ∷ []), c.total));
      },
      do_scheduler-IsPlaced cpu now l s,
      KeepsAll-then cpu now k k2 l (λ g. IsDue-queued cpu q h g task_blocked k),
    )

-- On core 0 or 1, with no process in two places, `do_barrier_wait` on a barrier that is set up for
-- `goal` processes, called by a process that is not the idle one, returns; the processes that wait and
-- those still to come make up the goal again, no process is in two places, and none is lost: each that
-- was linked in a queue or ran on the other core, and the caller if it was marked as running and its
-- number is not 0, is linked in a queue or runs on a core.
pub do_barrier_wait-Counts :
    (cpu now i goal : ℕ) (k : Kernel)
    → cpu < 2
    → IsPlaced k
    → k.core_running cpu ≢ idle cpu
    → Counts i goal k
    → (k' : Kernel) × (do_barrier_wait cpu now i k ≡ some k')
      × Counts i goal k'
      × IsPlaced k'
      × KeepsAll cpu k k'
do_barrier_wait-Counts cpu now i goal k l v ne c = go c.to_come refl
  where
    go :
        (n : ℕ)
        → c.to_come ≡ n
        → (k' : Kernel) × (do_barrier_wait cpu now i k ≡ some k')
          × Counts i goal k'
          × IsPlaced k'
          × KeepsAll cpu k k'
    go zero z = wait_last cpu now i goal k l v c z
    go (suc m) z =
        let (k', r, q, c', p, a) = wait_early cpu now i goal m k l v ne c z in (k', r, c', p, a)
