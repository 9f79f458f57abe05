-- ===== src/Kernel/Conditions/Broadcast.antt =====
-- do_condition_broadcast of kernel/locking/lock.c.
use oslab_riscv.Prelude.{
  ℕ, zero, suc, ◌+◌, ◌<◌, ◌≡◌, refl, ap, ◌∙◌, some, List, [], ◌∷◌, length, count, arith,
}
use oslab_riscv.Prelude.Int.{pos}
use oslab_riscv.Kernel.{
  Pcb, task_blocked, LockStatus, unlocked, locked, QueueId, ready_queue, condition_queue,
  mlock_queue, Kernel,
}
use oslab_riscv.Kernel.Queue.{add_queue, del_queue}
use oslab_riscv.Kernel.Queue.Linked.{IsLinked}
use oslab_riscv.Kernel.Sched.{do_scheduler}
use oslab_riscv.Kernel.Sched.Placed.{
  IsPlaced, IsPlaced-same, IsPlaced-IsStopped, do_scheduler-IsPlaced,
}
use oslab_riscv.Kernel.Sched.Held.{
  IsDue, KeepsAll, IsDue-moved, IsDue-moved_unmarked, KeepsAll-then,
}
use oslab_riscv.Kernel.Sched.Calls.{remove-head, moved-IsPlaced, set_status-IsPlaced}
use oslab_riscv.Kernel.Mutexes.Refine.{LockView, view, ask}
use oslab_riscv.Kernel.Conditions.{pass_on, pass_all, do_condition_broadcast}

-- All the waiters ask for the lock, one after the other.
abbrev pub ask_all : (ℕ → Pcb) → List ℕ → LockView → LockView
ask_all pcb [] v = v
ask_all pcb (h ∷ hs) v = ask_all pcb hs (ask h (pcb h).pid v)

pass_on-IsPlaced :
    (m h : ℕ) (q : QueueId) (k : Kernel)
    → 0 < count h (k.queue q)
    → IsPlaced k
    → IsPlaced (pass_on m h (del_queue h k))
pass_on-IsPlaced m h q k n v = go (k.mlocks m).lock refl
  where
    go : (s : LockStatus) → (k.mlocks m).lock ≡ s → IsPlaced (pass_on m h (del_queue h k))
    go unlocked e = rw e (
        IsPlaced-same (add_queue ready_queue h (del_queue h k)) _
          (record { queue = refl; core = refl; pcb = refl }) (moved-IsPlaced h q ready_queue k n v))
    go locked e = rw e (
        set_status-IsPlaced h task_blocked (add_queue (mlock_queue m) h (del_queue h k))
          (moved-IsPlaced h q (mlock_queue m) k n v))

pass_on-IsDue :
    (cpu m h g : ℕ) (k : Kernel) → IsDue cpu g k → IsDue cpu g (pass_on m h (del_queue h k))
pass_on-IsDue cpu m h g k d = go (k.mlocks m).lock refl
  where
    go : (s : LockStatus) → (k.mlocks m).lock ≡ s → IsDue cpu g (pass_on m h (del_queue h k))
    go unlocked e = rw e (IsDue-moved_unmarked cpu ready_queue h g k d)
    go locked e = rw e (IsDue-moved cpu (mlock_queue m) h g task_blocked k d)

-- Nobody waits for this lock while it is free.
abbrev IsBusy : ℕ → Kernel → Type 0
IsBusy m k = (k.mlocks m).lock ≡ unlocked → k.queue (mlock_queue m) ≡ []

pass_on-view :
    (m i h : ℕ) (hs : List ℕ) (k : Kernel)
    → IsLinked k.queue
    → k.queue (condition_queue i) ≡ h ∷ hs
    → IsBusy m k
    → let k' = pass_on m h (del_queue h k) in
      (view m k' ≡ ask h (k.pcb h).pid (view m k))
      × IsBusy m k'
      × (k'.queue (condition_queue i) ≡ hs)
      × ((g : ℕ) → (k'.pcb g).pid ≡ (k.pcb g).pid)
pass_on-view m i h hs k v e b =
    let (here, there) = remove-head (condition_queue i) k h hs v e in
    let t = there (mlock_queue m) (λ p. cc) in
    (ground (arith, t, b), ground (arith, t, b), ground (arith, here), λ g. ground arith)

ask_all_congr :
    (p p' : ℕ → Pcb) (hs : List ℕ) (v : LockView)
    → ((g : ℕ) → (p' g).pid ≡ (p g).pid)
    → ask_all p' hs v ≡ ask_all p hs v
ask_all_congr p p' [] v same = refl
ask_all_congr p p' (h ∷ hs) v same = rw (same h) (ask_all_congr p p' hs _ same)

record PassedAll (m i : ℕ) (hs : List ℕ) (k k' : Kernel) : Type 0 where
  view_of : view m k' ≡ ask_all k.pcb hs (view m k)
  empty : k'.queue (condition_queue i) ≡ []
  placed : IsPlaced k'
  due : (cpu g : ℕ) → IsDue cpu g k → IsDue cpu g k'

pass_all-PassedAll :
    (n m i : ℕ) (hs : List ℕ) (k : Kernel)
    → length hs < n
    → k.queue (condition_queue i) ≡ hs
    → IsPlaced k
    → IsBusy m k
    → (k' : Kernel) × (pass_all n i (pos m) k ≡ some k') × PassedAll m i hs k k'
unfolding pass_all
pass_all-PassedAll zero m i hs k f e v b = absurd (omega arith)
pass_all-PassedAll (suc n) m i [] k f e v b =
    (k, rw (e, pass_all) refl, record { view_of = refl; empty = e; placed = v; due = λ cpu g d. d })
pass_all-PassedAll (suc n) m i (h ∷ hs) k f e v b =
    let (w, b', q, same) = pass_on-view m i h hs k v.quiet.linked e b in
    let k1 = pass_on m h (del_queue h k) in
    let v1 = pass_on-IsPlaced m h (condition_queue i) k (rw e (ground arith)) v in
    let (k', r, p) = pass_all-PassedAll n m i hs k1 (omega arith) q v1 b' in
    (
      k',
      rw (e, pass_all) r,
      record {
        view_of =
            p.view_of ∙ (ask_all_congr k.pcb k1.pcb hs (view m k1) same ∙ ap (ask_all k.pcb hs) w);
        empty = p.empty;
        placed = p.placed;
        due = λ cpu g d. p.due cpu g (pass_on-IsDue cpu m h g k d);
      },
    )

-- On core 0 or 1, with no process in two places, and nobody waiting for the condition's mutex if
-- that is free, `do_condition_broadcast` returns; before it calls `do_scheduler` all the waiters,
-- in order, have asked for the mutex, as `do_mutex_lock_acquire` would, and nobody waits for the
-- condition any more; in the end no process is in two places, and none is lost: each that was linked
-- in a queue or ran on the other core, and the caller if it was marked as running and its number is
-- not 0, is linked in a queue or runs on a core.
pub do_condition_broadcast-asks :
    (cpu now i m : ℕ) (k : Kernel)
    → cpu < 2
    → IsPlaced k
    → (k.conditions i).lock_idx ≡ pos m
    → ((k.mlocks m).lock ≡ unlocked → k.queue (mlock_queue m) ≡ [])
    → (k1 : Kernel) × (do_condition_broadcast cpu now i k ≡ some (do_scheduler cpu now k1))
      × (view m k1 ≡ ask_all k.pcb (k.queue (condition_queue i)) (view m k))
      × (k1.queue (condition_queue i) ≡ [])
      × IsPlaced (do_scheduler cpu now k1)
      × KeepsAll cpu k (do_scheduler cpu now k1)
unfolding do_condition_broadcast
do_condition_broadcast-asks cpu now i m k l v c b =
    let hs = k.queue (condition_queue i) in
    let (k1, r, p) = pass_all-PassedAll (length hs + 1) m i hs k (omega arith) refl v b in
    (
      k1,
      rw (c, r) refl,
      p.view_of,
      p.empty,
      do_scheduler-IsPlaced cpu now l (IsPlaced-IsStopped cpu l p.placed),
      KeepsAll-then cpu now k k1 l (p.due cpu),
    )
