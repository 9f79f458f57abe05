-- ===== src/Kernel/Sched/Frame.antt =====
-- What do_scheduler of kernel/sched/sched.c leaves alone.
use oslab_riscv.Prelude.{
  ℕ, ◌<◌, ◌≡◌, ◌≢◌, refl, ◌∙◌, inl, inr, Bool-cases, Option-cases, List, [], ◌∷◌,
  remove_of_count_zero, arith, leb,
}
use oslab_riscv.Kernel.{QueueId, ready_queue, sleep_queue, eq_queue_iff, Kernel}
use oslab_riscv.Kernel.Queue.Linked.{IsLinked}
use oslab_riscv.Kernel.Sched.{
  wake_one, wake, check_sleeping, goes_back, pick, requeue, dispatch, choose, do_scheduler,
}
use oslab_riscv.Kernel.Sched.Placed.{
  IsStopped, requeue-IsLeft, check_sleeping-IsStopped, pick-count,
}
use oslab_riscv.Kernel.Sched.Sleep.{check_sleeping-filters}

-- The lock tables are the same in both states.
pub record SameTables (k k' : Kernel) : Type 0 where
  pub mlocks : k'.mlocks ≡ k.mlocks
  pub barriers : k'.barriers ≡ k.barriers
  pub conditions : k'.conditions ≡ k.conditions
  pub mboxs : k'.mboxs ≡ k.mboxs

same_tables : (k : Kernel) → SameTables k k
same_tables k = record { mlocks = refl; barriers = refl; conditions = refl; mboxs = refl }

wake_one-SameTables : (now h : ℕ) (k : Kernel) → SameTables k (wake_one now h k)
unfolding wake_one
wake_one-SameTables now h k = elim (Bool-cases (leb (k.pcb h).wakeup_time now)) [
  | inl t ↦ rw t (record { mlocks = refl; barriers = refl; conditions = refl; mboxs = refl })
  | inr f ↦ rw f (same_tables k)
]

SameTables-trans : {k k' k'' : Kernel} → SameTables k k' → SameTables k' k'' → SameTables k k''
SameTables-trans a b = record {
  mlocks = b.mlocks ∙ a.mlocks;
  barriers = b.barriers ∙ a.barriers;
  conditions = b.conditions ∙ a.conditions;
  mboxs = b.mboxs ∙ a.mboxs;
}

wake-SameTables : (now : ℕ) (hs : List ℕ) (k : Kernel) → SameTables k (wake now hs k)
unfolding wake
wake-SameTables now [] k = same_tables k
wake-SameTables now (h ∷ hs) k =
    SameTables-trans (wake_one-SameTables now h k) (wake-SameTables now hs (wake_one now h k))

requeue-SameTables : (cpu : ℕ) (k : Kernel) → SameTables k (requeue cpu k)
unfolding requeue
requeue-SameTables cpu k = elim (Bool-cases (goes_back (k.pcb (k.core_running cpu)))) [
  | inl t ↦ rw t (record { mlocks = refl; barriers = refl; conditions = refl; mboxs = refl })
  | inr f ↦ rw f (same_tables k)
]

choose-SameTables : (cpu : ℕ) (k : Kernel) → SameTables k (choose cpu k)
unfolding choose dispatch
choose-SameTables cpu k = elim (Option-cases (pick cpu k.pcb (k.queue ready_queue))) [
  | inl e ↦
      rw (e, choose) (record { mlocks = refl; barriers = refl; conditions = refl; mboxs = refl })
  | inr (h, e) ↦
      rw (e, choose) (record { mlocks = refl; barriers = refl; conditions = refl; mboxs = refl })
]

-- `do_scheduler` writes to none of the lock tables.
pub do_scheduler-SameTables : (cpu now : ℕ) (k : Kernel) → SameTables k (do_scheduler cpu now k)
unfolding do_scheduler check_sleeping
do_scheduler-SameTables cpu now k =
    let k1 = wake now (k.queue sleep_queue) k in
    SameTables-trans (wake-SameTables now (k.queue sleep_queue) k)
      (SameTables-trans (requeue-SameTables cpu k1) (choose-SameTables cpu (requeue cpu k1)))

requeue-queue :
    (cpu : ℕ) (k : Kernel) (q : QueueId) → q ≢ ready_queue → (requeue cpu k).queue q ≡ k.queue q
unfolding requeue
requeue-queue cpu k q ne = ground (arith, eq_queue_iff ready_queue q)

choose-queue :
    (cpu : ℕ) (k : Kernel) (q : QueueId)
    → IsLinked k.queue
    → q ≢ ready_queue
    → (choose cpu k).queue q ≡ k.queue q
unfolding choose dispatch
choose-queue cpu k q v ne = elim (Option-cases (pick cpu k.pcb (k.queue ready_queue))) [
  | inl e ↦ rw (e, choose) refl
  | inr (h, e) ↦
      rw (e, choose)
        (remove_of_count_zero h (k.queue q)
          (ground (arith, pick-count cpu k.pcb (k.queue ready_queue) h e, v.apart h q ready_queue)))
]

-- On core 0 or 1, from a state in which no process is in two places, where the process that runs
-- on the core may be in a queue already if it is not marked as running, `do_scheduler` changes no
-- queue but the ready queue and the sleep queue.
pub do_scheduler-queue :
    (cpu now : ℕ) (k : Kernel) (q : QueueId)
    → cpu < 2
    → IsStopped cpu k
    → q ≢ ready_queue
    → q ≢ sleep_queue
    → (do_scheduler cpu now k).queue q ≡ k.queue q
unfolding do_scheduler
do_scheduler-queue cpu now k q l v nr ns =
    let k1 = check_sleeping now k in
    let s = check_sleeping-IsStopped cpu now k v in
    choose-queue cpu (requeue cpu k1) q (requeue-IsLeft cpu k1 l s).quiet.linked nr
    ∙ (requeue-queue cpu k1 q nr ∙ (check_sleeping-filters now k v.quiet.linked).2 q nr ns)
