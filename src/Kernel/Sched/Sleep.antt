-- ===== src/Kernel/Sched/Sleep.antt =====
-- check_sleeping of kernel/sched/time.c against a description by two filters.
use oslab_riscv.Prelude.{
  ℕ, suc, ◌+◌, ◌≡◌, ◌≢◌, refl, sym, ap, ◌∙◌, inl, inr, Bool-cases, true, false, List, [], ◌∷◌, ◌++◌,
  count, remove, count-append, remove_of_count_zero, remove-append, arith, leb, if◌then◌else◌,
}
use mathlib.Core.List.{append-nil, append_assoc}
use oslab_riscv.Kernel.{Pcb, QueueId, ready_queue, sleep_queue, eq_queue_iff, Kernel}
use oslab_riscv.Kernel.Queue.Linked.{IsLinked}
use oslab_riscv.Kernel.Sched.{wake_one, wake, check_sleeping}
use oslab_riscv.Kernel.Sched.Placed.{wake_one-IsLinked}

-- The sleepers whose time has come, and the others, each in the order of the queue.
abbrev pub due : ℕ → (ℕ → Pcb) → List ℕ → List ℕ
due now pcb [] = []
due now pcb (h ∷ hs) = if leb (pcb h).wakeup_time now then h ∷ due now pcb hs else due now pcb hs

abbrev pub asleep : ℕ → (ℕ → Pcb) → List ℕ → List ℕ
asleep now pcb [] = []
asleep now pcb (h ∷ hs) =
    if leb (pcb h).wakeup_time now then asleep now pcb hs else h ∷ asleep now pcb hs

record Woken (now : ℕ) (kept hs : List ℕ) (k k' : Kernel) : Type 0 where
  ready : k'.queue ready_queue ≡ k.queue ready_queue ++ due now k.pcb hs
  sleep : k'.queue sleep_queue ≡ kept ++ asleep now k.pcb hs
  other : (q : QueueId) → q ≢ ready_queue → q ≢ sleep_queue → k'.queue q ≡ k.queue q

-- A sleeper is in no other queue, and once in its own.
sleeper-count :
    (h : ℕ) (kept hs : List ℕ) (k : Kernel)
    → IsLinked k.queue
    → k.queue sleep_queue ≡ kept ++ (h ∷ hs)
    → (count h kept ≡ 0)
      × (count h hs ≡ 0)
      × ((q : QueueId) → q ≢ sleep_queue → count h (k.queue q) ≡ 0)
sleeper-count h kept hs k v e =
    let n = v.once h sleep_queue in
    let c : count h (k.queue sleep_queue) ≡ count h kept + suc (count h hs) =
      rw e (ground (arith, count-append h kept (h ∷ hs))) in
    (omega arith, omega arith, λ q ne. ground (arith, v.apart h q sleep_queue))

-- The other queues, once the sleeper is out of its own.
wake_one-due :
    (now h : ℕ) (kept hs : List ℕ) (k : Kernel)
    → IsLinked k.queue
    → k.queue sleep_queue ≡ kept ++ (h ∷ hs)
    → leb (k.pcb h).wakeup_time now ≡ true
    → let k' = wake_one now h k in
      (k'.queue ready_queue ≡ k.queue ready_queue ++ (h ∷ []))
      × (k'.queue sleep_queue ≡ kept ++ hs)
      × ((q : QueueId) → q ≢ ready_queue → q ≢ sleep_queue → k'.queue q ≡ k.queue q)
unfolding wake_one
wake_one-due now h kept hs k v e t =
    let (a, b, c) = sleeper-count h kept hs k v e in
    let out : remove h (k.queue sleep_queue) ≡ kept ++ hs =
      rw (e, remove-append h kept (h ∷ hs), remove_of_count_zero h kept a)
        (ground (arith, remove_of_count_zero h hs b)) in
    rw t (
      ap (λ r. r ++ (h ∷ [])) (remove_of_count_zero h _ (c ready_queue (λ p. cc))),
      out,
      λ q nr ns.
          ground (arith, eq_queue_iff ready_queue q, remove_of_count_zero h (k.queue q), c q ns),
    )

wake_one-early :
    (now h : ℕ) (k : Kernel) → leb (k.pcb h).wakeup_time now ≡ false → wake_one now h k ≡ k
unfolding wake_one
wake_one-early now h k f = rw f

wake_one-wakeup_time :
    (now h g : ℕ) (k : Kernel) → ((wake_one now h k).pcb g).wakeup_time ≡ (k.pcb g).wakeup_time
unfolding wake_one
wake_one-wakeup_time now h g k = ground arith

due_congr :
    (now : ℕ) (p p' : ℕ → Pcb) (hs : List ℕ)
    → ((g : ℕ) → (p' g).wakeup_time ≡ (p g).wakeup_time)
    → (due now p' hs ≡ due now p hs) × (asleep now p' hs ≡ asleep now p hs)
due_congr now p p' [] same = (refl, refl)
due_congr now p p' (h ∷ hs) same = ground (arith, same h, due_congr now p p' hs same)

wake-Woken :
    (now : ℕ) (kept hs : List ℕ) (k : Kernel)
    → IsLinked k.queue
    → k.queue sleep_queue ≡ kept ++ hs
    → Woken now kept hs k (wake now hs k)
unfolding wake
wake-Woken now kept [] k v e = record {
  ready = sym (append-nil _);
  sleep = e;
  other = λ q a b. refl;
}
wake-Woken now kept (h ∷ hs) k v e = elim (Bool-cases (leb (k.pcb h).wakeup_time now)) [
  | inl t ↦
      let (a, b, c) = wake_one-due now h kept hs k v e t in
      let r = wake-Woken now kept hs (wake_one now h k) (wake_one-IsLinked now h k v) b in
      let (d, s) =
        due_congr now k.pcb (wake_one now h k).pcb hs (λ g. wake_one-wakeup_time now h g k) in
      record {
        ready =
            ground (arith, r.ready, append_assoc (k.queue ready_queue) (h ∷ []) (due now k.pcb hs));
        sleep = ground (arith, r.sleep);
        other = λ q nr ns. r.other q nr ns ∙ c q nr ns;
      }
  | inr f ↦
      let r = wake-Woken now (kept ++ (h ∷ [])) hs k v (e ∙ sym (append_assoc kept (h ∷ []) hs)) in
      rw (wake_one-early now h k f) (record {
        ready = ground (arith, r.ready);
        sleep = ground (arith, r.sleep, append_assoc kept (h ∷ []) (asleep now k.pcb hs));
        other = r.other;
      })
]

-- With each process in at most one queue, `check_sleeping` moves exactly the sleepers whose time
-- has come to the end of the ready queue, in their order, leaves the others asleep in theirs, and
-- touches no other queue.
pub check_sleeping-filters :
    (now : ℕ) (k : Kernel)
    → IsLinked k.queue
    → let k' = check_sleeping now k in
      let sleepers = k.queue sleep_queue in
      (k'.queue ready_queue ≡ k.queue ready_queue ++ due now k.pcb sleepers)
      × (k'.queue sleep_queue ≡ asleep now k.pcb sleepers)
      × ((q : QueueId) → q ≢ ready_queue → q ≢ sleep_queue → k'.queue q ≡ k.queue q)
unfolding check_sleeping
check_sleeping-filters now k v =
    let w = wake-Woken now [] (k.queue sleep_queue) k v refl in (w.ready, w.sleep, w.other)
