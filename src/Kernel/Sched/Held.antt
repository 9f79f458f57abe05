-- ===== src/Kernel/Sched/Held.antt =====
-- No process is lost: what is linked in a queue, or runs, still is or does after a call.
use oslab_riscv.Prelude.{
  ℕ, ◌<◌, ◌≡◌, ◌≢◌, ◌⊎◌, inl, inr, Bool-cases, Option-cases, true, List, [], ◌∷◌, ◌==◌, count,
  count-append, count-remove_ne, leb, arith,
}
use oslab_riscv.Prelude.Int.{pos}
use oslab_riscv.Kernel.{
  Status, task_running, task_ready, Pcb, QueueId, ready_queue, sleep_queue, Kernel,
}
use oslab_riscv.Kernel.Queue.{set_status, add_queue, del_queue}
use oslab_riscv.Kernel.Sched.{
  wake_one, wake, check_sleeping, goes_back, pick, requeue, dispatch, choose, do_scheduler,
}
use oslab_riscv.Kernel.Sched.Placed.{IsPlaced, IsStopped, do_scheduler-IsPlaced}

-- `h` is linked in a queue.
abbrev pub IsIn : ℕ → Kernel → Type 0
IsIn h k = (q : QueueId) × (0 < count h (k.queue q))

-- `h` is linked in a queue or runs on a core.
abbrev pub IsHeld : ℕ → Kernel → Type 0
IsHeld h k = IsIn h k ⊎ ((c : ℕ) × (c < 2) × (k.core_running c ≡ h))

-- `h` is marked as running and is not an idle process.
abbrev pub IsActive : ℕ → Kernel → Type 0
IsActive h k = ((k.pcb h).status ≡ task_running) × ((k.pcb h).pid ≢ pos 0)

-- What a call of the process on `cpu` must not lose: what is linked in a queue, what runs on the other
-- core, and the caller, unless it is an idle process or no longer marked as running.
abbrev pub IsDue : ℕ → ℕ → Kernel → Type 0
IsDue cpu h k =
    IsIn h k
    ⊎ (((c : ℕ) × (c < 2) × (c ≢ cpu) × (k.core_running c ≡ h))
        ⊎ ((k.core_running cpu ≡ h) × IsActive h k))

-- A call that goes from `k` to `k'` loses none of them.
abbrev pub KeepsAll : ℕ → Kernel → Kernel → Type 0
KeepsAll cpu k k' = (h : ℕ) → IsDue cpu h k → IsHeld h k'

pub IsIn-add_queue : (q : QueueId) (h g : ℕ) (k : Kernel) → IsIn g k → IsIn g (add_queue q h k)
IsIn-add_queue q h g k (r, n) = (r, ground (arith, count-append g (k.queue r) (h ∷ []), n))

pub add_queue-IsIn : (q : QueueId) (h : ℕ) (k : Kernel) → IsIn h (add_queue q h k)
add_queue-IsIn q h k = (q, ground (arith, count-append h (k.queue q) (h ∷ [])))

pub IsIn-del_queue : (h g : ℕ) (k : Kernel) → h ≢ g → IsIn g k → IsIn g (del_queue h k)
IsIn-del_queue h g k ne (r, n) = (r, omega (arith, count-remove_ne h g (k.queue r) ne, n))

pub IsIn-moved :
    (q : QueueId) (h g : ℕ) (k : Kernel) → IsIn g k → IsIn g (add_queue q h (del_queue h k))
IsIn-moved q h g k i = elim (Bool-cases (h == g)) [
  | inl e ↦ let p : h ≡ g = ground (arith, e) in rw (← p) (add_queue-IsIn q h (del_queue h k))
  | inr e ↦ IsIn-add_queue q h g (del_queue h k) (IsIn-del_queue h g k (ground (arith, e)) i)
]

-- A process that enters a queue is held, whatever its status; the others stay as they are.
pub IsDue-queued :
    (cpu : ℕ) (q : QueueId) (h g : ℕ) (s : Status) (k : Kernel)
    → IsDue cpu g k
    → IsDue cpu g (add_queue q h (set_status h s k))
IsDue-queued cpu q h g s k (inl i) = inl (IsIn-add_queue q h g k i)
IsDue-queued cpu q h g s k (inr (inl o)) = inr (inl o)
IsDue-queued cpu q h g s k (inr (inr (e, (a, n)))) = elim (Bool-cases (h == g)) [
  | inl t ↦
      let p : h ≡ g = ground (arith, t) in inl (rw (← p) (add_queue-IsIn q h (set_status h s k)))
  | inr f ↦ inr (inr (e, (ground (arith, f, a), λ z. n (ground (arith, f, z)))))
]

pub IsDue-moved :
    (cpu : ℕ) (q : QueueId) (h g : ℕ) (s : Status) (k : Kernel)
    → IsDue cpu g k
    → IsDue cpu g (add_queue q h (set_status h s (del_queue h k)))
IsDue-moved cpu q h g s k (inl i) = inl (IsIn-moved q h g k i)
IsDue-moved cpu q h g s k (inr (inl o)) = inr (inl o)
IsDue-moved cpu q h g s k (inr (inr (e, a))) =
    IsDue-queued cpu q h g s (del_queue h k) (inr (inr (e, a)))

pub IsDue-moved_unmarked :
    (cpu : ℕ) (q : QueueId) (h g : ℕ) (k : Kernel)
    → IsDue cpu g k
    → IsDue cpu g (add_queue q h (del_queue h k))
IsDue-moved_unmarked cpu q h g k (inl i) = inl (IsIn-moved q h g k i)
IsDue-moved_unmarked cpu q h g k (inr o) = inr o

wake_one-IsDue : (cpu now h g : ℕ) (k : Kernel) → IsDue cpu g k → IsDue cpu g (wake_one now h k)
unfolding wake_one
wake_one-IsDue cpu now h g k d = elim (Bool-cases (leb (k.pcb h).wakeup_time now)) [
  | inl e ↦ rw e (IsDue-moved cpu ready_queue h g task_ready k d)
  | inr e ↦ rw e d
]

wake-IsDue :
    (cpu now g : ℕ) (hs : List ℕ) (k : Kernel) → IsDue cpu g k → IsDue cpu g (wake now hs k)
unfolding wake
wake-IsDue cpu now g [] k d = d
wake-IsDue cpu now g (h ∷ hs) k d =
    wake-IsDue cpu now g hs (wake_one now h k) (wake_one-IsDue cpu now h g k d)

-- After `requeue` all of them are linked, or run on the other core.
abbrev IsSafe : ℕ → ℕ → Kernel → Type 0
IsSafe cpu h k = IsIn h k ⊎ ((c : ℕ) × (c < 2) × (c ≢ cpu) × (k.core_running c ≡ h))

active-goes_back : (p : Pcb) → p.status ≡ task_running → p.pid ≢ pos 0 → goes_back p ≡ true
active-goes_back p s n = ground (arith, s, n)

requeue-IsSafe : (cpu g : ℕ) (k : Kernel) → IsDue cpu g k → IsSafe cpu g (requeue cpu k)
unfolding requeue
requeue-IsSafe cpu g k d =
    let h = k.core_running cpu in
    elim (Bool-cases (goes_back (k.pcb h))) [
      | inl t ↦ rw t (elim d [
        | inl i ↦ inl (IsIn-add_queue ready_queue h g k i)
        | inr (inl o) ↦ inr o
        | inr (inr (e, a)) ↦
            inl (rw (← e) (add_queue-IsIn ready_queue h (set_status h task_ready k)))
      ])
      | inr f ↦ rw f (elim d [
        | inl i ↦ inl i
        | inr (inl o) ↦ inr o
        | inr (inr (e, (s, n))) ↦ let t = active-goes_back (k.pcb g) s n in absurd (cc (f, t))
      ])
    ]

choose-IsHeld : (cpu g : ℕ) (k : Kernel) → cpu < 2 → IsSafe cpu g k → IsHeld g (choose cpu k)
unfolding choose dispatch
choose-IsHeld cpu g k l (inr (c, x, y, z)) =
    elim (Option-cases (pick cpu k.pcb (k.queue ready_queue))) [
      | inl e ↦ rw (e, choose) (inr (c, x, ground (arith, y, z)))
      | inr (h, e) ↦ rw (e, choose) (inr (c, x, ground (arith, y, z)))
    ]
choose-IsHeld cpu g k l (inl i) = elim (Option-cases (pick cpu k.pcb (k.queue ready_queue))) [
  | inl e ↦ rw (e, choose) (inl i)
  | inr (h, e) ↦ elim (Bool-cases (h == g)) [
    | inl t ↦ rw (e, choose) (inr (cpu, l, ground (arith, t)))
    | inr f ↦ rw (e, choose) (inl (IsIn-del_queue h g k (ground (arith, f)) i))
  ]
]

pub do_scheduler-KeepsAll :
    (cpu now : ℕ) (k : Kernel) → cpu < 2 → KeepsAll cpu k (do_scheduler cpu now k)
unfolding do_scheduler check_sleeping
do_scheduler-KeepsAll cpu now k l g d =
    let k1 = wake now (k.queue sleep_queue) k in
    choose-IsHeld cpu g (requeue cpu k1) l
      (requeue-IsSafe cpu g k1 (wake-IsDue cpu now g (k.queue sleep_queue) k d))

-- What comes before `do_scheduler` in a call loses nobody, so the call does not.
pub KeepsAll-then :
    (cpu now : ℕ) (k k' : Kernel)
    → cpu < 2
    → ((h : ℕ) → IsDue cpu h k → IsDue cpu h k')
    → KeepsAll cpu k (do_scheduler cpu now k')
KeepsAll-then cpu now k k' l f h d = do_scheduler-KeepsAll cpu now k' l h (f h d)

-- On core 0 or 1, from a state in which no process is in two places, where the process that runs on
-- the core may be in a queue already if it is not marked as running, `do_scheduler` leaves no process
-- in two places, and loses none: each that was linked in a queue or ran on the other core, and the one
-- that ran on this core if it is marked as running and its number is not 0, is linked in a queue or
-- runs on a core.
pub do_scheduler-IsKept :
    (cpu now : ℕ) (k : Kernel)
    → cpu < 2
    → IsStopped cpu k
    → IsPlaced (do_scheduler cpu now k) × KeepsAll cpu k (do_scheduler cpu now k)
do_scheduler-IsKept cpu now k l v =
    (do_scheduler-IsPlaced cpu now l v, do_scheduler-KeepsAll cpu now k l)
