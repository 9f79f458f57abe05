-- ===== src/Kernel/Sched/Placed.antt =====
-- No process is in two places: it runs on one core, or is linked in one queue once, or neither.
use oslab_riscv.Prelude.{
  ℕ, ◌<◌, ◌≡◌, ◌≢◌, refl, sym, ◌∙◌, inl, inr, Bool-cases, Option-cases, true, some, List, [], ◌∷◌,
  count, arith, leb,
}
use oslab_riscv.Prelude.Int.{pos}
use oslab_riscv.Kernel.{
  Status, task_running, task_ready, Pcb, QueueId, ready_queue, sleep_queue, Kernel,
}
use oslab_riscv.Kernel.Queue.{set_status, add_queue, del_queue}
use oslab_riscv.Kernel.Queue.Linked.{
  IsFree, IsLinked, IsFree-add_queue, IsFree-del_queue, del_queue-IsFree, IsLinked-del_queue,
  IsLinked-add_queue,
}
use oslab_riscv.Kernel.Sched.{
  wake_one, wake, check_sleeping, idle, goes_back, pick, requeue, dispatch, choose, do_scheduler,
}

-- The queues are disjoint, and an idle process is in none and on no foreign core.
pub record IsQuiet (k : Kernel) : Type 0 where
  pub linked : IsLinked k.queue
  pub idle_free : (c : ℕ) → IsFree (idle c) k.queue
  pub idle_pid : (c : ℕ) → (k.pcb (idle c)).pid ≡ pos 0
  pub cores : (c d : ℕ) → c < 2 → d < 2 → c ≢ d → k.core_running c ≢ k.core_running d
  pub foreign : (c d : ℕ) → c < 2 → d < 2 → c ≢ d → k.core_running c ≢ idle d

-- Between two system calls: what runs is linked nowhere.
pub record IsPlaced (k : Kernel) : Type 0 where
  pub quiet : IsQuiet k
  pub out : (c : ℕ) → c < 2 → IsFree (k.core_running c) k.queue

-- On entry to `do_scheduler` on `cpu`: its process may have been put into a queue already, but
-- then it is not marked as running.
pub record IsStopped (cpu : ℕ) (k : Kernel) : Type 0 where
  pub quiet : IsQuiet k
  pub others : (c : ℕ) → c < 2 → c ≢ cpu → IsFree (k.core_running c) k.queue
  pub own : (k.pcb (k.core_running cpu)).status ≡ task_running → IsFree (k.core_running cpu) k.queue

pub IsPlaced-IsStopped : (cpu : ℕ) {k : Kernel} → cpu < 2 → IsPlaced k → IsStopped cpu k
IsPlaced-IsStopped cpu l v = record {
  quiet = v.quiet;
  others = λ c h ne. v.out c h;
  own = λ _. v.out cpu l;
}

-- The lock tables do not matter, nor does what `satp` holds.
pub record SamePlaces (k k' : Kernel) : Type 0 where
  pub queue : k'.queue ≡ k.queue
  pub core : k'.core_running ≡ k.core_running
  pub pcb : k'.pcb ≡ k.pcb

IsQuiet-same : (k k' : Kernel) → SamePlaces k k' → IsQuiet k → IsQuiet k'
IsQuiet-same k k' s v = record {
  linked = rw s.queue v.linked;
  idle_free = λ c. rw s.queue (v.idle_free c);
  idle_pid = λ c. rw s.pcb (v.idle_pid c);
  cores = λ c d. rw s.core (v.cores c d);
  foreign = λ c d. rw s.core (v.foreign c d);
}

pub IsPlaced-same : (k k' : Kernel) → SamePlaces k k' → IsPlaced k → IsPlaced k'
IsPlaced-same k k' s v = record {
  quiet = IsQuiet-same k k' s v.quiet;
  out = λ c l. rw (s.queue, s.core) (v.out c l);
}

pub IsStopped-same :
    (cpu : ℕ) (k k' : Kernel) → SamePlaces k k' → IsStopped cpu k → IsStopped cpu k'
IsStopped-same cpu k k' s v = record {
  quiet = IsQuiet-same k k' s v.quiet;
  others = λ c l ne. rw (s.queue, s.core) (v.others c l (λ p. ne p));
  own = rw (s.queue, s.core, s.pcb) v.own;
}

pub wake_one-IsLinked :
    (now h : ℕ) (k : Kernel) → IsLinked k.queue → IsLinked (wake_one now h k).queue
unfolding wake_one
wake_one-IsLinked now h k v = elim (Bool-cases (leb (k.pcb h).wakeup_time now)) [
  | inl e ↦ rw e (
      IsLinked-add_queue ready_queue h (del_queue h k) (del_queue-IsFree h k)
        (IsLinked-del_queue h k v))
  | inr e ↦ rw e v
]

wake_one-IsFree :
    (now h g : ℕ) (k : Kernel) → h ≢ g → IsFree g k.queue → IsFree g (wake_one now h k).queue
unfolding wake_one
wake_one-IsFree now h g k ne f q =
    ground
      (arith, IsFree-add_queue ready_queue h g (del_queue h k) ne (IsFree-del_queue h g k f) q, f q)

wake-IsLinked :
    (now : ℕ) (hs : List ℕ) (k : Kernel) → IsLinked k.queue → IsLinked (wake now hs k).queue
unfolding wake
wake-IsLinked now [] k v = v
wake-IsLinked now (h ∷ hs) k v = wake-IsLinked now hs _ (wake_one-IsLinked now h k v)

wake-IsFree :
    (now g : ℕ) (hs : List ℕ) (k : Kernel)
    → count g hs ≡ 0
    → IsFree g k.queue
    → IsFree g (wake now hs k).queue
unfolding wake
wake-IsFree now g [] k z f = f
wake-IsFree now g (h ∷ hs) k z f =
    wake-IsFree now g hs (wake_one now h k) (omega arith)
      (wake_one-IsFree now h g k (ground arith) f)

-- Waking changes no pid and no core, and makes no process run.
pub record SameCores (k k' : Kernel) : Type 0 where
  pub core : (c : ℕ) → k'.core_running c ≡ k.core_running c
  pub pid : (h : ℕ) → (k'.pcb h).pid ≡ (k.pcb h).pid
  pub mask : (h : ℕ) → (k'.pcb h).mask ≡ (k.pcb h).mask
  pub run : (h : ℕ) → (k'.pcb h).status ≡ task_running → (k.pcb h).status ≡ task_running

pub wake_one-SameCores : (now h : ℕ) (k : Kernel) → SameCores k (wake_one now h k)
unfolding wake_one
wake_one-SameCores now h k = record {
  core = λ c. ground arith;
  pid = λ g. ground arith;
  mask = λ g. ground arith;
  run = λ g s. ground arith;
}

pub wake-SameCores : (now : ℕ) (hs : List ℕ) (k : Kernel) → SameCores k (wake now hs k)
unfolding wake
wake-SameCores now [] k = record {
  core = λ c. refl;
  pid = λ h. refl;
  mask = λ h. refl;
  run = λ h e. e;
}
wake-SameCores now (h ∷ hs) k =
    let a = wake_one-SameCores now h k in
    let r = wake-SameCores now hs (wake_one now h k) in
    record {
      core = λ c. r.core c ∙ a.core c;
      pid = λ g. r.pid g ∙ a.pid g;
      mask = λ g. r.mask g ∙ a.mask g;
      run = λ g s. a.run g (r.run g s);
    }

pub check_sleeping-IsStopped :
    (cpu now : ℕ) (k : Kernel) → IsStopped cpu k → IsStopped cpu (check_sleeping now k)
unfolding check_sleeping
check_sleeping-IsStopped cpu now k v =
    let hs = k.queue sleep_queue in
    let same = wake-SameCores now hs k in
    let free = λ (g : ℕ) (f : IsFree g k.queue). wake-IsFree now g hs k (f sleep_queue) f in
    record {
      quiet = record {
        linked = wake-IsLinked now hs k v.quiet.linked;
        idle_free = λ c. free (idle c) (v.quiet.idle_free c);
        idle_pid = λ c. rw (same.pid (idle c)) (v.quiet.idle_pid c);
        cores = λ c d. rw (same.core c, same.core d) (v.quiet.cores c d);
        foreign = λ c d. rw (same.core c) (v.quiet.foreign c d);
      };
      others = λ c l ne. rw (same.core c) (free (k.core_running c) (v.others c l ne));
      own =
          rw (same.core cpu)
            λ r. free (k.core_running cpu) (v.own (same.run (k.core_running cpu) r));
    }

goes_back-not-idle : (c h : ℕ) (k : Kernel) → IsQuiet k → goes_back (k.pcb h) ≡ true → h ≢ idle c
goes_back-not-idle c h k v e p =
    let z : (k.pcb h).pid ≡ pos 0 = rw p (v.idle_pid c) in ground (arith, z)

-- After `requeue` the process that ran is in no special place any more: it is linked, or stopped.
pub record IsLeft (cpu : ℕ) (k : Kernel) : Type 0 where
  pub quiet : IsQuiet k
  pub others : (c : ℕ) → c < 2 → c ≢ cpu → IsFree (k.core_running c) k.queue

-- What may enter a queue: a process that is linked nowhere, idles nowhere and runs on no other core.
pub record IsLoose (cpu h : ℕ) (k : Kernel) : Type 0 where
  pub free : IsFree h k.queue
  pub not_idle : (c : ℕ) → h ≢ idle c
  pub not_foreign : (c : ℕ) → c < 2 → c ≢ cpu → h ≢ k.core_running c

pub add_queue-IsLeft :
    (cpu h : ℕ) (q : QueueId) (k : Kernel)
    → IsLoose cpu h k
    → IsLeft cpu k
    → IsLeft cpu (add_queue q h k)
add_queue-IsLeft cpu h q k o v = record {
  quiet = record {
    linked = IsLinked-add_queue q h k o.free v.quiet.linked;
    idle_free = λ c. IsFree-add_queue q h (idle c) k (o.not_idle c) (v.quiet.idle_free c);
    idle_pid = v.quiet.idle_pid;
    cores = v.quiet.cores;
    foreign = v.quiet.foreign;
  };
  others =
      λ c l ne. IsFree-add_queue q h (k.core_running c) k (o.not_foreign c l ne) (v.others c l ne);
}

-- Of the process control blocks only the idle processes' pids matter.
pub set_status-IsLeft :
    (cpu h : ℕ) (s : Status) (k : Kernel) → IsLeft cpu k → IsLeft cpu (set_status h s k)
set_status-IsLeft cpu h s k v = record {
  quiet = record {
    linked = v.quiet.linked;
    idle_free = v.quiet.idle_free;
    idle_pid = λ c. ground (arith, v.quiet.idle_pid c);
    cores = v.quiet.cores;
    foreign = v.quiet.foreign;
  };
  others = v.others;
}

pub set_status-IsLoose :
    (cpu h g : ℕ) (s : Status) (k : Kernel) → IsLoose cpu h k → IsLoose cpu h (set_status g s k)
set_status-IsLoose cpu h g s k o = record {
  free = o.free;
  not_idle = o.not_idle;
  not_foreign = o.not_foreign;
}

pub requeue-IsLeft : (cpu : ℕ) (k : Kernel) → cpu < 2 → IsStopped cpu k → IsLeft cpu (requeue cpu k)
unfolding requeue
requeue-IsLeft cpu k l v =
    let h = k.core_running cpu in
    let left : IsLeft cpu k = record { quiet = v.quiet; others = v.others } in
    elim (Bool-cases (goes_back (k.pcb h))) [
      | inl e ↦ rw e (
          add_queue-IsLeft cpu h ready_queue (set_status h task_ready k)
            (record {
              free = v.own (ground arith);
              not_idle = λ c p. goes_back-not-idle c h k v.quiet e p;
              not_foreign = λ c hc ne. v.quiet.cores cpu c l hc (λ p. ne (sym p));
            })
            (set_status-IsLeft cpu h task_ready k left))
      | inr e ↦ rw e left
    ]

dispatch-IsPlaced :
    (cpu h : ℕ) (k : Kernel)
    → cpu < 2
    → IsLeft cpu k
    → IsFree h k.queue
    → ((c : ℕ) → c < 2 → c ≢ cpu → k.core_running c ≢ h × (h ≢ idle c))
    → IsPlaced (dispatch cpu h k)
unfolding dispatch
dispatch-IsPlaced cpu h k l v f ne = record {
  quiet = record {
    linked = v.quiet.linked;
    idle_free = v.quiet.idle_free;
    idle_pid = λ c. ground (arith, v.quiet.idle_pid c);
    cores = λ c d hc hd e. ground (arith, v.quiet.cores c d hc hd e, ne c, ne d);
    foreign = λ c d hc hd e. ground (arith, v.quiet.foreign c d hc hd e, ne d);
  };
  out = λ c hc q. ground (arith, λ (d : c ≢ cpu). v.others c hc d q, f q);
}

pub pick-count :
    (cpu : ℕ) (pcb : ℕ → Pcb) (hs : List ℕ) (h : ℕ) → pick cpu pcb hs ≡ some h → 0 < count h hs
unfolding pick
pick-count cpu pcb [] h e = cc
pick-count cpu pcb (x ∷ hs) h e = ground (arith, pick-count cpu pcb hs h)

pub IsLeft-del_queue : (cpu h : ℕ) (k : Kernel) → IsLeft cpu k → IsLeft cpu (del_queue h k)
IsLeft-del_queue cpu h k v = record {
  quiet = record {
    linked = IsLinked-del_queue h k v.quiet.linked;
    idle_free = λ c. IsFree-del_queue h (idle c) k (v.quiet.idle_free c);
    idle_pid = v.quiet.idle_pid;
    cores = v.quiet.cores;
    foreign = v.quiet.foreign;
  };
  others = λ c l ne. IsFree-del_queue h (k.core_running c) k (v.others c l ne);
}

-- What is linked is not what is free.
pub linked-ne :
    (queue : QueueId → List ℕ) (q : QueueId) {g h : ℕ}
    → IsFree g queue
    → 0 < count h (queue q)
    → g ≢ h
linked-ne queue q {h} f n p = let z : count h (queue q) ≡ 0 = rw (← p) (f q) in omega arith

idle-injective : (c d : ℕ) → c < 2 → d < 2 → d ≢ c → idle c ≢ idle d
idle-injective c d hc hd ne = ground arith

choose-IsPlaced : (cpu : ℕ) (k : Kernel) → cpu < 2 → IsLeft cpu k → IsPlaced (choose cpu k)
unfolding choose
choose-IsPlaced cpu k l v = elim (Option-cases (pick cpu k.pcb (k.queue ready_queue))) [
  | inl e ↦
      rw (e, choose)
        (dispatch-IsPlaced cpu (idle cpu) k l v (v.quiet.idle_free cpu)
          λ c hc ne. (v.quiet.foreign c cpu hc l ne, idle-injective cpu c l hc ne))
  | inr (h, e) ↦
      let n = pick-count cpu k.pcb (k.queue ready_queue) h e in
      rw (e, choose)
        (dispatch-IsPlaced cpu h (del_queue h k) l (IsLeft-del_queue cpu h k v)
          (del_queue-IsFree h k)
          λ c hc ne. (
            linked-ne k.queue ready_queue (v.others c hc ne) n,
            λ p. linked-ne k.queue ready_queue (v.quiet.idle_free c) n (sym p),
          ))
]

-- On core 0 or 1, from a state in which no process is in two places, where the process that runs
-- on the core may be in a queue already if it is not marked as running, `do_scheduler` leaves every
-- process in one place.
pub do_scheduler-IsPlaced :
    (cpu now : ℕ) {k : Kernel} → cpu < 2 → IsStopped cpu k → IsPlaced (do_scheduler cpu now k)
unfolding do_scheduler
do_scheduler-IsPlaced cpu now {k} l v =
    choose-IsPlaced cpu _ l (requeue-IsLeft cpu _ l (check_sleeping-IsStopped cpu now k v))
