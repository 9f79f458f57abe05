-- ===== src/Kernel/Sched/Choice.antt =====
-- Which process do_scheduler of kernel/sched/sched.c runs next.
use oslab_riscv.Prelude.{
  ℕ, suc, update, ◌+◌, ◌≤◌, ◌<◌, ◌≡◌, ◌≢◌, refl, sym, ap, ◌∙◌, ◌⊎◌, inl, inr, Bool-cases,
  Option-cases, true, false, none, some, List, [], ◌∷◌, ◌++◌, count, count-append,
  remove_of_count_zero, remove-append, arith, if◌then◌else◌,
}
use mathlib.Core.List.{append-nil, append_assoc}
use oslab_riscv.Kernel.{Status, eq_status, task_running, Pcb, ready_queue, sleep_queue, Kernel}
use oslab_riscv.Kernel.Queue.{del_queue}
use oslab_riscv.Kernel.Queue.Linked.{IsLinked}
use oslab_riscv.Kernel.Sched.{
  check_sleeping, idle, allowed, pick, goes_back, requeue, dispatch, choose, do_scheduler, wake_one,
  wake,
}
use oslab_riscv.Kernel.Sched.Placed.{
  IsStopped, requeue-IsLeft, check_sleeping-IsStopped, wake-SameCores,
}
use oslab_riscv.Kernel.Sched.Sleep.{due, check_sleeping-filters}

-- Those that may be chosen: the ready queue, the sleepers that wake, and the process that gives
-- the core up, in this order.
abbrev pub candidates : ℕ → ℕ → Kernel → List ℕ
candidates cpu now k =
    k.queue ready_queue
    ++ (due now k.pcb (k.queue sleep_queue)
        ++ (if goes_back (k.pcb (k.core_running cpu)) then k.core_running cpu ∷ [] else []))

-- None of the list may run on this core.
abbrev pub NoneAllowed : ℕ → (ℕ → Pcb) → List ℕ → Type 0
NoneAllowed cpu pcb [] = Unit {0}
NoneAllowed cpu pcb (h ∷ hs) = (allowed cpu (pcb h) ≡ false) × NoneAllowed cpu pcb hs

-- `h` is the first of `hs` that may run on this core, and `rest` is the list without it.
pub record IsFirst (cpu : ℕ) (pcb : ℕ → Pcb) (hs : List ℕ) (h : ℕ) (rest : List ℕ) : Type 0 where
  pub before : List ℕ
  pub after : List ℕ
  pub split : hs ≡ before ++ (h ∷ after)
  pub skipped : NoneAllowed cpu pcb before
  pub runs : allowed cpu (pcb h) ≡ true
  pub left : rest ≡ before ++ after

pick-none :
    (cpu : ℕ) (pcb : ℕ → Pcb) (hs : List ℕ) → pick cpu pcb hs ≡ none → NoneAllowed cpu pcb hs
unfolding pick
pick-none cpu pcb [] e = tt
pick-none cpu pcb (h ∷ hs) e = ground (arith, pick-none cpu pcb hs)

pick-some :
    (cpu : ℕ) (pcb : ℕ → Pcb) (hs : List ℕ) (h : ℕ)
    → pick cpu pcb hs ≡ some h
    → (before after : List ℕ) × (hs ≡ before ++ (h ∷ after))
      × NoneAllowed cpu pcb before
      × (allowed cpu (pcb h) ≡ true)
unfolding pick
pick-some cpu pcb [] h e = cc
pick-some cpu pcb (x ∷ hs) h e = elim (Bool-cases (allowed cpu (pcb x))) [
  | inl t ↦ ([], hs, ground arith, tt, ground arith)
  | inr f ↦
      let (b, a, s, n, r) = pick-some cpu pcb hs h (ground arith) in
      (x ∷ b, a, ap (λ l. x ∷ l) s, (f, n), r)
]

pick_congr :
    (cpu : ℕ) (p p' : ℕ → Pcb) (hs : List ℕ)
    → ((h : ℕ) → (p' h).mask ≡ (p h).mask)
    → pick cpu p' hs ≡ pick cpu p hs
unfolding pick
pick_congr cpu p p' [] same = refl
pick_congr cpu p p' (h ∷ hs) same = rw (same h, pick_congr cpu p p' hs same)

wake_one-pcb : (now h g : ℕ) (k : Kernel) → h ≢ g → (wake_one now h k).pcb g ≡ k.pcb g
unfolding wake_one
wake_one-pcb now h g k ne = ground arith

wake-pcb : (now g : ℕ) (hs : List ℕ) (k : Kernel) → count g hs ≡ 0 → (wake now hs k).pcb g ≡ k.pcb g
unfolding wake
wake-pcb now g [] k z = refl
wake-pcb now g (h ∷ hs) k z =
    wake-pcb now g hs (wake_one now h k) (omega arith) ∙ wake_one-pcb now h g k (ground arith)

running_of_eq : (s : Status) → eq_status s task_running ≡ true → s ≡ task_running
running_of_eq s e = ground arith

not_running :
    (p p' : Pcb)
    → eq_status p.status task_running ≡ false
    → (p'.status ≡ task_running → p.status ≡ task_running)
    → goes_back p' ≡ goes_back p
not_running p p' f run = elim (Bool-cases (eq_status p'.status task_running)) [
  | inl t ↦ let r = run (running_of_eq p'.status t) in ground arith
  | inr f' ↦ rw (f, f')
]

check_sleeping-core :
    (cpu now : ℕ) (k : Kernel) → (check_sleeping now k).core_running cpu ≡ k.core_running cpu
unfolding check_sleeping
check_sleeping-core cpu now k = (wake-SameCores now (k.queue sleep_queue) k).core cpu

-- Waking does not change whether the running process goes back.
goes_back-check_sleeping :
    (cpu now : ℕ) (k : Kernel)
    → IsStopped cpu k
    → goes_back ((check_sleeping now k).pcb (k.core_running cpu))
      ≡ goes_back (k.pcb (k.core_running cpu))
unfolding check_sleeping
goes_back-check_sleeping cpu now k v =
    let h = k.core_running cpu in
    let hs = k.queue sleep_queue in
    elim (Bool-cases (eq_status (k.pcb h).status task_running)) [
      | inl t ↦ ap goes_back (wake-pcb now h hs k (v.own (ground arith) sleep_queue))
      | inr f ↦ not_running (k.pcb h) ((wake now hs k).pcb h) f ((wake-SameCores now hs k).run h)
    ]

-- The state in which `choose` is called.
requeued : ℕ → ℕ → Kernel → Kernel
requeued cpu now k = requeue cpu (check_sleeping now k)

requeued-mask :
    (cpu now : ℕ) (k : Kernel) (h : ℕ) → ((requeued cpu now k).pcb h).mask ≡ (k.pcb h).mask
unfolding requeued requeue check_sleeping
requeued-mask cpu now k h = ground (arith, (wake-SameCores now (k.queue sleep_queue) k).mask h)

requeue-ready :
    (cpu : ℕ) (k : Kernel)
    → (requeue cpu k).queue ready_queue
      ≡ k.queue ready_queue
        ++ (if goes_back (k.pcb (k.core_running cpu)) then k.core_running cpu ∷ [] else [])
unfolding requeue
requeue-ready cpu k = elim (Bool-cases (goes_back (k.pcb (k.core_running cpu)))) [
  | inl t ↦ rw t
  | inr f ↦ rw f (sym (append-nil _))
]

requeued-ready :
    (cpu now : ℕ) (k : Kernel)
    → IsStopped cpu k
    → (requeued cpu now k).queue ready_queue ≡ candidates cpu now k
unfolding requeued
requeued-ready cpu now k v =
    let ready = (check_sleeping-filters now k v.quiet.linked).0 in
    rw
      (
        requeue-ready cpu (check_sleeping now k),
        check_sleeping-core cpu now k,
        goes_back-check_sleeping cpu now k v,
        ready,
      )
      (append_assoc (k.queue ready_queue) (due now k.pcb (k.queue sleep_queue)) _)

IsFirst-del :
    (cpu h : ℕ) (k : Kernel) (b a : List ℕ)
    → IsLinked k.queue
    → k.queue ready_queue ≡ b ++ (h ∷ a)
    → NoneAllowed cpu k.pcb b
    → allowed cpu (k.pcb h) ≡ true
    → let k' = dispatch cpu h (del_queue h k) in
      IsFirst cpu k.pcb (k.queue ready_queue) (k'.core_running cpu) (k'.queue ready_queue)
unfolding dispatch
IsFirst-del cpu h k b a v s n r =
    let self : update k.core_running cpu h cpu ≡ h = ground arith in
    let once : count h b + suc (count h a) ≤ 1 =
      ground (arith, v.once h ready_queue, count-append h b (h ∷ a)) in
    rw self (record {
      before = b;
      after = a;
      split = s;
      skipped = n;
      runs = r;
      left =
          rw (s, remove-append h b (h ∷ a), remove_of_count_zero h b (omega arith))
            (ground (arith, remove_of_count_zero h a));
    })

-- The choice in one state.
choose-IsFirst :
    (cpu : ℕ) (k : Kernel)
    → IsLinked k.queue
    → let k' = choose cpu k in
      let hs = k.queue ready_queue in
      (IsFirst cpu k.pcb hs (k'.core_running cpu) (k'.queue ready_queue))
      ⊎ (NoneAllowed cpu k.pcb hs × (k'.core_running cpu ≡ idle cpu) × (k'.queue ready_queue ≡ hs))
unfolding choose dispatch
choose-IsFirst cpu k v = elim (Option-cases (pick cpu k.pcb (k.queue ready_queue))) [
  | inl e ↦ rw (e, choose) (inr (pick-none cpu k.pcb _ e, ground arith, refl))
  | inr (h, e) ↦
      let (b, a, s, n, r) = pick-some cpu k.pcb (k.queue ready_queue) h e in
      rw (e, choose) (inl (IsFirst-del cpu h k b a v s n r))
]

NoneAllowed-congr :
    (cpu : ℕ) (p p' : ℕ → Pcb) (hs : List ℕ)
    → ((h : ℕ) → (p' h).mask ≡ (p h).mask)
    → NoneAllowed cpu p' hs
    → NoneAllowed cpu p hs
NoneAllowed-congr cpu p p' [] same n = tt
NoneAllowed-congr cpu p p' (h ∷ hs) same n =
    (ground (arith, same h), NoneAllowed-congr cpu p p' hs same n.1)

IsFirst-congr :
    (cpu : ℕ) (p p' : ℕ → Pcb) (hs : List ℕ) (h : ℕ) (rest : List ℕ)
    → ((g : ℕ) → (p' g).mask ≡ (p g).mask)
    → IsFirst cpu p' hs h rest
    → IsFirst cpu p hs h rest
IsFirst-congr cpu p p' hs h rest same f = record {
  before = f.before;
  after = f.after;
  split = f.split;
  skipped = NoneAllowed-congr cpu p p' f.before same f.skipped;
  runs = ground (arith, same h);
  left = f.left;
}

-- On core 0 or 1, from a state in which no process is in two places, where the process that runs
-- on the core may be in a queue already if it is not marked as running, `do_scheduler` runs the
-- first candidate whose mask names this core, and takes it out of the ready queue; if there is none
-- it runs the core's idle process and leaves the candidates in the queue.
pub do_scheduler-IsFirst :
    (cpu now : ℕ) (k : Kernel)
    → cpu < 2
    → IsStopped cpu k
    → let k' = do_scheduler cpu now k in
      let hs = candidates cpu now k in
      (IsFirst cpu k.pcb hs (k'.core_running cpu) (k'.queue ready_queue))
      ⊎ (NoneAllowed cpu k.pcb hs × (k'.core_running cpu ≡ idle cpu) × (k'.queue ready_queue ≡ hs))
unfolding do_scheduler requeued
do_scheduler-IsFirst cpu now k l v =
    let r = requeued cpu now k in
    let linked = (requeue-IsLeft cpu _ l (check_sleeping-IsStopped cpu now k v)).quiet.linked in
    let same = requeued-mask cpu now k in
    rw (← requeued-ready cpu now k v) (elim (choose-IsFirst cpu r linked) [
      | inl f ↦ inl (IsFirst-congr cpu k.pcb r.pcb _ _ _ same f)
      | inr (n, i, q) ↦ inr (NoneAllowed-congr cpu k.pcb r.pcb _ same n, i, q)
    ])
