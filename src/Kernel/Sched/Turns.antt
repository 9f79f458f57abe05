-- ===== src/Kernel/Sched/Turns.antt =====
-- do_scheduler of kernel/sched/sched.c, called again and again by both cores: a ready process gets
-- its turn.
use oslab_riscv.Prelude.{
  ℕ, ◌+◌, ◌-◌, ◌≤◌, ◌<◌, ◌≡◌, ◌≢◌, refl, ap, ◌∙◌, ◌⊎◌, inl, inr, Bool-cases, Option-cases, true,
  some, List, [], ◌∷◌, ◌++◌, length, count, remove, remove-append, count-remove-le,
  length-remove-le, arith, if◌then◌else◌, ◌==◌, leb,
}
use mathlib.Core.List.{append_assoc}
use oslab_riscv.Kernel.{Status, task_ready, Pcb, ready_queue, sleep_queue, Kernel}
use oslab_riscv.Kernel.Queue.{set_status, del_queue, add_queue}
use oslab_riscv.Kernel.Sched.{
  check_sleeping, idle, allowed, pick, goes_back, requeue, dispatch, choose, do_scheduler, wake_one,
  wake,
}

-- `h` stands in the ready queue behind at most `n` others, may run on `cpu`, and does not sleep.
pub record Waits (cpu h n : ℕ) (k : Kernel) : Type 0 where
  pub before : List ℕ
  pub after : List ℕ
  pub split : k.queue ready_queue ≡ before ++ (h ∷ after)
  pub place : length before ≤ n
  pub new : count h before ≡ 0
  pub awake : count h (k.queue sleep_queue) ≡ 0
  pub runs : allowed cpu (k.pcb h) ≡ true

-- One of the calls, each by a core at a time, makes `h` run on that core.
abbrev pub Served : ℕ → List (ℕ × ℕ) → Kernel → Type 0
Served h [] k = ⊥
Served h ((c, now) ∷ calls) k =
    ((do_scheduler c now k).core_running c ≡ h) ⊎ Served h calls (do_scheduler c now k)

-- How many of the calls are by `cpu`.
abbrev pub turns : ℕ → List (ℕ × ℕ) → ℕ
turns cpu [] = 0
turns cpu ((c, now) ∷ calls) = turns cpu calls + (if c == cpu then 1 else 0)

length-remove-lt : (g : ℕ) (xs : List ℕ) → 0 < count g xs → length (remove g xs) < length xs
length-remove-lt g [] l = absurd (omega arith)
length-remove-lt g (x ∷ xs) l = ground (arith, length-remove-lt g xs, length-remove-le g xs)

remove_ne : (g h : ℕ) (xs : List ℕ) → g ≢ h → remove g (h ∷ xs) ≡ h ∷ remove g xs
remove_ne g h xs ne = ground arith

Waits-remove :
    (cpu h g n m : ℕ) (k : Kernel)
    → g ≢ h
    → (w : Waits cpu h n k) → length (remove g w.before) ≤ m
    → Waits cpu h m (del_queue g k)
Waits-remove cpu h g n m k ne w l = record {
  before = remove g w.before;
  after = remove g w.after;
  split =
      ap (remove g) w.split
      ∙ remove-append g w.before (h ∷ w.after)
      ∙ ap (λ r. remove g w.before ++ r) (remove_ne g h w.after ne);
  place = l;
  new = omega (arith, w.new, count-remove-le g h w.before);
  awake = omega (arith, w.awake, count-remove-le g h (k.queue sleep_queue));
  runs = w.runs;
}

Waits-del_queue :
    (cpu h g n : ℕ) (k : Kernel) → g ≢ h → Waits cpu h n k → Waits cpu h n (del_queue g k)
Waits-del_queue cpu h g n k ne w =
    Waits-remove cpu h g n n k ne w (omega (arith, w.place, length-remove-le g w.before))

-- A change of statuses does not matter, nor does what the cores run.
Waits-same :
    (cpu h n : ℕ) (k k' : Kernel)
    → k'.queue ≡ k.queue
    → (k'.pcb h).mask ≡ (k.pcb h).mask
    → Waits cpu h n k
    → Waits cpu h n k'
Waits-same cpu h n k k' q m w = record {
  before = w.before;
  after = w.after;
  split = rw q w.split;
  place = w.place;
  new = w.new;
  awake = rw q w.awake;
  runs = rw m w.runs;
}

Waits-add_queue :
    (cpu h g n : ℕ) (k : Kernel) → Waits cpu h n k → Waits cpu h n (add_queue ready_queue g k)
Waits-add_queue cpu h g n k w = record {
  before = w.before;
  after = w.after ++ (g ∷ []);
  split = ap (λ r. r ++ (g ∷ [])) w.split ∙ append_assoc w.before (h ∷ w.after) (g ∷ []);
  place = w.place;
  new = w.new;
  awake = w.awake;
  runs = w.runs;
}

Waits-set_status :
    (cpu h g n : ℕ) (s : Status) (k : Kernel) → Waits cpu h n k → Waits cpu h n (set_status g s k)
Waits-set_status cpu h g n s k w = Waits-same cpu h n k (set_status g s k) refl (ground arith) w

wake_one-Waits :
    (cpu h g n now : ℕ) (k : Kernel) → g ≢ h → Waits cpu h n k → Waits cpu h n (wake_one now g k)
unfolding wake_one
wake_one-Waits cpu h g n now k ne w = elim (Bool-cases (leb (k.pcb g).wakeup_time now)) [
  | inl t ↦ rw t (
      Waits-add_queue cpu h g n _
        (Waits-del_queue cpu h g n _ ne (Waits-set_status cpu h g n task_ready k w)))
  | inr f ↦ rw f w
]

wake-Waits :
    (cpu h n now : ℕ) (hs : List ℕ) (k : Kernel)
    → count h hs ≡ 0
    → Waits cpu h n k
    → Waits cpu h n (wake now hs k)
unfolding wake
wake-Waits cpu h n now [] k z w = w
wake-Waits cpu h n now (g ∷ hs) k z w =
    wake-Waits cpu h n now hs _ (omega arith) (wake_one-Waits cpu h g n now k (ground arith) w)

requeue-Waits : (cpu h n c : ℕ) (k : Kernel) → Waits cpu h n k → Waits cpu h n (requeue c k)
unfolding requeue
requeue-Waits cpu h n c k w = elim (Bool-cases (goes_back (k.pcb (k.core_running c)))) [
  | inl t ↦ rw t (
      Waits-add_queue cpu h (k.core_running c) n _
        (Waits-set_status cpu h (k.core_running c) n task_ready k w))
  | inr f ↦ rw f w
]

-- One of those up to `h` is picked.
pick-reaches :
    (cpu h : ℕ) (pcb : ℕ → Pcb) (before after : List ℕ)
    → allowed cpu (pcb h) ≡ true
    → (g : ℕ) × (pick cpu pcb (before ++ (h ∷ after)) ≡ some g) × ((g ≡ h) ⊎ (0 < count g before))
unfolding pick
pick-reaches cpu h pcb [] after a = (h, ground arith, inl refl)
pick-reaches cpu h pcb (x ∷ before) after a = elim (Bool-cases (allowed cpu (pcb x))) [
  | inl t ↦ (x, ground arith, inr (ground arith))
  | inr f ↦
      let (g, e, o) = pick-reaches cpu h pcb before after a in
      (g, ground arith, elim o [ inl s ↦ inl s | inr l ↦ inr (ground arith) ])
]

Waits-dispatch : (cpu h n c g : ℕ) (k : Kernel) → Waits cpu h n k → Waits cpu h n (dispatch c g k)
unfolding dispatch
Waits-dispatch cpu h n c g k w = Waits-same cpu h n k (dispatch c g k) refl (ground arith) w

dispatch-core : (c g : ℕ) (k : Kernel) → (dispatch c g k).core_running c ≡ g
unfolding dispatch
dispatch-core c g k = ground arith

-- A call by another core makes `h` run there, or leaves its place no worse.
choose-Waits :
    (cpu h n c : ℕ) (k : Kernel)
    → Waits cpu h n k
    → ((choose c k).core_running c ≡ h) ⊎ Waits cpu h n (choose c k)
unfolding choose
choose-Waits cpu h n c k w = elim (Option-cases (pick c k.pcb (k.queue ready_queue))) [
  | inl e ↦ inr (rw (e, choose) (Waits-dispatch cpu h n c (idle c) k w))
  | inr (g, e) ↦ elim (Bool-cases (g == h)) [
    | inl t ↦ inl (rw (e, choose) (dispatch-core c g (del_queue g k) ∙ ground arith))
    | inr f ↦ inr (
        rw (e, choose)
          (Waits-dispatch cpu h n c g _ (Waits-del_queue cpu h g n k (ground arith) w)))
  ]
]

-- A call by a core on which `h` may run makes it run, or brings it forward.
choose-brings :
    (cpu h n : ℕ) (k : Kernel)
    → Waits cpu h n k
    → ((choose cpu k).core_running cpu ≡ h) ⊎ ((0 < n) × Waits cpu h (n - 1) (choose cpu k))
unfolding choose
choose-brings cpu h n k w =
    let (g, e', o) = pick-reaches cpu h k.pcb w.before w.after w.runs in
    let e : pick cpu k.pcb (k.queue ready_queue) ≡ some g = ap (pick cpu k.pcb) w.split ∙ e' in
    elim o [
      | inl s ↦ inl (rw (e, choose) (dispatch-core cpu g (del_queue g k) ∙ s))
      | inr l ↦
          let ne : g ≢ h = λ s. absurd (ground (arith, s, l, w.new)) in
          let short : length (remove g w.before) < n =
            omega (arith, length-remove-lt g w.before l, w.place) in
          let v = Waits-remove cpu h g n (n - 1) k ne w (omega (arith, short)) in
          inr (omega (arith, short), rw (e, choose) (Waits-dispatch cpu h (n - 1) cpu g _ v))
    ]

do_scheduler-Waits :
    (cpu h n c now : ℕ) (k : Kernel)
    → Waits cpu h n k
    → ((do_scheduler c now k).core_running c ≡ h) ⊎ Waits cpu h n (do_scheduler c now k)
unfolding do_scheduler check_sleeping
do_scheduler-Waits cpu h n c now k w =
    choose-Waits cpu h n c _
      (requeue-Waits cpu h n c _ (wake-Waits cpu h n now (k.queue sleep_queue) k w.awake w))

do_scheduler-brings :
    (cpu h n now : ℕ) (k : Kernel)
    → Waits cpu h n k
    → ((do_scheduler cpu now k).core_running cpu ≡ h)
      ⊎ ((0 < n) × Waits cpu h (n - 1) (do_scheduler cpu now k))
unfolding do_scheduler check_sleeping
do_scheduler-brings cpu h n now k w =
    choose-brings cpu h n _
      (requeue-Waits cpu h n cpu _ (wake-Waits cpu h n now (k.queue sleep_queue) k w.awake w))

-- A ready process that may run on a core and has at most n others before it in the ready queue runs
-- at last: among any calls of the scheduler by the cores, in any order, that contain more than n by
-- that core, one makes it run on the core that calls.
pub do_scheduler-serves :
    (cpu h n : ℕ) (calls : List (ℕ × ℕ)) (k : Kernel)
    → Waits cpu h n k
    → n < turns cpu calls
    → Served h calls k
do_scheduler-serves cpu h n [] k w l = absurd (omega arith)
do_scheduler-serves cpu h n ((c, now) ∷ calls) k w l = elim (Bool-cases (c == cpu)) [
  | inl t ↦
      let same : c ≡ cpu = ground arith in
      let moved : ((do_scheduler c now k).core_running c ≡ h)
          ⊎ ((0 < n) × Waits cpu h (n - 1) (do_scheduler c now k)) =
        rw same (do_scheduler-brings cpu h n now k w) in
      elim moved [
        | inl r ↦ inl r
        | inr (p, v) ↦ inr (do_scheduler-serves cpu h (n - 1) calls _ v (ground arith))
      ]
  | inr f ↦ elim (do_scheduler-Waits cpu h n c now k w) [
    | inl r ↦ inl r
    | inr v ↦ inr (do_scheduler-serves cpu h n calls _ v (ground arith))
  ]
]
