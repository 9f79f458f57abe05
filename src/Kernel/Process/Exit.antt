-- ===== src/Kernel/Process/Exit.antt =====
-- do_exit and do_waitpid of kernel/sched/sched.c: those who wait go on, and no process is lost or in
-- two places.
use oslab_riscv.Prelude.{
  ℕ, zero, suc, ◌+◌, ◌<◌, ◌≡◌, ◌≢◌, refl, sym, ap, ◌∙◌, inl, inr, Bool-cases, false, not, ◌&&◌,
  Option, none, some, List, [], ◌∷◌, ◌++◌, length, count, remove, remove_of_count_zero, ◌==◌, arith,
}
use mathlib.Core.List.{append-nil, append_assoc}
use oslab_riscv.Prelude.Int.{ℤ}
use oslab_riscv.Kernel.{
  task_ready, task_exited, task_available, eq_status, QueueId, ready_queue, wait_list, Kernel,
}
use oslab_riscv.Kernel.Queue.{set_status, del_queue, head_of, last_of}
use oslab_riscv.Kernel.Queue.Linked.{IsFree, IsFree-del_queue, del_queue-IsFree, IsLinked-del_queue}
use oslab_riscv.Kernel.Sched.{idle, do_scheduler, do_unblock}
use oslab_riscv.Kernel.Sched.Placed.{IsPlaced, IsPlaced-IsStopped, do_scheduler-IsPlaced}
use oslab_riscv.Kernel.Sched.Held.{
  IsDue, IsHeld, IsIn-del_queue, IsDue-moved, do_scheduler-KeepsAll,
}
use oslab_riscv.Kernel.Sched.Calls.{
  unblocked, do_unblock-cons, remove-head, unblocked-IsPlaced, set_status-IsPlaced, running-IsLoose,
  blocked-IsStopped,
}
use oslab_riscv.Kernel.Process.{num_max_task, release_waiters, do_exit, find_pid, do_waitpid}

-- No process that waits for p has exited.
abbrev pub NoneExited : ℕ → Kernel → Type 0
NoneExited p k =
    (w : ℕ) → 0 < count w (k.queue (wait_list p)) → eq_status (k.pcb w).status task_exited ≡ false

-- A way to look at an element of a queue that is not empty.
pub record IsPeek (peek : List ℕ → Option ℕ) : Type 0 where
  pub empty : peek [] ≡ none
  pub some_of : (h : ℕ) (hs : List ℕ) → (w : ℕ) × (peek (h ∷ hs) ≡ some w) × (0 < count w (h ∷ hs))

pub head_of-IsPeek : IsPeek head_of
head_of-IsPeek = record { empty = refl; some_of = λ h hs. (h, refl, ground arith) }

last_of-some :
    (h : ℕ) (hs : List ℕ) → (w : ℕ) × (last_of (h ∷ hs) ≡ some w) × (0 < count w (h ∷ hs))
last_of-some h [] = (h, refl, ground arith)
last_of-some h (g ∷ hs) = let (w, e, n) = last_of-some g hs in (w, e, ground arith)

pub last_of-IsPeek : IsPeek last_of
last_of-IsPeek = record { empty = refl; some_of = last_of-some }

count-remove-pos : (a b : ℕ) (xs : List ℕ) → 0 < count b (remove a xs) → 0 < count b xs
count-remove-pos a b [] l = l
count-remove-pos a b (x ∷ xs) l = ground (arith, count-remove-pos a b xs)

unblocked-NoneExited : (p h : ℕ) (k : Kernel) → NoneExited p k → NoneExited p (unblocked h k)
unblocked-NoneExited p h k n w l = ground (arith, n w, count-remove-pos h w (k.queue (wait_list p)))

release_waiters-step :
    (n : ℕ) (peek : List ℕ → Option ℕ) (p : ℕ) (k : Kernel) {w : ℕ} {k1 : Kernel}
    → peek (k.queue (wait_list p)) ≡ some w
    → eq_status (k.pcb w).status task_exited ≡ false
    → do_unblock (wait_list p) k ≡ some k1
    → release_waiters (suc n) peek p k ≡ release_waiters n peek p k1
unfolding release_waiters
release_waiters-step n peek p k a b c = rw (a, release_waiters) (rw b (rw c refl))

-- What the loop has done: the waiters of `p`, in order, stand at the end of the ready queue.
pub record IsReleased (p : ℕ) (ws : List ℕ) (k k' : Kernel) : Type 0 where
  pub empty : k'.queue (wait_list p) ≡ []
  pub ready : k'.queue ready_queue ≡ k.queue ready_queue ++ ws
  pub core : k'.core_running ≡ k.core_running
  pub placed : IsPlaced k'
  pub due : (cpu g : ℕ) → IsDue cpu g k → IsDue cpu g k'

-- With none of them exited, the loop that releases the waiters ends.
pub release_waiters-IsReleased :
    (n : ℕ) (peek : List ℕ → Option ℕ) (p : ℕ) (ws : List ℕ) (k : Kernel)
    → IsPeek peek
    → NoneExited p k
    → k.queue (wait_list p) ≡ ws
    → length ws < n
    → IsPlaced k
    → (k' : Kernel) × (release_waiters n peek p k ≡ some k') × IsReleased p ws k k'
unfolding release_waiters
release_waiters-IsReleased zero peek p ws k i a e l v = absurd (omega arith)
release_waiters-IsReleased (suc n) peek p [] k i a e l v = (
  k,
  rw (e, release_waiters) (rw i.empty refl),
  record { empty = e; ready = sym (append-nil _); core = refl; placed = v; due = λ cpu g d. d },
)
release_waiters-IsReleased (suc n) peek p (h ∷ hs) k i a e l v =
    let q = wait_list p in
    let (w, f, c) = i.some_of h hs in
    let k1 = unblocked h k in
    let (here, there) = remove-head q k h hs v.quiet.linked e in
    let v1 = unblocked-IsPlaced h q k (rw e (ground arith)) v in
    let a1 = unblocked-NoneExited p h k a in
    let (k', r, o) = release_waiters-IsReleased n peek p hs k1 i a1 here (omega arith) v1 in
    let waits : eq_status (k.pcb w).status task_exited ≡ false = a w (rw e c) in
    (
      k',
      release_waiters-step n peek p k (rw e f) waits (do_unblock-cons q k h hs e) ∙ r,
      record {
        empty = o.empty;
        ready =
            o.ready
            ∙ (rw (there ready_queue (λ p. cc)) (append_assoc (k.queue ready_queue) (h ∷ []) hs));
        core = o.core;
        placed = o.placed;
        due = λ cpu g d. o.due cpu g (IsDue-moved cpu ready_queue h g task_ready k d);
      },
    )

-- del_queue of any process keeps the others where they are.
del_queue-IsPlaced : (h : ℕ) (k : Kernel) → IsPlaced k → IsPlaced (del_queue h k)
del_queue-IsPlaced h k v = record {
  quiet = record {
    linked = IsLinked-del_queue h k v.quiet.linked;
    idle_free = λ c. IsFree-del_queue h (idle c) k (v.quiet.idle_free c);
    idle_pid = v.quiet.idle_pid;
    cores = v.quiet.cores;
    foreign = v.quiet.foreign;
  };
  out = λ c l. IsFree-del_queue h (k.core_running c) k (v.out c l);
}

-- Ending a process that is linked nowhere loses no other.
ended-IsDue :
    (cpu h g : ℕ) (k : Kernel)
    → h ≢ g
    → IsDue cpu g k
    → IsDue cpu g (set_status h task_exited (del_queue h k))
ended-IsDue cpu h g k ne (inl i) = inl (IsIn-del_queue h g k ne i)
ended-IsDue cpu h g k ne (inr (inl o)) = inr (inl o)
ended-IsDue cpu h g k ne (inr (inr (e, (s, n)))) =
    inr (inr (e, (ground (arith, ne, s), λ z. n (ground (arith, ne, z)))))

-- On core 0 or 1, with no process in two places, `do_exit`, where no process that waits for the
-- caller has exited, returns; before it calls `do_scheduler` the caller is marked as exited and is
-- linked in no queue, and the processes that waited for it stand, in order, at the end of the ready
-- queue, and nobody waits for it any more; in the end no process is in two places, and none but the
-- caller is lost: each other that was linked in a queue or ran on the other core is linked in a queue
-- or runs on a core.
pub do_exit-IsExited :
    (cpu now : ℕ) (k : Kernel)
    → cpu < 2
    → IsPlaced k
    → NoneExited (k.core_running cpu) k
    → let h = k.core_running cpu in
      (k1 : Kernel) × (do_exit cpu now k ≡ some (do_scheduler cpu now k1))
      × ((k1.pcb h).status ≡ task_exited)
      × IsFree h k1.queue
      × (k1.queue ready_queue ≡ k.queue ready_queue ++ k.queue (wait_list h))
      × (k1.queue (wait_list h) ≡ [])
      × IsPlaced (do_scheduler cpu now k1)
      × ((g : ℕ) → g ≢ h → IsDue cpu g k → IsHeld g (do_scheduler cpu now k1))
unfolding do_exit
do_exit-IsExited cpu now k l v a =
    let h = k.core_running cpu in
    let ws = k.queue (wait_list h) in
    let (k2, r, o) =
      release_waiters-IsReleased (length ws + 1) last_of h ws k last_of-IsPeek a refl (omega arith)
        v in
    let k1 = set_status h task_exited (del_queue h k2) in
    let stopped =
      set_status-IsPlaced h task_exited (del_queue h k2) (del_queue-IsPlaced h k2 o.placed) in
    let free : IsFree h k2.queue = rw (← ap (λ f. f cpu) o.core) (o.placed.out cpu l) in
    let same = λ (q : QueueId). remove_of_count_zero h (k2.queue q) (free q) in
    (
      k1,
      rw (r, do_exit) refl,
      ground arith,
      del_queue-IsFree h k2,
      same ready_queue ∙ o.ready,
      same (wait_list h) ∙ o.empty,
      do_scheduler-IsPlaced cpu now l (IsPlaced-IsStopped cpu l stopped),
      λ g ne d.
          do_scheduler-KeepsAll cpu now k1 l g
            (ended-IsDue cpu h g k2 (λ e. ne (sym e)) (o.due cpu g d)),
    )

-- On core 0 or 1, with no process in two places, `do_waitpid`, called by a process that is not
-- the idle one, leaves no process in two places.
pub do_waitpid-IsPlaced :
    (cpu now : ℕ) (pid : ℤ) (k : Kernel)
    → cpu < 2
    → IsPlaced k
    → k.core_running cpu ≢ idle cpu
    → IsPlaced (do_waitpid cpu now pid k).1
unfolding do_waitpid
do_waitpid-IsPlaced cpu now pid k l v ne =
    let w = find_pid pid k in
    let h = k.core_running cpu in
    let s = (k.pcb w).status in
    let placed = IsPlaced-IsStopped cpu l v in
    let blocked = blocked-IsStopped cpu h (wait_list w) k (running-IsLoose cpu k l v ne) placed in
    elim (Bool-cases (w == num_max_task)) [
      | inl e ↦ rw e v
      | inr e ↦
          elim (Bool-cases (not (eq_status s task_exited) && not (eq_status s task_available))) [
            | inl f ↦ rw e (rw f (do_scheduler-IsPlaced cpu now l blocked))
            | inr f ↦ rw e (rw f (do_scheduler-IsPlaced cpu now l placed))
          ]
    ]
