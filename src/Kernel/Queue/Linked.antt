-- ===== src/Kernel/Queue/Linked.antt =====
-- A list node stands in one queue at most, once: the condition under which the queues of
-- kernel/sched/sched.c are lists at all.
use oslab_riscv.Prelude.{
  ℕ, ◌≤◌, ◌<◌, ◌≡◌, ◌≢◌, List, [], ◌∷◌, count, arith, count-append, count-remove_self,
  count-remove-le,
}
use oslab_riscv.Kernel.{QueueId, eq_queue_iff, Kernel}
use oslab_riscv.Kernel.Queue.{add_queue, del_queue}

-- `h` is linked in no queue.
abbrev pub IsFree : ℕ → (QueueId → List ℕ) → Type 0
IsFree h queue = (q : QueueId) → count h (queue q) ≡ 0

pub record IsLinked (queue : QueueId → List ℕ) : Type 0 where
  pub once : (h : ℕ) (q : QueueId) → count h (queue q) ≤ 1
  pub apart : (h : ℕ) (q r : QueueId) → 0 < count h (queue q) → 0 < count h (queue r) → q ≡ r

pub count-add_queue :
    (q : QueueId) (h g : ℕ) (k : Kernel) (r : QueueId)
    → h ≢ g
    → count g ((add_queue q h k).queue r) ≡ count g (k.queue r)
count-add_queue q h g k r ne = ground (arith, count-append g (k.queue r) (h ∷ []))

pub IsFree-add_queue :
    (q : QueueId) (h g : ℕ) (k : Kernel)
    → h ≢ g
    → IsFree g k.queue
    → IsFree g (add_queue q h k).queue
IsFree-add_queue q h g k ne f r = ground (arith, count-add_queue q h g k r, f r)

pub IsFree-del_queue : (h g : ℕ) (k : Kernel) → IsFree g k.queue → IsFree g (del_queue h k).queue
IsFree-del_queue h g k f r = omega (arith, count-remove-le h g (k.queue r), f r)

pub del_queue-IsFree : (h : ℕ) (k : Kernel) → IsFree h (del_queue h k).queue
del_queue-IsFree h k r = count-remove_self h (k.queue r)

pub IsLinked-del_queue : (h : ℕ) (k : Kernel) → IsLinked k.queue → IsLinked (del_queue h k).queue
IsLinked-del_queue h k v = record {
  once = λ g q. omega (arith, count-remove-le h g (k.queue q), v.once g q);
  apart = λ g q r a b.
      v.apart g q r (omega (arith, count-remove-le h g (k.queue q)))
        (omega (arith, count-remove-le h g (k.queue r)));
}

pub IsLinked-add_queue :
    (q : QueueId) (h : ℕ) (k : Kernel)
    → IsFree h k.queue
    → IsLinked k.queue
    → IsLinked (add_queue q h k).queue
IsLinked-add_queue q h k f v = record {
  once = λ g r. ground (arith, count-append g (k.queue r) (h ∷ []), f r, v.once g r);
  apart = λ g r s a b. ground (
    arith,
    count-append g (k.queue r) (h ∷ []),
    count-append g (k.queue s) (h ∷ []),
    eq_queue_iff q r,
    eq_queue_iff q s,
    f r,
    f s,
    v.apart g r s,
  );
}
