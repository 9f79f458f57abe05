-- ===== src/Kernel/Queue.antt =====
-- The queue operations of kernel/sched/sched.c over handles: add_queue, get_head, del_queue, and
-- the writes to a process control block that go with them.
pub mod Linked
use oslab_riscv.Prelude.{
  ℕ, ◌≡◌, Bool, Option, none, some, List, [], ◌∷◌, ◌++◌, update, count, remove, if◌then◌else◌,
  arith,
}
use oslab_riscv.Kernel.{Status, Pcb, QueueId, eq_queue, Kernel}

-- `p->status = s`
abbrev pub set_status : ℕ → Status → Kernel → Kernel
set_status h s k = record k { pcb = update k.pcb h (record (k.pcb h) { status = s }) }

-- `add_queue`: `_list_add_tail` of the node of `h`.
abbrev pub add_queue : QueueId → ℕ → Kernel → Kernel
add_queue q h k = record k {
  queue = λ r. if eq_queue q r then k.queue r ++ (h ∷ []) else k.queue r;
}

-- `del_queue`: `list_del` takes the node out of the queue that it is linked in, whichever that is,
-- and does nothing to a node that is in none.
abbrev pub del_queue : ℕ → Kernel → Kernel
del_queue h k = record k { queue = λ r. remove h (k.queue r) }

-- `list_is_empty`
abbrev pub is_empty : List ℕ → Bool
is_empty [] = Bool.true
is_empty (h ∷ hs) = Bool.false

-- `get_head`. On an empty queue the C code takes the queue's own head for a process: `none`.
abbrev pub head_of : List ℕ → Option ℕ
head_of [] = none
head_of (h ∷ hs) = some h

-- The last one, which `head->prev` leads to.
abbrev pub last_of : List ℕ → Option ℕ
last_of [] = none
last_of (h ∷ []) = some h
last_of (h ∷ g ∷ hs) = last_of (g ∷ hs)

abbrev pub get_head : QueueId → Kernel → Option (ℕ × Kernel)
get_head q k = elim (head_of (k.queue q)) [ none ↦ none | some h ↦ some (h, del_queue h k) ]

-- `init_list_head`
abbrev pub init_queue : QueueId → Kernel → Kernel
init_queue q k = record k { queue = λ r. if eq_queue q r then [] else k.queue r }
