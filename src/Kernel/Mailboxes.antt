-- ===== src/Kernel/Mailboxes.antt =====
-- The mailboxes of kernel/locking/lock.c. `do_mbox_send` and `do_mbox_recv` give the core up inside
-- their body: each run of a process up to the next `do_scheduler` is one function here, and `Wait`
-- names the point where the process goes on when it runs again. A message is the list of its bytes.
pub mod Content
pub mod Stages
pub mod Runs
pub mod Tests
use oslab_riscv.Prelude.{
  ℕ, zero, suc, ◌+◌, ◌-◌, ◌%◌, ◌≡◌, Bool, true, false, not, ◌||◌, Option, none, some, ◌>>=◌, List,
  [], ◌∷◌, length, update, ◌==◌, ltb, if◌then◌else◌, for_range, find_from,
}
use oslab_riscv.Prelude.Int.{ℤ, pos, minus_one}
use oslab_riscv.Kernel.{
  LockStatus, unlocked, locked, Mailbox, task_blocked, QueueId, mbox_lock_queue, mbox_full_queue,
  mbox_empty_queue, Kernel,
}
use oslab_riscv.Kernel.Queue.{set_status, add_queue, init_queue, head_of}
use oslab_riscv.Kernel.Sched.{do_scheduler, do_unblock}

-- `MBOX_NUM` and `MAX_MBOX_LENGTH`
abbrev pub mbox_num : ℕ
mbox_num = 16

abbrev pub max_mbox_length : ℕ
max_mbox_length = 64

abbrev pub set_mbox : ℕ → Mailbox → Kernel → Kernel
set_mbox i b k = record k { mboxs = update k.mboxs i b }

abbrev pub no_mbox : Mailbox
no_mbox = record {
  valid = false;
  name = [];
  content = λ j. 0;
  head = 0;
  tail = 0;
  user_num = 0;
  lock = unlocked;
}

-- The body of the loop of `init_mbox`.
abbrev pub init_box : ℕ → Kernel → Kernel
init_box i k = set_mbox i no_mbox (
    init_queue (mbox_lock_queue i)
      (init_queue (mbox_empty_queue i) (init_queue (mbox_full_queue i) k)))

pub init_mbox : Kernel → Kernel
init_mbox k = for_range mbox_num 0 init_box k

-- `strcmp(name, m) == 0`
abbrev pub same_name : List ℕ → List ℕ → Bool
same_name [] [] = true
same_name (a ∷ xs) (b ∷ ys) = if a == b then same_name xs ys else false
same_name _ _ = false

-- A C result of -1 is `none`.
pub do_mbox_open : List ℕ → Kernel → Option ℕ × Kernel
do_mbox_open name k =
    let i = find_from mbox_num 0 (λ j. not (k.mboxs j).valid || same_name name (k.mboxs j).name) in
    if i == mbox_num
    then (none, k)
    else (some i, set_mbox i (record (k.mboxs i) { valid = true; name = name }) k)

pub do_mbox_close : ℕ → Kernel → Kernel
do_mbox_close i k =
    if (k.mboxs i).user_num == 0 then set_mbox i (record (k.mboxs i) { valid = true }) k else k

-- The copying loop of `do_mbox_send`.
pub put_bytes : List ℕ → Mailbox → Mailbox
put_bytes [] b = b
put_bytes (x ∷ xs) b =
    put_bytes xs
      (record b { content = update b.content (b.tail % max_mbox_length) x; tail = b.tail + 1 })

-- The copying loop of `do_mbox_recv`, with the bytes that it writes to `msg`.
pub get_bytes : ℕ → Mailbox → List ℕ × Mailbox
get_bytes zero b = ([], b)
get_bytes (suc n) b =
    let (xs, b') = get_bytes n (record b { head = b.head + 1 }) in
    (b.content (b.head % max_mbox_length) ∷ xs, b')

abbrev pub set_lock : LockStatus → ℕ → Kernel → Kernel
set_lock s i k = set_mbox i (record (k.mboxs i) { lock = s }) k

-- `if (!list_is_empty(q)) do_unblock(q);`
abbrev pub wake_first : QueueId → Kernel → Option Kernel
wake_first q k = elim (head_of (k.queue q)) [ none ↦ some k | some h ↦ do_unblock q k ]

-- `while (!list_is_empty(q)) do_unblock(q);` on fuel
pub wake_all : ℕ → QueueId → Kernel → Option Kernel
wake_all zero q k = none
wake_all (suc n) q k = elim (head_of (k.queue q)) [
  | none ↦ some k
  | some h ↦ elim (do_unblock q k) [ none ↦ none | some k' ↦ wake_all n q k' ]
]

-- Where a process goes on: it waited for the lock, or for room or for data.
pub data Wait : Type 0 where
  for_lock for_change : Wait

-- What a run comes to. The number is `blocked`, the times that the process has waited.
pub data Run (A : Type 0) : Type 0 where
  waits : Wait → ℕ → Kernel → Run A
  returns : A → Kernel → Run A

-- Give the core up, in queue `q`, to go on at `w`.
abbrev pub wait_in : {A : Type 0} → ℕ → ℕ → QueueId → Wait → ℕ → Kernel → Run A
wait_in cpu now q w blocked k =
    let h = k.core_running cpu in
    waits w (blocked + 1) (do_scheduler cpu now (add_queue q h (set_status h task_blocked k)))

abbrev pub count_user : (ℕ → ℕ) → ℕ → Kernel → Kernel
count_user f i k = set_mbox i (record (k.mboxs i) { user_num = f (k.mboxs i).user_num }) k

-- What `do_mbox_send` and `do_mbox_recv` do after copying: `all` says whether the mailbox is now
-- full, or empty, and `q` is the queue of those who wait for that.
unfoldable pub finish : Bool → QueueId → ℕ → Kernel → Option Kernel
unfolding wake_all
finish all q i k = do
  k1 ← (if all then wake_all (length (k.queue q) + 1) q k else some k)
  k2 ← wake_first (mbox_lock_queue i) (set_lock unlocked i k1)
  wake_first q (count_user (λ n. n - 1) i k2)

-- The critical section of `do_mbox_send`: it ends in a wait if
-- `msg_length > MAX_MBOX_LENGTH - (tail - head)`, and else copies.
unfoldable pub send_critical : ℕ → ℕ → ℕ → List ℕ → ℕ → Kernel → Option (Run ℤ)
unfolding put_bytes finish
send_critical cpu now i msg blocked k =
    let b = k.mboxs i in
    if ltb (max_mbox_length + b.head) (length msg + b.tail)
    then (do
      k' ← wake_first (mbox_lock_queue i) (set_lock unlocked i k)
      some (wait_in cpu now (mbox_empty_queue i) for_change blocked k'))
    else (do
      let b' = put_bytes msg b
      k' ← finish (b'.head + max_mbox_length == b'.tail) (mbox_full_queue i) i (set_mbox i b' k)
      some (returns (pos blocked) k'))

-- The critical section of `do_mbox_recv`, with the bytes received.
unfoldable pub recv_critical : ℕ → ℕ → ℕ → ℕ → ℕ → Kernel → Option (Run (ℤ × List ℕ))
unfolding get_bytes finish
recv_critical cpu now i msg_length blocked k =
    let b = k.mboxs i in
    if ltb b.tail (msg_length + b.head)
    then (do
      k' ← wake_first (mbox_lock_queue i) (set_lock unlocked i k)
      some (wait_in cpu now (mbox_full_queue i) for_change blocked k'))
    else (do
      let (xs, b') = get_bytes msg_length b
      k' ← finish (b'.head == b'.tail) (mbox_empty_queue i) i (set_mbox i b' k)
      some (returns (pos 0, xs) k'))

abbrev pub is_locked : LockStatus → Bool
is_locked unlocked = false
is_locked locked = true

-- Take the lock and go on, or wait for it.
abbrev pub take_lock :
    {A : Type 0} → ℕ → ℕ → ℕ → (ℕ → Kernel → Option (Run A)) → ℕ → Kernel → Option (Run A)
take_lock cpu now i next blocked k =
    if is_locked (k.mboxs i).lock
    then some (wait_in cpu now (mbox_lock_queue i) for_lock blocked k)
    else next blocked (set_lock locked i k)

-- `do_mbox_send` from its start to its return or its first wait.
unfoldable pub do_mbox_send : ℕ → ℕ → ℕ → List ℕ → Kernel → Option (Run ℤ)
unfolding send_critical
do_mbox_send cpu now i msg k =
    if (k.mboxs i).valid
    then take_lock cpu now i (send_critical cpu now i msg) 0 (count_user (λ n. n + 1) i k)
    else some (returns minus_one k)

-- `do_mbox_send` from where a wait left it. Woken from the lock's queue, it does not take the lock.
pub resume_send : ℕ → ℕ → ℕ → List ℕ → Wait → ℕ → Kernel → Option (Run ℤ)
unfolding send_critical
resume_send cpu now i msg for_lock blocked k = send_critical cpu now i msg blocked k
resume_send cpu now i msg for_change blocked k =
    take_lock cpu now i (send_critical cpu now i msg) blocked k

unfoldable pub do_mbox_recv : ℕ → ℕ → ℕ → ℕ → Kernel → Option (Run (ℤ × List ℕ))
unfolding recv_critical
do_mbox_recv cpu now i msg_length k =
    if (k.mboxs i).valid
    then take_lock cpu now i (recv_critical cpu now i msg_length) 0 (count_user (λ n. n + 1) i k)
    else some (returns (minus_one, []) k)

pub resume_recv : ℕ → ℕ → ℕ → ℕ → Wait → ℕ → Kernel → Option (Run (ℤ × List ℕ))
unfolding recv_critical
resume_recv cpu now i msg_length for_lock blocked k = recv_critical cpu now i msg_length blocked k
resume_recv cpu now i msg_length for_change blocked k =
    take_lock cpu now i (recv_critical cpu now i msg_length) blocked k
