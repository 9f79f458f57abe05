-- ===== src/Kernel/Mailboxes/Stages.antt =====
-- The runs of do_mbox_send and do_mbox_recv of kernel/locking/lock.c, up to their next wait.
use oslab_riscv.Prelude.{
  ℕ, zero, suc, ◌+◌, ◌-◌, ◌≤◌, ◌<◌, ◌≡◌, ◌≢◌, refl, ap, ◌∙◌, Bool, true, false, Option, some, List,
  [], ◌∷◌, ◌++◌, length, length-remove-le, ◌==◌, ltb, if◌then◌else◌, arith,
}
use oslab_riscv.Prelude.Int.{ℤ, pos}
use oslab_riscv.Kernel.{
  unlocked, Mailbox, task_blocked, QueueId, ready_queue, mbox_lock_queue, mbox_full_queue,
  mbox_empty_queue, Kernel, queue_tag, eq_queue_iff,
}
use oslab_riscv.Kernel.Queue.{set_status, add_queue}
use oslab_riscv.Kernel.Sched.{do_scheduler}
use oslab_riscv.Kernel.Sched.Calls.{unblocked, do_unblock-cons}
use oslab_riscv.Kernel.Sched.Frame.{do_scheduler-SameTables}
use oslab_riscv.Kernel.Mailboxes.{
  max_mbox_length, set_mbox, set_lock, wake_first, wake_all, for_change, waits, returns, wait_in,
  count_user, put_bytes, finish, send_critical,
}
use oslab_riscv.Kernel.Mailboxes.Content.{stored, IsRing, put_bytes-stored}

-- A step that returns a state with the same mailboxes.
abbrev KeepsBoxes : Kernel → Option Kernel → Type 0
KeepsBoxes k r = (k' : Kernel) × (r ≡ some k') × (k'.mboxs ≡ k.mboxs)

wake_first-keeps : (q : QueueId) (k : Kernel) → KeepsBoxes k (wake_first q k)
wake_first-keeps q k = go (k.queue q) refl
  where
    go : (hs : List ℕ) → k.queue q ≡ hs → KeepsBoxes k (wake_first q k)
    go [] e = (k, rw (e, wake_first) refl, refl)
    go (h ∷ hs) e = (unblocked h k, rw (e, wake_first) (do_unblock-cons q k h hs e), refl)

wake_all-keeps :
    (n : ℕ) (q : QueueId) (k : Kernel)
    → q ≢ ready_queue
    → length (k.queue q) < n
    → KeepsBoxes k (wake_all n q k)
unfolding wake_all
wake_all-keeps zero q k ne l = absurd (omega arith)
wake_all-keeps (suc n) q k ne l = go (k.queue q) refl (wake_all-keeps n q)
  where
    go :
        (hs : List ℕ)
        → k.queue q ≡ hs
        → ((k1 : Kernel)
            → q ≢ ready_queue
            → length (k1.queue q) < n
            → KeepsBoxes k1 (wake_all n q k1))
        → KeepsBoxes k (wake_all (suc n) q k)
    go [] e ih = (k, rw (e, wake_all) refl, refl)
    go (h ∷ hs) e ih =
        let k1 = unblocked h k in
        let (k', r, m) =
          ih k1 ne (ground (arith, eq_queue_iff ready_queue q, length-remove-le h hs, e)) in
        (k', rw (e, wake_all) (rw (do_unblock-cons q k h hs e) r), m)

-- The ring of a mailbox, apart from its lock and its users.
pub record SameRing (b c : Mailbox) : Type 0 where
  pub content : c.content ≡ b.content
  pub head : c.head ≡ b.head
  pub tail : c.tail ≡ b.tail

-- A state in which mailbox i has the ring of `b` and its lock is free.
pub record IsReleased (i : ℕ) (b : Mailbox) (k : Kernel) : Type 0 where
  pub ring : SameRing b (k.mboxs i)
  pub lock : (k.mboxs i).lock ≡ unlocked

finish-IsReleased :
    (all : Bool) (q : QueueId) (i : ℕ) (k : Kernel)
    → q ≢ ready_queue
    → (k' : Kernel) × (finish all q i k ≡ some k') × IsReleased i (k.mboxs i) k'
unfolding finish
finish-IsReleased all q i k ne =
    let (k1, r1, m1) = first all in
    let (k2, r2, m2) = wake_first-keeps (mbox_lock_queue i) (set_lock unlocked i k1) in
    let (k3, r3, m3) = wake_first-keeps q (count_user (λ n. n - 1) i k2) in
    (
      k3,
      rw (r1, finish) (rw r2 r3),
      record {
        ring = record {
          content = rw (m3, m2, m1) (ground arith);
          head = rw (m3, m2, m1) (ground arith);
          tail = rw (m3, m2, m1) (ground arith);
        };
        lock = rw (m3, m2, m1) (ground arith);
      },
    )
  where
    first : (a : Bool) → KeepsBoxes k (if a then wake_all (length (k.queue q) + 1) q k else some k)
    first true = wake_all-keeps (length (k.queue q) + 1) q k ne (omega arith)
    first false = (k, refl, refl)

pub finish-box :
    (all : Bool) (q : QueueId) (i : ℕ) (b : Mailbox) (k : Kernel)
    → q ≢ ready_queue
    → (k' : Kernel) × (finish all q i (set_mbox i b k) ≡ some k') × IsReleased i b k'
finish-box all q i b k ne =
    let (k', e, d) = finish-IsReleased all q i (set_mbox i b k) ne in
    let here : (set_mbox i b k).mboxs i ≡ b = ground arith in (k', e, rw here at d)

pub SameRing-IsRing : (b c : Mailbox) → SameRing b c → IsRing b → IsRing c
SameRing-IsRing b c s r = record {
  ordered = rw (s.head, s.tail) r.ordered;
  room = rw (s.head, s.tail) r.room;
}

pub SameRing-stored : (b c : Mailbox) → SameRing b c → stored c ≡ stored b
SameRing-stored b c s = rw (s.content, s.head, s.tail) refl

pub release_and_wait :
    {A : Type 0} (cpu now : ℕ) (q : QueueId) (i : ℕ) (k : Kernel) (blocked : ℕ)
    → (k1 k' : Kernel) × (wake_first (mbox_lock_queue i) (set_lock unlocked i k) ≡ some k1)
      × (wait_in {A = A} cpu now q for_change blocked k1 ≡ waits for_change (blocked + 1) k')
      × IsReleased i (k.mboxs i) k'
release_and_wait cpu now q i k blocked =
    let (k1, e, m) = wake_first-keeps (mbox_lock_queue i) (set_lock unlocked i k) in
    let h = k1.core_running cpu in
    let k2 = add_queue q h (set_status h task_blocked k1) in
    let k' = do_scheduler cpu now k2 in
    let m' : k'.mboxs ≡ (set_lock unlocked i k).mboxs =
      (do_scheduler-SameTables cpu now k2).mboxs ∙ m in
    (
      k1,
      k',
      e,
      refl,
      record {
        ring = record {
          content = rw m' (ground arith);
          head = rw m' (ground arith);
          tail = rw m' (ground arith);
        };
        lock = rw m' (ground arith);
      },
    )

-- What a run of `do_mbox_send` does, from the critical section on: it appends the message, or it
-- waits in the queue of those that need room with the mailbox as it was, its lock free again.
module _ (cpu now i : ℕ) (msg : List ℕ) (blocked : ℕ) (k : Kernel) where
  pub send_critical-sends :
      IsRing (k.mboxs i)
      → length msg + (k.mboxs i).tail ≤ max_mbox_length + (k.mboxs i).head
      → (k' : Kernel) × (send_critical cpu now i msg blocked k ≡ some (returns (pos blocked) k'))
        × (stored (k'.mboxs i) ≡ stored (k.mboxs i) ++ msg)
        × IsRing (k'.mboxs i)
        × ((k'.mboxs i).lock ≡ unlocked)
  unfolding send_critical
  send_critical-sends v l =
      let b = k.mboxs i in
      let b' = put_bytes msg b in
      let (s, r, h, t) = put_bytes-stored msg b v l in
      let (k', e, d) =
        finish-box (b'.head + max_mbox_length == b'.tail) (mbox_full_queue i) i b' k
          (λ p. ground (arith, ap queue_tag p)) in
      let fits : ltb (max_mbox_length + b.head) (length msg + b.tail) ≡ false = ground arith in
      (
        k',
        rw (fits, send_critical) (rw e refl),
        SameRing-stored b' (k'.mboxs i) d.ring ∙ s,
        SameRing-IsRing b' (k'.mboxs i) d.ring r,
        d.lock,
      )

  pub send_critical-waits :
      max_mbox_length + (k.mboxs i).head < length msg + (k.mboxs i).tail
      → (k' : Kernel) × (send_critical cpu now i msg blocked k
          ≡ some (waits for_change (blocked + 1) k'))
        × IsReleased i (k.mboxs i) k'
  unfolding send_critical
  send_critical-waits l =
      let full : ltb (max_mbox_length + (k.mboxs i).head) (length msg + (k.mboxs i).tail) ≡ true =
        ground arith in
      let (k1, k', e, w, d) = release_and_wait {A = ℤ} cpu now (mbox_empty_queue i) i k blocked in
      (k', rw (full, send_critical) (rw e (ap some w)), d)
