-- ===== src/Kernel/Mailboxes/Runs.antt =====
-- The first runs of do_mbox_send and do_mbox_recv of kernel/locking/lock.c on a mailbox that is open
-- and whose lock is free.
use oslab_riscv.Prelude.{
  ℕ, ◌+◌, ◌≤◌, ◌<◌, ◌≡◌, refl, sym, ap, ◌∙◌, Bool, true, false, Option, some, List, [], ◌++◌,
  length, ◌==◌, ltb, if◌then◌else◌, arith,
}
use oslab_riscv.Prelude.Int.{ℤ, pos, minus_one}
use oslab_riscv.Kernel.{
  unlocked, locked, Mailbox, queue_tag, mbox_full_queue, mbox_empty_queue, Kernel,
}
use oslab_riscv.Kernel.Mailboxes.{
  max_mbox_length, set_lock, for_change, waits, returns, count_user, get_bytes, Run, take_lock,
  is_locked, send_critical, recv_critical, do_mbox_send, do_mbox_recv,
}
use oslab_riscv.Kernel.Mailboxes.Content.{stored, IsRing, get_bytes-stored}
use oslab_riscv.Kernel.Mailboxes.Stages.{
  SameRing, finish-box, SameRing-IsRing, SameRing-stored, release_and_wait, send_critical-sends,
}

-- A mailbox that a process may work on at once.
pub record IsOpen (i : ℕ) (k : Kernel) : Type 0 where
  pub valid : (k.mboxs i).valid ≡ true
  pub lock : (k.mboxs i).lock ≡ unlocked
  pub ring : IsRing (k.mboxs i)

-- The state in which the critical section is entered.
abbrev pub entered : ℕ → Kernel → Kernel
entered i k = set_lock locked i (count_user (λ n. n + 1) i k)

entered-ring : (i : ℕ) (k : Kernel) → SameRing (k.mboxs i) ((entered i k).mboxs i)
entered-ring i k = record { content = ground arith; head = ground arith; tail = ground arith }

SameRing-trans : {a b c : Mailbox} → SameRing a b → SameRing b c → SameRing a c
SameRing-trans r s = record {
  content = s.content ∙ r.content;
  head = s.head ∙ r.head;
  tail = s.tail ∙ r.tail;
}

if_true {ℓ} : {A : Type ℓ} (b : Bool) (x y : A) → b ≡ true → (if b then x else y) ≡ x
if_true b x y e = rw e refl

if_false {ℓ} : {A : Type ℓ} (b : Bool) (x y : A) → b ≡ false → (if b then x else y) ≡ y
if_false b x y e = rw e refl

take_lock-free :
    {A : Type 0}
    → (cpu now i : ℕ) (next : ℕ → Kernel → Option (Run A)) (blocked : ℕ) (k : Kernel)
    → (k.mboxs i).lock ≡ unlocked
    → take_lock cpu now i next blocked k ≡ next blocked (set_lock locked i k)
take_lock-free cpu now i next blocked k e = if_false (is_locked (k.mboxs i).lock) _ _ (rw e refl)

do_mbox_send-entered :
    (cpu now i : ℕ) (msg : List ℕ) (k : Kernel)
    → IsOpen i k
    → do_mbox_send cpu now i msg k ≡ send_critical cpu now i msg 0 (entered i k)
unfolding do_mbox_send
do_mbox_send-entered cpu now i msg k o =
    let free : ((count_user (λ n. n + 1) i k).mboxs i).lock ≡ unlocked = ground (arith, o.lock) in
    if_true (k.mboxs i).valid _ (some (returns minus_one k)) o.valid
    ∙ take_lock-free cpu now i (send_critical cpu now i msg) 0 (count_user (λ n. n + 1) i k) free

do_mbox_recv-entered :
    (cpu now i n : ℕ) (k : Kernel)
    → IsOpen i k
    → do_mbox_recv cpu now i n k ≡ recv_critical cpu now i n 0 (entered i k)
unfolding do_mbox_recv
do_mbox_recv-entered cpu now i n k o =
    let free : ((count_user (λ n. n + 1) i k).mboxs i).lock ≡ unlocked = ground (arith, o.lock) in
    if_true (k.mboxs i).valid _ (some (returns (minus_one, []) k)) o.valid
    ∙ take_lock-free cpu now i (recv_critical cpu now i n) 0 (count_user (λ n. n + 1) i k) free

-- On an open mailbox that is not locked and has room for the message, `do_mbox_send` returns 0, for
-- it has not waited; the message is appended to what is stored, and the lock is free again.
pub do_mbox_send-sends :
    (cpu now i : ℕ) (msg : List ℕ) (k : Kernel)
    → IsOpen i k
    → length msg + (k.mboxs i).tail ≤ max_mbox_length + (k.mboxs i).head
    → (k' : Kernel) × (do_mbox_send cpu now i msg k ≡ some (returns (pos 0) k'))
      × (stored (k'.mboxs i) ≡ stored (k.mboxs i) ++ msg)
      × IsRing (k'.mboxs i)
      × ((k'.mboxs i).lock ≡ unlocked)
do_mbox_send-sends cpu now i msg k o l =
    let same = entered-ring i k in
    let (k', e, s, r, u) =
      send_critical-sends cpu now i msg 0 (entered i k) (SameRing-IsRing (k.mboxs i) _ same o.ring)
        (rw (same.head, same.tail) l) in
    (
      k',
      do_mbox_send-entered cpu now i msg k o ∙ e,
      s ∙ ap (λ c. c ++ msg) (SameRing-stored _ _ same),
      r,
      u,
    )

-- On an open mailbox that is not locked and holds at least n bytes, `do_mbox_recv` returns 0 and the
-- first n of them; the others stay, and the lock is free again.
pub do_mbox_recv-receives :
    (cpu now i n : ℕ) (k : Kernel)
    → IsOpen i k
    → n + (k.mboxs i).head ≤ (k.mboxs i).tail
    → (xs : List ℕ) × (k' : Kernel) × (do_mbox_recv cpu now i n k ≡ some (returns (pos 0, xs) k'))
      × (stored (k.mboxs i) ≡ xs ++ stored (k'.mboxs i))
      × (length xs ≡ n)
      × IsRing (k'.mboxs i)
      × ((k'.mboxs i).lock ≡ unlocked)
unfolding recv_critical
do_mbox_recv-receives cpu now i n k o l =
    let same = entered-ring i k in
    let k0 = entered i k in
    let b = k0.mboxs i in
    let (g, m, r) =
      get_bytes-stored n b (SameRing-IsRing (k.mboxs i) b same o.ring)
        (rw (same.head, same.tail) l) in
    let xs = (get_bytes n b).0 in
    let b' = (get_bytes n b).1 in
    let (k', e, d) =
      finish-box (b'.head == b'.tail) (mbox_empty_queue i) i b' k0
        (λ p. ground (arith, ap queue_tag p)) in
    let fits : ltb b.tail (n + b.head) ≡ false = ground (arith, same.head, same.tail) in
    (
      xs,
      k',
      do_mbox_recv-entered cpu now i n k o ∙ rw (fits, recv_critical) (rw e refl),
      sym (SameRing-stored _ _ same) ∙ g ∙ ap (λ c. xs ++ c) (sym (SameRing-stored _ _ d.ring)),
      m,
      SameRing-IsRing b' _ d.ring r,
      d.lock,
    )

-- On an open mailbox that is not locked and holds fewer than n bytes, `do_mbox_recv` waits for a
-- change, with nothing taken from the mailbox and its lock free again.
pub do_mbox_recv-waits :
    (cpu now i n : ℕ) (k : Kernel)
    → IsOpen i k
    → (k.mboxs i).tail < n + (k.mboxs i).head
    → (k' : Kernel) × (do_mbox_recv cpu now i n k ≡ some (waits for_change 1 k'))
      × SameRing (k.mboxs i) (k'.mboxs i)
      × ((k'.mboxs i).lock ≡ unlocked)
unfolding recv_critical
do_mbox_recv-waits cpu now i n k o l =
    let same = entered-ring i k in
    let k0 = entered i k in
    let empty : ltb (k0.mboxs i).tail (n + (k0.mboxs i).head) ≡ true =
      ground (arith, same.head, same.tail) in
    let (k1, k', e, w, d) = release_and_wait {A = ℤ × List ℕ} cpu now (mbox_full_queue i) i k0 0 in
    (
      k',
      do_mbox_recv-entered cpu now i n k o ∙ rw (empty, recv_critical) (rw e (ap some w)),
      SameRing-trans same d.ring,
      d.lock,
    )
