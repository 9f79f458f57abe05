-- ===== src/Kernel/Mailboxes/Tests.antt =====
-- The theorems about mailboxes at one state: mailbox 2 holds five bytes.
use oslab_riscv.Prelude.{ℕ, ◌≡◌, refl, true, some, List, [], ◌∷◌, ◌++◌, length, arith}
use oslab_riscv.Prelude.Int.{pos, minus_one}
use oslab_riscv.Kernel.{task_running, unlocked, Mailbox, Kernel}
use oslab_riscv.Kernel.Mailboxes.{returns, do_mbox_send, do_mbox_recv}
use oslab_riscv.Kernel.Mailboxes.Content.{stored, bytes_from, IsRing}
use oslab_riscv.Kernel.Mailboxes.Runs.{IsOpen, do_mbox_send-sends, do_mbox_recv-receives}

abbrev five_bytes : Mailbox
five_bytes = record {
  valid = true;
  name = 97 ∷ [];
  content = λ j. j;
  head = 62;
  tail = 67;
  user_num = 0;
  lock = unlocked;
}

abbrev system : Kernel
system = record {
  pcb = λ h. record { pid = pos h; status = task_running; wakeup_time = 0; mask = 3; pgdir = 0 };
  queue = λ q. [];
  core_running = λ c. c;
  satp = λ c. record { asid = pos 0; root = 0 };
  mlocks = λ i. record { lock = unlocked; owner = minus_one; key = pos 0 };
  barriers = λ i. record { key = minus_one; barrier_num = minus_one };
  conditions = λ i. record { cond_key = minus_one; lock_idx = minus_one; valid = true };
  mboxs = λ i. five_bytes;
}

system-IsOpen : IsOpen 2 system
system-IsOpen = record {
  valid = refl;
  lock = refl;
  ring = record { ordered = omega arith; room = omega arith };
}

-- A message that has no room.
abbrev sixty_bytes : List ℕ
sixty_bytes = bytes_from 60 0 (λ j. j)

abbrev three_bytes : List ℕ
three_bytes = 1 ∷ 2 ∷ 3 ∷ []

do_mbox_send-sends_example :
    (k' : Kernel) × (do_mbox_send 0 20 2 three_bytes system ≡ some (returns (pos 0) k'))
    × (stored (k'.mboxs 2) ≡ stored (system.mboxs 2) ++ three_bytes)
    × IsRing (k'.mboxs 2)
    × ((k'.mboxs 2).lock ≡ unlocked)
do_mbox_send-sends_example =
    do_mbox_send-sends 0 20 2 three_bytes system system-IsOpen (omega arith)

do_mbox_recv-receives_example :
    (xs : List ℕ) × (k' : Kernel) × (do_mbox_recv 0 20 2 4 system ≡ some (returns (pos 0, xs) k'))
    × (stored (system.mboxs 2) ≡ xs ++ stored (k'.mboxs 2))
    × (length xs ≡ 4)
    × IsRing (k'.mboxs 2)
    × ((k'.mboxs 2).lock ≡ unlocked)
do_mbox_recv-receives_example = do_mbox_recv-receives 0 20 2 4 system system-IsOpen (omega arith)
