-- ===== src/Kernel/Tests/Turns.antt =====
-- The turn of process 3, which waits behind one other, when both cores call the scheduler.
use oslab_riscv.Prelude.{ℕ, refl, List, [], ◌∷◌, arith}
use oslab_riscv.Kernel.Sched.Turns.{Waits, Served, do_scheduler-serves}
use oslab_riscv.Kernel.Tests.{system}

system-Waits : Waits 0 3 1 system
system-Waits = record {
  before = 2 ∷ [];
  after = [];
  split = refl;
  place = omega arith;
  new = refl;
  awake = refl;
  runs = refl;
}

abbrev calls : List (ℕ × ℕ)
calls = (0, 5) ∷ (1, 6) ∷ (0, 7) ∷ []

do_scheduler-serves_example : Served 3 calls system
do_scheduler-serves_example = do_scheduler-serves 0 3 1 calls system system-Waits (omega arith)
