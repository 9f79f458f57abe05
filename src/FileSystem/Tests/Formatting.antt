-- ===== src/FileSystem/Tests/Formatting.antt =====
-- The theorems about do_mkfs and about the loops of do_fread and do_fwrite on the card of the tests.
use oslab_riscv.Prelude.{ℕ, ◌≡◌, refl, inr, true, some, List, [], ◌∷◌}
use oslab_riscv.FileSystem.{Fs}
use oslab_riscv.FileSystem.Files.{read_loop, write_loop}
use oslab_riscv.FileSystem.Files.Rounds.{ReadRun, WriteRun, transfer_runs}
use oslab_riscv.FileSystem.Format.{wants_reset, do_mkfs}
use oslab_riscv.FileSystem.Format.Root.{IsFresh, do_mkfs-IsFresh}
use oslab_riscv.FileSystem.Tests.{array_card, array_card-IsCard, root}

-- A key that says nothing, and then "y".
abbrev keys : List ℕ
keys = b'x' ∷ b'y' ∷ []

says_yes : wants_reset keys ≡ some true
unfolding wants_reset
says_yes = refl

do_mkfs-IsFresh_example :
    (s' : Fs array_card) × (do_mkfs keys root ≡ some s') × IsFresh array_card-IsCard s'
do_mkfs-IsFresh_example = do_mkfs-IsFresh array_card-IsCard keys root (inr says_yes)

transfer_runs_example :
    ReadRun 0 128 100 3 root (read_loop 3 0 128 100 3 root)
    × WriteRun 0 128 100 3 root (write_loop 3 0 128 100 3 root)
transfer_runs_example = transfer_runs 0 128 100 3 root
