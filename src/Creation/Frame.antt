-- ===== src/Creation/Frame.antt =====
-- The contexts that a new process starts from, as arch/riscv/kernel/entry.S loads them.
use oslab_riscv.Prelude.{
  ℕ, zero, suc, ◌+◌, ◌-◌, ◌*◌, ◌^◌, ◌≤◌, ◌<◌, ◌≡◌, refl, ◌∙◌, ◌⊎◌, inl, inr, Bool-cases, ◌==◌,
  if◌then◌else◌, for_range, arith,
}
use oslab_riscv.Creation.{
  sub64, regs_context_size, switchto_context_size, reg_at, put_word, push_frame,
}

-- What RESTORE_CONTEXT leaves in the processor; `x 0` is always 0.
pub record Registers : Type 0 where
  pub pc : ℕ
  pub sstatus : ℕ
  pub x : ℕ → ℕ

-- `PCB_KERNEL_SP` and `PCB_USER_SP` of the process are the arguments.
abbrev pub restore_context : (words : ℕ → ℕ) (kernel_sp user_sp : ℕ) → Registers
restore_context words kernel_sp user_sp =
    let regs = kernel_sp + switchto_context_size in
    record {
      pc = words (reg_at regs 33);
      sstatus = words (reg_at regs 32);
      x = λ i. if i == 0 then 0 else if i == 2 then user_sp else words (reg_at regs i);
    }

-- The `ra` and `sp` that `switch_to` loads.
abbrev pub switch_ra : (words : ℕ → ℕ) (kernel_sp : ℕ) → ℕ
switch_ra words kernel_sp = words (reg_at kernel_sp 0)

abbrev pub switch_sp : (words : ℕ → ℕ) (kernel_sp : ℕ) → ℕ
switch_sp words kernel_sp = words (reg_at kernel_sp 1)

zeros-out :
    (n i base q : ℕ) (w : ℕ → ℕ)
    → (q < base + 8 * i) ⊎ (base + 8 * (i + n) ≤ q)
    → for_range n i (λ r v. put_word (reg_at base r) 0 v) w q ≡ w q
unfolding for_range
zeros-out zero i base q w o = refl
zeros-out (suc n) i base q w o =
    zeros-out n (i + 1) base q (put_word (reg_at base i) 0 w) (ground arith) ∙ ground arith

zeros-in :
    (n i base j : ℕ) (w : ℕ → ℕ)
    → i ≤ j
    → j < i + n
    → for_range n i (λ r v. put_word (reg_at base r) 0 v) w (reg_at base j) ≡ 0
unfolding for_range
zeros-in zero i base j w a b = absurd (omega arith)
zeros-in (suc n) i base j w a b = elim (Bool-cases (i == j)) [
  | inl t ↦
      zeros-out n (i + 1) base (reg_at base j) (put_word (reg_at base i) 0 w) (ground (arith, t))
      ∙ ground (arith, t)
  | inr f ↦
      zeros-in n (i + 1) base j (put_word (reg_at base i) 0 w) (ground (arith, f)) (omega arith)
]

-- The contexts of a process that starts at `entry`: switching to it leads to `ret`, and restoring its
-- context to its entry in user mode, with its control block in `tp` and zeros in the registers that
-- nothing else sets. No word outside of the 400 bytes below the top is written.
pub record IsFrame (top entry tp ret kernel_sp : ℕ) (w w' : ℕ → ℕ) : Type 0 where
  pub place : kernel_sp ≡ top - 400
  pub ra : switch_ra w' kernel_sp ≡ ret
  pub sp : switch_sp w' kernel_sp ≡ kernel_sp
  pub pc : (user_sp : ℕ) → (restore_context w' kernel_sp user_sp).pc ≡ entry
  pub sstatus : (user_sp : ℕ) → (restore_context w' kernel_sp user_sp).sstatus ≡ 0x20
  pub x :
      (user_sp i : ℕ)
      → i < 32
      → (restore_context w' kernel_sp user_sp).x i
        ≡ (if i == 1 then entry else if i == 2 then user_sp else if i == 4 then tp else 0)
  pub kept : (q : ℕ) → (q + 400 < top) ⊎ (top ≤ q) → w' q ≡ w q

pub push_frame-IsFrame :
    (top entry tp ret : ℕ) (words : ℕ → ℕ)
    → 400 ≤ top
    → top < 2 ^ 64
    → let (kernel_sp, w) = push_frame top entry tp ret words in
      IsFrame top entry tp ret kernel_sp words w
unfolding push_frame
push_frame-IsFrame top entry tp ret words a b =
    let regs : sub64 top regs_context_size ≡ top - 288 = omega (arith, a, b) in
    let ksp : sub64 (top - 288) switchto_context_size ≡ top - 400 = omega (arith, a, b) in
    rw (regs, ksp)
      (record {
        place = refl;
        ra = ground arith;
        sp = ground arith;
        pc = λ u. ground (arith, a);
        sstatus = λ u. ground (arith, a);
        x = λ u i l. ground (arith, a, l, zeros-in 32 0 (top - 288) i words (omega arith) l);
        kept =
            λ q o. ground (arith, a, o, zeros-out 32 0 (top - 288) q words (ground (arith, a, o)));
      })
