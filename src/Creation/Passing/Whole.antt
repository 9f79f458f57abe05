-- ===== src/Creation/Passing/Whole.antt =====
-- The stack of a new process once do_exec of kernel/sched/sched.c has put the arguments there.
use oslab_riscv.Prelude.{
  ℕ, ◌+◌, ◌-◌, ◌*◌, ◌/◌, ◌%◌, ◌≤◌, ◌<◌, ◌≡◌, refl, ◌∙◌, ◌⊎◌, inl, some, List, arith,
}
use oslab_riscv.Memory.Bytes.{load_byte}
use oslab_riscv.Creation.{sub64, put_word, Copying, push_args}
use oslab_riscv.Creation.Arguments.{IsString-same, put_word-byte}
use oslab_riscv.Creation.Passing.{
  sizes, AreArguments, IsStack, KeepsOutside, slot, IsPassed, IsCopying,
}
use oslab_riscv.Creation.Passing.Rounds.{copy_args-Copied}

module _ (top user_sp argc : ℕ) (texts : ℕ → List ℕ) where
  -- What the process finds on its stack, from `sp` on, when `used` bytes are in use.
  pub record HasArguments (used sp : ℕ) (w : ℕ → ℕ) : Type 0 where
    pub aligned : sp % 128 ≡ 0
    pub below : sp ≤ user_sp - used
    pub room : user_sp ≤ sp + 4096
    pub argument : (i : ℕ) → i < argc → IsPassed top user_sp argc texts (8 * (argc + 1)) used w i
    pub null : w (slot top user_sp argc texts argc) ≡ 0

  IsPassed-put_word :
      (used i q x : ℕ) (w : ℕ → ℕ)
      → IsStack top user_sp
      → i < argc
      → used ≤ 4096
      → q % 8 ≡ 0
      → (slot top user_sp argc texts argc ≤ q) ⊎ (q + 4104 ≤ top)
      → IsPassed top user_sp argc texts (8 * (argc + 1)) used w i
      → IsPassed top user_sp argc texts (8 * (argc + 1)) used (put_word q x w) i
  IsPassed-put_word used i q x w v l u z o r = record {
    depth = r.depth;
    pointer = ground (arith, r.pointer, l, v.top_room, r.low, u, r.high, o);
    text =
        IsString-same (top - r.depth) (texts i) (load_byte w) _
          (λ j a b. put_word-byte q x j w z (ground (arith, a, b, r.high, r.low, u, v.top_room, o)))
          r.text;
    low = r.low;
    high = r.high;
  }

  pub HasArguments-put_word :
      (used sp q x : ℕ) (w : ℕ → ℕ)
      → IsStack top user_sp
      → used ≤ 4096
      → 8 * (argc + 1) ≤ used
      → q % 8 ≡ 0
      → (top ≤ q) ⊎ (q + 4104 ≤ top)
      → HasArguments used sp w
      → HasArguments used sp (put_word q x w)
  HasArguments-put_word used sp q x w v u r z o a = record {
    aligned = a.aligned;
    below = a.below;
    room = a.room;
    argument = λ i l.
        IsPassed-put_word used i q x w v l u z (ground (arith, o, u, r, v.top_room))
          (a.argument i l);
    null = ground (arith, a.null, o, u, r, v.top_room);
  }

  -- The arguments that the caller's memory holds end up on the stack of the new process, if they and
  -- their table fit in its page with 128 bytes to spare: its `argv` has a pointer for each, a null
  -- pointer after the last, and each points to a copy of the argument, the copies apart from the table
  -- and above the stack pointer, which is a multiple of 128. No byte outside of the page is written.
  pub push_args-HasArguments :
      (fuel : ℕ) (argv mem words : ℕ → ℕ)
      → IsStack top user_sp
      → AreArguments fuel argc argv mem texts
      → 8 * (argc + 1) + sizes texts argc 0 + 128 ≤ 4096
      → (sp : ℕ) × (w : ℕ → ℕ) × (push_args fuel user_sp top argc argv mem words ≡ some (sp, w))
        × HasArguments (8 * (argc + 1) + sizes texts argc 0) sp w
        × KeepsOutside top words w
  unfolding push_args
  push_args-HasArguments fuel argv mem words v a m =
      let used = 8 * (argc + 1) + sizes texts argc 0 in
      let s : Copying = record {
        va_addr = sub64 user_sp ((argc + 1) * 8);
        kva_addr = sub64 top ((argc + 1) * 8);
        kva_base = sub64 top ((argc + 1) * 8);
        words = words;
      } in
      let c : IsCopying top user_sp argc texts (8 * (argc + 1)) 0 s = record {
        va = omega (arith, v.user_range, v.user_room, m);
        kva = omega (arith, v.top_range, v.top_room, m);
        base = omega (arith, v.top_range, v.top_room, m);
      } in
      let (s', run, r) =
        copy_args-Copied top user_sp argc texts fuel argc (8 * (argc + 1)) 0 argv mem s v a
          (omega arith) (omega arith) (omega (arith, m)) c in
      let end : s'.kva_base ≡ slot top user_sp argc texts argc = r.state.base in
      (
        s'.va_addr / 128 * 128,
        put_word s'.kva_base 0 s'.words,
        rw run refl,
        rw end (record {
          aligned = omega arith;
          below = omega (arith, r.state.va);
          room = omega (arith, r.state.va, v.user_room, m);
          argument = λ i l.
              IsPassed-put_word used i (slot top user_sp argc texts argc) 0 s'.words v l
                (omega (arith, m)) (omega (arith, v.top_aligned, v.top_room, m)) (inl (omega arith))
                (r.passed i (omega arith) l);
          null = ground arith;
        }),
        rw end (record {
          byte = λ p o.
              put_word-byte (slot top user_sp argc texts argc) 0 p s'.words
                (omega (arith, v.top_aligned, v.top_room, m)) (ground (arith, o, v.top_room, m))
              ∙ r.kept p (ground (arith, o, m));
          word = λ q o. ground (arith, o, v.top_room, m, r.kept_word q o);
        }),
      )
