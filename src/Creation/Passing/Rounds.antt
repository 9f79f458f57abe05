-- ===== src/Creation/Passing/Rounds.antt =====
-- The loop over the arguments in do_exec of kernel/sched/sched.c.
use oslab_riscv.Prelude.{
  ℕ, zero, suc, ◌+◌, ◌-◌, ◌*◌, ◌≤◌, ◌<◌, ◌≡◌, refl, sym, subst, ◌∙◌, inl, inr, Bool-cases, some,
  List, length, ◌==◌, arith,
}
use oslab_riscv.Strings.Copy.{strlen-IsString}
use oslab_riscv.Memory.Bytes.{load_byte}
use oslab_riscv.Creation.{Copying, copy_arg, copy_args}
use oslab_riscv.Creation.Arguments.{IsString-same}
use oslab_riscv.Creation.Passing.{
  sizes, AreArguments, IsStack, slot, IsPassed, IsCopying, Copied, Copies, copy_arg-IsCopying,
  copy_arg-Copies,
}

module _ (top user_sp argc : ℕ) (texts : ℕ → List ℕ) where
  IsPassed-first :
      (depth used i : ℕ) (w w' : ℕ → ℕ)
      → IsStack top user_sp
      → i < argc
      → 8 * (argc + 1) ≤ depth
      → depth + length (texts i) + 1 ≤ used
      → used ≤ 4096
      → Copies top user_sp argc texts depth i w w'
      → (w'' : ℕ → ℕ) → w'' (slot top user_sp argc texts i) ≡ w' (slot top user_sp argc texts i)
      → ((p : ℕ)
          → (top ≤ p + (depth + length (texts i) + 1)) × (p < top - 8 * (argc + 1))
          → load_byte w'' p ≡ load_byte w' p)
      → IsPassed top user_sp argc texts depth used w'' i
  IsPassed-first depth used i w w' v l r m u c w'' e k = record {
    depth = depth + length (texts i) + 1;
    pointer = e ∙ c.pointer;
    text =
        IsString-same (top - (depth + length (texts i) + 1)) (texts i) (load_byte w')
          (load_byte w'')
          (λ j a b. k j (omega (arith, a, v.top_room, m, u), omega (arith, b, r, m, u, v.top_room)))
          c.text;
    low = m;
    high = omega arith;
  }

  IsPassed-more :
      (depth depth' used j : ℕ) (w : ℕ → ℕ)
      → depth ≤ depth'
      → IsPassed top user_sp argc texts depth' used w j
      → IsPassed top user_sp argc texts depth used w j
  IsPassed-more depth depth' used j w l q = record {
    depth = q.depth;
    pointer = q.pointer;
    text = q.text;
    low = q.low;
    high = omega (arith, q.high, l);
  }

  pub copy_args-Copied :
      (fuel n depth i : ℕ) (argv mem : ℕ → ℕ) (s : Copying)
      → IsStack top user_sp
      → AreArguments fuel argc argv mem texts
      → i + n ≡ argc
      → 8 * (argc + 1) ≤ depth
      → depth + sizes texts n i ≤ 4096
      → IsCopying top user_sp argc texts depth i s
      → (s' : Copying) × (copy_args fuel argv mem n i s ≡ some s')
        × Copied top user_sp argc texts depth i (depth + sizes texts n i) s s'
  unfolding copy_args sizes
  copy_args-Copied fuel zero depth i argv mem s v a e r m c = (
    s,
    refl,
    record {
      more = omega arith;
      state =
          let same : depth ≡ depth + 0 = omega arith in
          let last : i ≡ argc = omega (arith, e) in
          subst (λ q. IsCopying top user_sp argc texts (depth + 0) q s) last
            (subst (λ q. IsCopying top user_sp argc texts q i s) same c);
      passed = λ j x y. absurd (omega (arith, x, y, e));
      kept_slot = λ j x. refl;
      kept = λ p o. refl;
      kept_word = λ q o. refl;
    },
  )
  copy_args-Copied fuel (suc n) depth i argv mem s v a e r m c =
      let l : i < argc = omega (arith, e) in
      let len = strlen-IsString fuel (argv i) (texts i) mem (a.text i l) (a.short i l) in
      let d = depth + length (texts i) + 1 in
      let m' : d ≤ 4096 = omega (arith, m) in
      let one = copy_arg-Copies top user_sp argc texts fuel depth i argv mem s v a l r m' c in
      let s1 = copy_arg (length (texts i) + 1) (argv i) mem s in
      let next = copy_arg-IsCopying top user_sp argc texts depth i (argv i) mem s v m' c in
      let (s', run, rest) =
        copy_args-Copied fuel n d (i + 1) argv mem s1 v a (omega (arith, e)) (omega (arith, r))
          (omega (arith, m)) next in
      let total : d + sizes texts n (i + 1)
          ≡ depth + (length (texts i) + 1 + sizes texts n (i + 1)) =
        omega arith in
      (
        s',
        rw len run,
        rw (← total) (record {
          more = omega arith;
          state = rest.state;
          passed = λ j x y. elim (Bool-cases (j == i)) [
            | inl t ↦
                let same : j ≡ i = ground (arith, t) in
                subst
                  (λ q.
                    IsPassed top user_sp argc texts depth (d + sizes texts n (i + 1)) s'.words q)
                  (sym same)
                  (IsPassed-first depth (d + sizes texts n (i + 1)) i s.words s1.words v l r
                    (omega arith) (omega (arith, m)) one s'.words (rest.kept_slot i (omega arith))
                    (λ p o. rest.kept p (inl o)))
            | inr f ↦
                IsPassed-more depth d _ j s'.words (omega arith)
                  (rest.passed j (ground (arith, f, x)) y)
          ];
          kept_slot = λ j x. rest.kept_slot j (omega (arith, x)) ∙ one.kept_slot j x;
          kept = λ p o. rest.kept p (ground (arith, o, m)) ∙ one.kept p (ground (arith, o, m));
          kept_word = λ q o. rest.kept_word q o ∙ one.kept_word q o;
        }),
      )
