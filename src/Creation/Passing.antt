-- ===== src/Creation/Passing.antt =====
-- The stack that do_exec of kernel/sched/sched.c gives a new process.
pub mod Rounds
pub mod Whole
use oslab_riscv.Prelude.{
  ℕ, zero, suc, ◌+◌, ◌-◌, ◌*◌, ◌/◌, ◌%◌, ◌^◌, ◌≤◌, ◌<◌, ◌≡◌, refl, sym, subst, ◌∙◌, ◌⊎◌, inl, inr,
  Bool-cases, some, List, length, ◌==◌, arith,
}
use oslab_riscv.Strings.Copy.{IsString, strlen-IsString}
use oslab_riscv.Memory.Bytes.{load_byte}
use oslab_riscv.Creation.{sub64, put_word, strncpy_from, Copying, copy_arg, copy_args, push_args}
use oslab_riscv.Creation.Arguments.{
  IsString-same, put_word-byte, strncpy_from-out, strncpy_from-word, strncpy_from-IsString,
}

-- The bytes that the arguments from `i` on take, with their NULs.
unfoldable pub sizes : (texts : ℕ → List ℕ) (rounds i : ℕ) → ℕ
sizes texts zero i = 0
sizes texts (suc n) i = length (texts i) + 1 + sizes texts n (i + 1)

-- The caller's arguments are strings in its memory.
pub record AreArguments (fuel argc : ℕ) (argv mem : ℕ → ℕ) (texts : ℕ → List ℕ) : Type 0 where
  pub bytes : (p : ℕ) → mem p < 256
  pub text : (i : ℕ) → i < argc → IsString (argv i) (texts i) mem
  pub short : (i : ℕ) → i < argc → length (texts i) < fuel

-- Where the stack is: its top for the kernel and for the process, each with a page of room below it.
pub record IsStack (top user_sp : ℕ) : Type 0 where
  pub top_aligned : top % 8 ≡ 0
  pub top_range : top < 2 ^ 64
  pub top_room : 4096 ≤ top
  pub user_range : user_sp < 2 ^ 64
  pub user_room : 4096 ≤ user_sp

-- Nothing outside of the page below the top is written.
pub record KeepsOutside (top : ℕ) (w w' : ℕ → ℕ) : Type 0 where
  pub byte : (p : ℕ) → (p + 4096 < top) ⊎ (top ≤ p) → load_byte w' p ≡ load_byte w p
  pub word : (q : ℕ) → (q + 4104 ≤ top) ⊎ (top ≤ q) → w' q ≡ w q

module _ (top user_sp argc : ℕ) (texts : ℕ → List ℕ) where
  -- Entry `i` of the new `argv`, in the kernel's map.
  abbrev pub slot : ℕ → ℕ
  slot i = top - 8 * (argc + 1) + 8 * i

  -- Argument `i` is a string of the process's stack below `above` and not below `below`, both counted
  -- down from the top.
  pub record IsPassed (above below : ℕ) (w : ℕ → ℕ) (i : ℕ) : Type 0 where
    pub depth : ℕ
    pub pointer : w (slot i) ≡ user_sp - depth
    pub text : IsString (top - depth) (texts i) (load_byte w)
    pub low : depth ≤ below
    pub high : above + length (texts i) < depth

  -- The loop's state: so far `depth` bytes are in use, and `i` entries are written.
  pub record IsCopying (depth i : ℕ) (s : Copying) : Type 0 where
    pub va : s.va_addr ≡ user_sp - depth
    pub kva : s.kva_addr ≡ top - depth
    pub base : s.kva_base ≡ slot i

  -- What the rounds from `i` on do, up to `used` bytes in use.
  pub record Copied (depth i used : ℕ) (s s' : Copying) : Type 0 where
    pub more : depth ≤ used
    pub state : IsCopying used argc s'
    pub passed : (j : ℕ) → i ≤ j → j < argc → IsPassed depth used s'.words j
    pub kept_slot : (j : ℕ) → j < i → s'.words (slot j) ≡ s.words (slot j)
    pub kept :
        (p : ℕ)
        → ((top ≤ p + depth) × (p < top - 8 * (argc + 1))) ⊎ ((p + used < top) ⊎ (top ≤ p))
        → load_byte s'.words p ≡ load_byte s.words p
    pub kept_word : (q : ℕ) → (q + 4104 ≤ top) ⊎ (top ≤ q) → s'.words q ≡ s.words q

  pub copy_arg-IsCopying :
      (depth i src : ℕ) (mem : ℕ → ℕ) (s : Copying)
      → IsStack top user_sp
      → depth + length (texts i) + 1 ≤ 4096
      → IsCopying depth i s
      → IsCopying (depth + length (texts i) + 1) (i + 1) (copy_arg (length (texts i) + 1) src mem s)
  unfolding copy_arg
  copy_arg-IsCopying depth i src mem s v l c = record {
    va = omega (arith, c.va, v.user_range, v.user_room, l);
    kva = omega (arith, c.kva, v.top_range, v.top_room, l);
    base = omega (arith, c.base);
  }

  -- What one round does to the memory.
  pub record Copies (depth i : ℕ) (w w' : ℕ → ℕ) : Type 0 where
    pub pointer : w' (slot i) ≡ user_sp - (depth + length (texts i) + 1)
    pub text : IsString (top - (depth + length (texts i) + 1)) (texts i) (load_byte w')
    pub kept_slot : (j : ℕ) → j < i → w' (slot j) ≡ w (slot j)
    pub kept :
        (p : ℕ)
        → ((top ≤ p + depth) × (p < top - 8 * (argc + 1)))
          ⊎ ((p + (depth + length (texts i) + 1) < top) ⊎ (top ≤ p))
        → load_byte w' p ≡ load_byte w p
    pub kept_word : (q : ℕ) → (q + 4104 ≤ top) ⊎ (top ≤ q) → w' q ≡ w q

  pub copy_arg-Copies :
      (fuel depth i : ℕ) (argv mem : ℕ → ℕ) (s : Copying)
      → IsStack top user_sp
      → AreArguments fuel argc argv mem texts
      → i < argc
      → 8 * (argc + 1) ≤ depth
      → depth + length (texts i) + 1 ≤ 4096
      → IsCopying depth i s
      → Copies depth i s.words (copy_arg (length (texts i) + 1) (argv i) mem s).words
  unfolding copy_arg
  copy_arg-Copies fuel depth i argv mem s v a l r m c =
      let n = length (texts i) + 1 in
      let n' : n ≡ length (texts i) + 1 = refl in
      let to : sub64 s.kva_addr n ≡ top - (depth + length (texts i) + 1) =
        omega (arith, c.kva, v.top_range, v.top_room, m) in
      let d = top - (depth + length (texts i) + 1) in
      let w1 = strncpy_from d (argv i) n mem s.words in
      let value = sub64 s.va_addr n in
      let aligned : slot i % 8 ≡ 0 = omega (arith, v.top_aligned, v.top_room, l, r, m) in
      rw (to, c.base)
        (record {
          pointer = ground (arith, c.va, v.user_range, v.user_room, m);
          text =
              IsString-same d (texts i) (load_byte w1) _
                (λ j x y.
                  put_word-byte (slot i) value j w1 aligned
                    (inl (omega (arith, y, r, m, v.top_room))))
                (strncpy_from-IsString d (argv i) (texts i) mem s.words a.bytes (a.text i l));
          kept_slot = λ j x.
              let far : d + n ≤ slot j = omega (arith, r, m, v.top_room) in
              ground (
                arith,
                x,
                v.top_room,
                m,
                l,
                r,
                strncpy_from-word d (argv i) n (slot j) mem s.words (inl far),
              );
          kept = λ p o.
              put_word-byte (slot i) value p w1 aligned (ground (arith, o, l, r, m, v.top_room))
              ∙ strncpy_from-out d (argv i) n mem s.words p (ground (arith, o, r, m, v.top_room));
          kept_word = λ q o.
              let far : (d + n ≤ q) ⊎ (q + 8 ≤ d) = ground (arith, o, r, m, v.top_room) in
              ground
                (arith, o, l, r, m, v.top_room, strncpy_from-word d (argv i) n q mem s.words far);
        })
