-- ===== src/Screen/Refresh.antt =====
-- What screen_reflush and screen_clear of drivers/screen.c leave on the terminal.
use oslab_riscv.Prelude.{
  ℕ, zero, suc, ◌+◌, ◌≤◌, ◌<◌, ◌≡◌, refl, sym, ap, ◌∙◌, ◌⊎◌, inl, inr, Bool-cases, ◌==◌, for_range,
  arith,
}
use oslab_riscv.Screen.{
  Terminal, IsPrintable, IsTerminal, Screen, screen_loc, refresh, refresh_row, screen_reflush,
}

module _ {t : Terminal} (v : IsTerminal t) where
  -- The terminal shows the characters of `old_screen`.
  abbrev pub Shows : Screen t → Type 0
  Shows s = (i j : ℕ) → i < 50 → j < 80 → v.cell s.terminal i j ≡ s.old_screen (screen_loc j i)

  -- What a part of the loop does; `covered` says which cells are up to date after it.
  record IsSwept (covered : ℕ → ℕ → Type 0) (s s' : Screen t) : Type 0 where
    pub new : s'.new_screen ≡ s.new_screen
    pub cursor_x : s'.cursor_x ≡ s.cursor_x
    pub cursor_y : s'.cursor_y ≡ s.cursor_y
    pub shows : Shows s → Shows s'
    pub done :
        (i j : ℕ) → covered i j → s'.old_screen (screen_loc j i) ≡ s.new_screen (screen_loc j i)
    pub kept : (p : ℕ) → s.old_screen p ≡ s.new_screen p → s'.old_screen p ≡ s.new_screen p

  IsSwept-none :
      (s : Screen t) (covered : ℕ → ℕ → Type 0)
      → ((i j : ℕ) → covered i j → ⊥)
      → IsSwept covered s s
  IsSwept-none s covered n = record {
    new = refl;
    cursor_x = refl;
    cursor_y = refl;
    shows = λ h. h;
    done = λ i j c. absurd (n i j c);
    kept = λ p e. e;
  }

  -- One part after another.
  IsSwept-trans :
      (a b c : ℕ → ℕ → Type 0) (s s' s'' : Screen t)
      → ((i j : ℕ) → c i j → a i j ⊎ b i j)
      → IsSwept a s s'
      → IsSwept b s' s''
      → IsSwept c s s''
  IsSwept-trans a b c s s' s'' split x y = record {
    new = y.new ∙ x.new;
    cursor_x = y.cursor_x ∙ x.cursor_x;
    cursor_y = y.cursor_y ∙ x.cursor_y;
    shows = λ h. y.shows (x.shows h);
    done = λ i j q. elim (split i j q) [
      | inl d ↦
          y.kept (screen_loc j i) (x.done i j d ∙ sym (ap (λ f. f (screen_loc j i)) x.new))
          ∙ ap (λ f. f (screen_loc j i)) x.new
      | inr d ↦ y.done i j d ∙ ap (λ f. f (screen_loc j i)) x.new
    ];
    kept = λ p e. y.kept p (x.kept p e ∙ sym (ap (λ f. f p) x.new)) ∙ ap (λ f. f p) x.new;
  }

  -- All that is to be shown can be.
  abbrev pub AllPrintable : Screen t → Type 0
  AllPrintable s = (i j : ℕ) → i < 50 → j < 80 → IsPrintable (s.new_screen (screen_loc j i))

  abbrev AtCell : (i j : ℕ) → ℕ → ℕ → Type 0
  AtCell i j i' j' = (i' ≡ i) × (j' ≡ j)

  AllPrintable-same :
      (s s' : Screen t) → s'.new_screen ≡ s.new_screen → AllPrintable s → AllPrintable s'
  AllPrintable-same s s' e g i j a b = rw e (g i j a b)

  cell-cases :
      (i j i' j' : ℕ) → ((i' ≡ i) × (j' ≡ j)) ⊎ ((i' < i) ⊎ ((i < i') ⊎ ((j' < j) ⊎ (j < j'))))
  cell-cases i j i' j' = ground arith

  refresh-IsSwept :
      (i j : ℕ) (s : Screen t)
      → AllPrintable s
      → i < 50
      → j < 80
      → IsSwept (AtCell i j) s (refresh i j s)
  unfolding refresh
  refresh-IsSwept i j s g a b =
      let p = screen_loc j i in
      elim (Bool-cases (s.new_screen p == s.old_screen p)) [
        | inl e ↦
            rw (e, refresh)
              (record {
                new = refl;
                cursor_x = refl;
                cursor_y = refl;
                shows = λ h. h;
                done = λ i' j' (x, y). ground (arith, e, x, y);
                kept = λ q k. k;
              })
        | inr f ↦
            rw (f, refresh)
              (record {
                new = refl;
                cursor_x = refl;
                cursor_y = refl;
                shows = λ h i' j' a' b'. elim (cell-cases i j i' j') [
                  | inl (x, y) ↦
                      rw (x, y)
                        (v.put_at (s.new_screen p) i j s.terminal (g i j a b) a b ∙ ground arith)
                  | inr o ↦
                      v.put_other (s.new_screen p) i j i' j' s.terminal (g i j a b) a b a' b' o
                      ∙ h i' j' a' b'
                      ∙ ground (arith, o, a, b, a', b')
                ];
                done = λ i' j' (x, y). ground (arith, x, y);
                kept = λ q k. ground (arith, k);
              })
      ]

  abbrev InRow : (i j n : ℕ) → ℕ → ℕ → Type 0
  InRow i j n i' j' = (i' ≡ i) × ((j ≤ j') × (j' < j + n))

  row-IsSwept :
      (n i j : ℕ) (s : Screen t)
      → AllPrintable s
      → i < 50
      → j + n ≤ 80
      → IsSwept (InRow i j n) s (for_range n j (λ c r. refresh i c r) s)
  unfolding for_range
  row-IsSwept zero i j s g a b =
      IsSwept-none s (InRow i j 0) (λ i' j' (x, (y, z)). absurd (omega (arith, y, z)))
  row-IsSwept (suc n) i j s g a b =
      let one = refresh-IsSwept i j s g a (omega arith) in
      IsSwept-trans (AtCell i j) (InRow i (j + 1) n) (InRow i j (suc n)) s (refresh i j s) _
        (λ i' j' (x, (y, z)). elim (Bool-cases (j' == j)) [
          | inl e ↦ inl (x, ground (arith, e))
          | inr f ↦ inr (x, (ground (arith, f, y), omega (arith, z)))
        ])
        one
        (row-IsSwept n i (j + 1) (refresh i j s) (AllPrintable-same s (refresh i j s) one.new g) a
          (omega arith))

  abbrev InRows : (i n : ℕ) → ℕ → ℕ → Type 0
  InRows i n i' j' = (i ≤ i') × ((i' < i + n) × (j' < 80))

  rows-IsSwept :
      (n i : ℕ) (s : Screen t)
      → AllPrintable s
      → i + n ≤ 50
      → IsSwept (InRows i n) s (for_range n i (λ r q. refresh_row r q) s)
  unfolding for_range
  rows-IsSwept zero i s g b =
      IsSwept-none s (InRows i 0) (λ i' j' (x, (y, z)). absurd (omega (arith, x, y)))
  rows-IsSwept (suc n) i s g b =
      let one = row-IsSwept 80 i 0 s g (omega arith) (omega arith) in
      IsSwept-trans (InRow i 0 80) (InRows (i + 1) n) (InRows i (suc n)) s (refresh_row i s) _
        (λ i' j' (x, (y, z)). elim (Bool-cases (i' == i)) [
          | inl e ↦ inl (ground (arith, e), (omega arith, z))
          | inr f ↦ inr (ground (arith, f, x), (omega (arith, y), z))
        ])
        one
        (rows-IsSwept n (i + 1) (refresh_row i s) (AllPrintable-same s (refresh_row i s) one.new g)
          (omega arith))

  -- What a call leaves: the terminal shows the text, which `old_screen` repeats, and the text and the
  -- cursor are as they were.
  pub record IsRefreshed (s s' : Screen t) : Type 0 where
    pub new : s'.new_screen ≡ s.new_screen
    pub cursor_x : s'.cursor_x ≡ s.cursor_x
    pub cursor_y : s'.cursor_y ≡ s.cursor_y
    pub old :
        (i j : ℕ) → i < 50 → j < 80 → s'.old_screen (screen_loc j i) ≡ s.new_screen (screen_loc j i)
    pub cell : (i j : ℕ) → i < 50 → j < 80 → v.cell s'.terminal i j ≡ s.new_screen (screen_loc j i)
    pub shows : Shows s'

  -- Although it sends only the characters that have changed since the last call, after a call the
  -- terminal shows the whole text, if all characters of the text are printable, and if before the call
  -- the terminal showed what `old_screen` says.
  pub screen_reflush-IsRefreshed :
      (s : Screen t) → AllPrintable s → Shows s → IsRefreshed s (screen_reflush s)
  unfolding screen_reflush
  screen_reflush-IsRefreshed s g h =
      let s' = for_range 50 0 (λ r q. refresh_row r q) s in
      let w = rows-IsSwept 50 0 s g (omega arith) in
      let same : (i j : ℕ)
          → v.cell (t.move_to s'.cursor_x s'.cursor_y s'.terminal) i j ≡ v.cell s'.terminal i j =
        λ i j. v.move s'.cursor_x s'.cursor_y i j s'.terminal in
      record {
        new = w.new;
        cursor_x = w.cursor_x;
        cursor_y = w.cursor_y;
        old = λ i j a b. w.done i j (omega arith, (omega (arith, a), b));
        cell = λ i j a b.
            same i j ∙ w.shows h i j a b ∙ w.done i j (omega arith, (omega (arith, a), b));
        shows = λ i j a b. same i j ∙ w.shows h i j a b;
      }
