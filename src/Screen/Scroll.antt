-- ===== src/Screen/Scroll.antt =====
-- What screen_write of drivers/screen.c puts on the screen.
use oslab_riscv.Prelude.{
  ℕ, zero, suc, ◌+◌, ◌*◌, ◌≤◌, ◌<◌, ◌≡◌, ◌≢◌, refl, sym, ap, ◌∙◌, ◌⊎◌, inl, inr, Bool-cases, some,
  ◌==◌, for_range, arith,
}
use oslab_riscv.Prelude.Int.{pos}
use oslab_riscv.Strings.{strncpy, memset}
use oslab_riscv.Strings.Blocks.{memset-in, memset-out, strncpy-in, strncpy-out}
use oslab_riscv.Screen.{Terminal, Screen, screen_loc, scroll, screen_write_ch}

abbrev move_rows : (n i : ℕ) → (ℕ → ℕ) → ℕ → ℕ
move_rows n i m = for_range n i (λ r a. strncpy (screen_loc 0 r) (screen_loc 0 (r + 1)) 80 a) m

move_rows-out :
    (n i : ℕ) (m : ℕ → ℕ) (p : ℕ) → (p < 80 * i) ⊎ (80 * (i + n) ≤ p) → move_rows n i m p ≡ m p
unfolding for_range
move_rows-out zero i m p o = refl
move_rows-out (suc n) i m p o =
    move_rows-out n (i + 1) (strncpy (screen_loc 0 i) (screen_loc 0 (i + 1)) 80 m) p (ground arith)
    ∙ strncpy-out (screen_loc 0 i) (screen_loc 0 (i + 1)) 80 m p (ground arith)

-- No character of these rows is a NUL.
abbrev pub HasText : (first rows : ℕ) → (ℕ → ℕ) → Type 0
HasText first rows m = (r c : ℕ) → first ≤ r → r < first + rows → c < 80 → m (screen_loc c r) ≢ 0

move_rows-in :
    (n i : ℕ) (m : ℕ → ℕ) (r c : ℕ)
    → HasText (i + 1) n m
    → i ≤ r
    → r < i + n
    → c < 80
    → move_rows n i m (screen_loc c r) ≡ m (screen_loc c (r + 1))
unfolding for_range
move_rows-in zero i m r c h a b l = absurd (omega arith)
move_rows-in (suc n) i m r c h a b l =
    let m1 = strncpy (screen_loc 0 i) (screen_loc 0 (i + 1)) 80 m in
    let far : (p : ℕ) → 80 * (i + 1) ≤ p → m1 p ≡ m p =
      λ p o. strncpy-out (screen_loc 0 i) (screen_loc 0 (i + 1)) 80 m p (inr (omega (arith, o))) in
    elim (Bool-cases (r == i)) [
      | inl t ↦
          let e : r ≡ i = ground (arith, t) in
          let from : i * 80 + c ≡ i * 80 + 0 + c = omega arith in
          let to : (i + 1) * 80 + 0 + c ≡ (i + 1) * 80 + c = omega arith in
          rw e (
            move_rows-out n (i + 1) m1 (screen_loc c i) (inl (omega (arith, l)))
            ∙ ap m1 from
            ∙ strncpy-in (screen_loc 0 i) (screen_loc 0 (i + 1)) 80 m c (omega arith)
                (λ j k z. h (i + 1) j (omega arith) (omega arith) k (ap m (omega arith) ∙ z)) l
            ∙ ap m to)
      | inr f ↦
          let g : i + 1 ≤ r = ground (arith, f, a) in
          move_rows-in n (i + 1) m1 r c
            (λ r' c' x y k z.
              h r' c' (omega (arith, x)) (omega (arith, y)) k
                (sym (far (screen_loc c' r') (omega (arith, x))) ∙ z))
            g (omega (arith, b)) l
          ∙ far (screen_loc c (r + 1)) (omega (arith, g))
    ]

-- A new line on the last row: the rows from 21 on move up by one, the last one is blank, the rows
-- before stay, and the cursor is at the start of the last row.
pub record IsScrolled {t : Terminal} (s s' : Screen t) : Type 0 where
  pub moved :
      (i j : ℕ)
      → 21 ≤ i
      → i < 49
      → j < 80
      → s'.new_screen (screen_loc j i) ≡ s.new_screen (screen_loc j (i + 1))
  pub blank : (j : ℕ) → j < 80 → s'.new_screen (screen_loc j 49) ≡ 32
  pub kept :
      (i j : ℕ) → i < 21 → j < 80 → s'.new_screen (screen_loc j i) ≡ s.new_screen (screen_loc j i)
  pub cursor_x : s'.cursor_x ≡ pos 0
  pub cursor_y : s'.cursor_y ≡ pos 49
  pub old : s'.old_screen ≡ s.old_screen
  pub terminal : s'.terminal ≡ s.terminal

-- A new line on the last row scrolls the rows from 21 on, if the rows after it hold no NUL.
pub screen_write_ch-IsScrolled :
    {t : Terminal} (s : Screen t)
    → s.cursor_y ≡ pos 49
    → HasText 22 28 s.new_screen
    → (s' : Screen t) × (screen_write_ch 10 s ≡ some s') × IsScrolled s s'
unfolding screen_write_ch scroll
screen_write_ch-IsScrolled {t} s y h =
    let m = s.new_screen in
    let s' : Screen t = record s { cursor_x = pos 0; cursor_y = pos 49; new_screen = scroll m } in
    let up = move_rows 28 21 m in
    (
      s',
      rw (y, screen_write_ch) refl,
      record {
        moved = λ i j a b l.
            memset-out (screen_loc 0 49) 32 80 up (screen_loc j i) (inl (omega (arith, b, l)))
            ∙ move_rows-in 28 21 m i j h a b l;
        blank = λ j l.
            let place : 49 * 80 + j ≡ 49 * 80 + 0 + j = omega arith in
            ap (memset (screen_loc 0 49) 32 80 up) place ∙ memset-in (screen_loc 0 49) 32 80 up j l;
        kept = λ i j a l.
            memset-out (screen_loc 0 49) 32 80 up (screen_loc j i) (inl (omega (arith, a, l)))
            ∙ move_rows-out 28 21 m (screen_loc j i) (inl (omega (arith, a, l)));
        cursor_x = refl;
        cursor_y = refl;
        old = refl;
        terminal = refl;
      },
    )
