-- ===== src/Screen/Printing.antt =====
-- What screen_write of drivers/screen.c does with plain text.
use oslab_riscv.Prelude.{
  ℕ, suc, ◌+◌, ◌-◌, ◌≤◌, ◌<◌, ◌≡◌, ◌≢◌, refl, sym, ap, ◌∙◌, ◌⊎◌, inl, inr, Bool-cases, false, some,
  List, [], ◌∷◌, length, get_or, update, ◌==◌, arith,
}
use oslab_riscv.Prelude.Int.{pos, succ_ℤ}
use oslab_riscv.Strings.Copy.{IsString, strlen-IsString}
use oslab_riscv.Screen.{
  Terminal, Screen, screen_loc, cursor_loc, print_ch, screen_write_ch, write_from, screen_write,
}

-- No character is a new line, a backspace or a delete.
abbrev pub IsPlain : List ℕ → Type 0
IsPlain [] = Unit {0}
IsPlain (c ∷ cs) = (c ≢ 10) × ((c ≢ 8) × ((c ≢ 127) × IsPlain cs))

-- The text is at the cursor and after it, the cursor is after the text, and the rest is as it was.
pub record IsPrinted {t : Terminal} (x y : ℕ) (text : List ℕ) (s s' : Screen t) : Type 0 where
  pub there : (j : ℕ) → j < length text → s'.new_screen (screen_loc (x + j) y) ≡ get_or text j 0
  pub kept :
      (p : ℕ)
      → (p < screen_loc x y) ⊎ (screen_loc x y + length text ≤ p)
      → s'.new_screen p ≡ s.new_screen p
  pub cursor_x : s'.cursor_x ≡ pos (x + length text)
  pub cursor_y : s'.cursor_y ≡ pos y
  pub old : s'.old_screen ≡ s.old_screen
  pub terminal : s'.terminal ≡ s.terminal

cursor_loc-on :
    (x y : ℕ) → screen_loc x y < 4000 → cursor_loc (pos x) (pos y) ≡ some (screen_loc x y)
unfolding cursor_loc
cursor_loc-on x y l = ground (arith, l)

module _ {t : Terminal} where
  print_one :
      (c x y : ℕ) (s : Screen t)
      → c ≢ 10
      → c ≢ 8
      → c ≢ 127
      → s.cursor_x ≡ pos x
      → s.cursor_y ≡ pos y
      → screen_loc x y < 4000
      → screen_write_ch c s
        ≡ some (record s {
          new_screen = update s.new_screen (screen_loc x y) c;
          cursor_x = pos (x + 1);
        })
  unfolding screen_write_ch
  print_one c x y s a b d cx cy l =
      let e : (c == 10) ≡ false = ground (arith, a) in
      let f : (c == 8) ≡ false = ground (arith, b) in
      let g : (c == 127) ≡ false = ground (arith, d) in
      let loc : cursor_loc s.cursor_x s.cursor_y ≡ some (screen_loc x y) =
        rw (cx, cy) (cursor_loc-on x y l) in
      let next : succ_ℤ s.cursor_x ≡ pos (x + 1) = ap succ_ℤ cx ∙ ground arith in
      let new = update s.new_screen (screen_loc x y) c in
      rw (e, screen_write_ch)
        (rw (f, g)
          (rw (loc, print_ch) (ap (λ q. some (record s { new_screen = new; cursor_x = q })) next)))

  -- The characters of `cs` from index `i` of the text on.
  write_from-prints :
      (buff i x y : ℕ) (cs : List ℕ) (mem : ℕ → ℕ) (s : Screen t)
      → IsString (buff + i) cs mem
      → IsPlain cs
      → s.cursor_x ≡ pos x
      → s.cursor_y ≡ pos y
      → screen_loc x y + length cs ≤ 4000
      → (s' : Screen t) × (write_from (length cs) i buff mem s ≡ some s') × IsPrinted x y cs s s'
  unfolding write_from
  write_from-prints buff i x y [] mem s v p cx cy l = (
    s,
    refl,
    record {
      there = λ j b. absurd (omega arith);
      kept = λ q o. refl;
      cursor_x = cx ∙ ap pos (omega arith);
      cursor_y = cy;
      old = refl;
      terminal = refl;
    },
  )
  write_from-prints buff i x y (c ∷ cs) mem s (e, ne, v) (a, (b, (d, p))) cx cy l =
      let s1 : Screen t = record s {
        new_screen = update s.new_screen (screen_loc x y) c;
        cursor_x = pos (x + 1);
      } in
      let step : buff + i + 1 ≡ buff + (i + 1) = omega arith in
      let one = print_one c x y s a b d cx cy (omega (arith, l)) in
      let (s', run, r) =
        write_from-prints buff (i + 1) (x + 1) y cs mem s1 (rw (← step) v) p refl cy
          (omega (arith, l)) in
      (
        s',
        rw (e, write_from) (rw one run),
        record {
          there = λ j g. elim (Bool-cases (j == 0)) [
            | inl z ↦
                let here : j ≡ 0 = ground (arith, z) in
                rw here (r.kept (screen_loc (x + 0) y) (inl (omega arith)) ∙ ground arith)
            | inr z ↦
                let m : 0 < j = ground (arith, z) in
                let place : screen_loc (x + j) y ≡ screen_loc (x + 1 + (j - 1)) y =
                  omega (arith, m) in
                let next : j ≡ suc (j - 1) = omega (arith, m) in
                ap s'.new_screen place
                ∙ r.there (j - 1) (omega (arith, m, g))
                ∙ ap (λ q. get_or (c ∷ cs) q 0) (sym next)
          ];
          kept = λ q o. r.kept q (ground (arith, o)) ∙ ground (arith, o);
          cursor_x = r.cursor_x ∙ ap pos (omega arith);
          cursor_y = r.cursor_y;
          old = r.old;
          terminal = r.terminal;
        },
      )

  -- A string without new lines, backspaces and deletes, with fuel for its characters, is put on the
  -- screen from the cursor on, the cursor moves past it, and no other cell changes; where the row ends
  -- the text goes on in the next. It must not go beyond the last cell.
  pub screen_write-IsPrinted :
      (fuel buff x y : ℕ) (text : List ℕ) (mem : ℕ → ℕ) (s : Screen t)
      → IsString buff text mem
      → IsPlain text
      → length text < fuel
      → s.cursor_x ≡ pos x
      → s.cursor_y ≡ pos y
      → screen_loc x y + length text ≤ 4000
      → (s' : Screen t) × (screen_write fuel buff mem s ≡ some s') × IsPrinted x y text s s'
  unfolding screen_write
  screen_write-IsPrinted fuel buff x y text mem s v p f cx cy l =
      let here : buff + 0 ≡ buff = omega arith in
      let (s', run, r) = write_from-prints buff 0 x y text mem s (rw here v) p cx cy l in
      (s', rw (strlen-IsString fuel buff text mem v f) run, r)
