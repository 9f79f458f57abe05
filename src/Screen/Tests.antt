-- ===== src/Screen/Tests.antt =====
-- The theorems about the screen at a text that has changed in one row, on a terminal of cells.
use oslab_riscv.Prelude.{
  ℕ, ◌+◌, ◌≡◌, refl, ◌&&◌, some, [], ◌∷◌, ◌==◌, leb, ltb, if◌then◌else◌, arith,
}
use oslab_riscv.Prelude.Int.{pos, pos_part}
use oslab_riscv.Screen.{Terminal, IsTerminal, Screen, screen_write, screen_reflush}
use oslab_riscv.Screen.Refresh.{IsRefreshed, screen_reflush-IsRefreshed}
use oslab_riscv.Screen.Printing.{IsPrinted, screen_write-IsPrinted}

-- The cells of a terminal and its cursor, both counted from 1. It ignores control characters.
record Cells : Type 0 where
  pub at_cell : ℕ → ℕ → ℕ
  pub column : ℕ
  pub row : ℕ

abbrev vt100 : Terminal
vt100 = record {
  State = Cells;
  move_to = λ x y s. record s { column = pos_part x; row = pos_part y };
  put = λ c s. record s {
    at_cell =
        λ i j. if i == s.row && j == s.column && leb 32 c && ltb c 127 then c else s.at_cell i j;
    column = s.column + 1;
  };
  erase = λ s. record s { at_cell = λ i j. 32 };
  hide = λ s. s;
}

vt100_laws : IsTerminal vt100
vt100_laws = record {
  cell = λ s i j. s.at_cell (i + 1) (j + 1);
  put_at = λ c i j s p a b. ground arith;
  put_other = λ c i j i' j' s p a b a' b' o. ground (arith, o);
  move = λ x y i j s. refl;
}

-- Row 22 has become a row of `x`; the screen has been blank.
abbrev screen : Screen vt100
screen = record {
  new_screen = λ p. if leb 1760 p && ltb p 1840 then 120 else 32;
  old_screen = λ p. 32;
  cursor_x = pos 5;
  cursor_y = pos 49;
  terminal = record { at_cell = λ i j. 32; column = 1; row = 1 };
}

screen_reflush-IsRefreshed_example : IsRefreshed vt100_laws screen (screen_reflush screen)
unfolding vt100_laws
screen_reflush-IsRefreshed_example =
    screen_reflush-IsRefreshed vt100_laws screen (λ i j a b. ground arith) (λ i j a b. refl)

-- "hi" at address 3
abbrev mem : ℕ → ℕ
mem p = if p == 3 then 104 else if p == 4 then 105 else 0

screen_write-IsPrinted_example :
    (s' : Screen vt100) × (screen_write 5 3 mem screen ≡ some s')
    × IsPrinted 5 49 (104 ∷ 105 ∷ []) screen s'
screen_write-IsPrinted_example =
    screen_write-IsPrinted 5 3 5 49 (104 ∷ 105 ∷ []) mem screen
      (refl, (λ e. absurd (omega (arith, e))), (refl, (λ e. absurd (omega (arith, e))), refl))
      (
        (λ e. absurd (omega (arith, e))),
        (
          (λ e. absurd (omega (arith, e))),
          (
            (λ e. absurd (omega (arith, e))),
            (
              (λ e. absurd (omega (arith, e))),
              ((λ e. absurd (omega (arith, e))), ((λ e. absurd (omega (arith, e))), tt)),
            ),
          ),
        ),
      )
      (omega arith) refl refl (omega arith)
