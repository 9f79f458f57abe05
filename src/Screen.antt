-- ===== src/Screen.antt =====
-- drivers/screen.c: the text on the screen. What is sent to the terminal goes to a parameter. The
-- fields `cursor_x` and `cursor_y` are those of the running process.
pub mod Refresh
pub mod Scroll
pub mod Printing
pub mod Tests
use oslab_riscv.Prelude.{
  ℕ, zero, suc, ◌+◌, ◌-◌, ◌*◌, ◌≤◌, ◌<◌, ◌≡◌, ◌⊎◌, Bool, ◌&&◌, ◌||◌, Option, none, some, ◌>>=◌,
  update, ◌==◌, leb, ltb, if◌then◌else◌, for_range,
}
use oslab_riscv.Prelude.Int.{ℤ, pos, negsuc, pos_part, neg_part, succ_ℤ, pred_ℤ, eq_ℤ}
use oslab_riscv.Strings.{memset, strncpy, strlen}

abbrev pub screen_width : ℕ
screen_width = 80

abbrev pub screen_height : ℕ
screen_height = 50

abbrev pub screen_cmd_begin : ℕ
screen_cmd_begin = 21

-- What a terminal does with `ESC[y;xH`, with a character, with `ESC[2J` and with `ESC[?25l`.
pub record Terminal : Type 1 where
  pub State : Type 0
  pub move_to : (x y : ℤ) → State → State
  pub put : ℕ → State → State
  pub erase : State → State
  pub hide : State → State

-- A character that a terminal displays in a cell, and not a control character such as CR or ESC.
abbrev pub IsPrintable : ℕ → Type 0
IsPrintable c = (32 ≤ c) × (c < 127)

-- What the kernel relies on: a printable character that is sent after a move to a cell appears there
-- and nowhere else, and a move changes no cell.
pub record IsTerminal (t : Terminal) : Type 0 where
  pub cell : t.State → (row column : ℕ) → ℕ
  pub put_at :
      (c i j : ℕ) (s : t.State)
      → IsPrintable c
      → i < 50
      → j < 80
      → cell (t.put c (t.move_to (pos (j + 1)) (pos (i + 1)) s)) i j ≡ c
  pub put_other :
      (c i j i' j' : ℕ) (s : t.State)
      → IsPrintable c
      → i < 50
      → j < 80
      → i' < 50
      → j' < 80
      → (i' < i) ⊎ ((i < i') ⊎ ((j' < j) ⊎ (j < j')))
      → cell (t.put c (t.move_to (pos (j + 1)) (pos (i + 1)) s)) i' j' ≡ cell s i' j'
  pub move : (x y : ℤ) (i j : ℕ) (s : t.State) → cell (t.move_to x y s) i j ≡ cell s i j

pub record Screen (t : Terminal) : Type 0 where
  pub new_screen : ℕ → ℕ
  pub old_screen : ℕ → ℕ
  pub cursor_x : ℤ
  pub cursor_y : ℤ
  pub terminal : t.State

-- `SCREEN_LOC(x, y)` of a row and a column of the screen
abbrev pub screen_loc : ℕ → ℕ → ℕ
screen_loc x y = y * screen_width + x

-- The same of any cursor; a place outside of the array is `none`.
unfoldable pub cursor_loc : ℤ → ℤ → Option ℕ
cursor_loc x y =
    let up = pos_part y * screen_width + pos_part x in
    let down = neg_part y * screen_width + neg_part x in
    if leb down up && ltb (up - down) (screen_height * screen_width) then some (up - down) else none

abbrev pub put_new : {t : Terminal} → (i c : ℕ) → Screen t → Screen t
put_new i c s = record s { new_screen = update s.new_screen i c }

-- The rows from 21 on move up by one, and the last is blank.
unfoldable pub scroll : (ℕ → ℕ) → ℕ → ℕ
scroll m = memset (screen_loc 0 (screen_height - 1)) 32 screen_width (
    for_range (screen_height - 1 - screen_cmd_begin) screen_cmd_begin
      (λ i a. strncpy (screen_loc 0 i) (screen_loc 0 (i + 1)) screen_width a) m)

abbrev pub new_line : {t : Terminal} → Screen t → Screen t
new_line s =
    let y = succ_ℤ s.cursor_y in
    if eq_ℤ y (pos screen_height)
    then record s { cursor_x = pos 0; cursor_y = pred_ℤ y; new_screen = scroll s.new_screen }
    else record s { cursor_x = pos 0; cursor_y = y }

abbrev pub rub_out : {t : Terminal} → Screen t → Option (Screen t)
rub_out s = do
  let x = pred_ℤ s.cursor_x
  i ← cursor_loc x s.cursor_y
  some (put_new i 32 (record s { cursor_x = x }))

abbrev pub print_ch : {t : Terminal} → ℕ → Screen t → Option (Screen t)
print_ch ch s = do
  i ← cursor_loc s.cursor_x s.cursor_y
  some (put_new i ch (record s { cursor_x = succ_ℤ s.cursor_x }))

unfoldable pub screen_write_ch : {t : Terminal} → ℕ → Screen t → Option (Screen t)
unfolding cursor_loc scroll
screen_write_ch ch s =
    if ch == 10
    then some (new_line s)
    else if ch == 8 || ch == 127
    then rub_out s
    else print_ch ch s

-- The loop of `screen_write`.
unfoldable pub write_from :
    {t : Terminal} → (rounds i buff : ℕ) → (ℕ → ℕ) → Screen t → Option (Screen t)
unfolding screen_write_ch
write_from zero i buff mem s = some s
write_from (suc n) i buff mem s = do
  s' ← screen_write_ch (mem (buff + i)) s
  write_from n (i + 1) buff mem s'

unfoldable pub screen_write :
    {t : Terminal} → (fuel buff : ℕ) → (ℕ → ℕ) → Screen t → Option (Screen t)
unfolding write_from
screen_write fuel buff mem s = do l ← strlen fuel buff mem; write_from l 0 buff mem s

-- One cell of `screen_reflush`.
unfoldable pub refresh : {t : Terminal} → (i j : ℕ) → Screen t → Screen t
refresh {t} i j s =
    let p = screen_loc j i in
    if s.new_screen p == s.old_screen p then s else record s {
      terminal = t.put (s.new_screen p) (t.move_to (pos (j + 1)) (pos (i + 1)) s.terminal);
      old_screen = update s.old_screen p (s.new_screen p);
    }

abbrev pub refresh_row : {t : Terminal} → ℕ → Screen t → Screen t
refresh_row i s = for_range screen_width 0 (λ j r. refresh i j r) s

unfoldable pub screen_reflush : {t : Terminal} → Screen t → Screen t
unfolding refresh
screen_reflush {t} s =
    let s' = for_range screen_height 0 (λ i r. refresh_row i r) s in
    record s' { terminal = t.move_to s'.cursor_x s'.cursor_y s'.terminal }

unfoldable pub screen_clear : {t : Terminal} → Screen t → Screen t
unfolding screen_reflush
screen_clear s =
    let blank =
      for_range screen_height 0
        (λ i m. for_range screen_width 0 (λ j a. update a (screen_loc j i) 32) m) s.new_screen in
    screen_reflush (record s { new_screen = blank; cursor_x = pos 0; cursor_y = pos 0 })

pub screen_move_cursor : {t : Terminal} → (x y : ℤ) → Screen t → Screen t
screen_move_cursor {t} x y s = record s {
  cursor_x = x;
  cursor_y = y;
  terminal = t.move_to x y s.terminal;
}

pub init_screen : {t : Terminal} → Screen t → Screen t
unfolding screen_clear
init_screen {t} s = screen_clear (record s { terminal = t.erase (t.hide s.terminal) })
