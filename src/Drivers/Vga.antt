-- ===== src/Drivers/Vga.antt =====
-- src/drivers/vga.c: the text screen.
pub mod Scroll
pub mod Cursor
use astra_os.Base.{
  ℕ, zero, suc, ◌+◌, ◌-◌, ◌*◌, ◌/◌, Bool, true, false, ◌==◌, ltb, leb, if◌then◌else◌, u8, u16,
  update, List, [], ◌∷◌, ◌++◌,
}

abbrev pub vga_width : ℕ
vga_width = 80

abbrev pub vga_height : ℕ
vga_height = 25

-- `video_memory` by byte, the cursor, and the writes to the ports of the controller
pub record Screen : Type 0 where
  pub video : ℕ → ℕ
  pub cursor_x : ℕ
  pub cursor_y : ℕ
  pub ports : List (ℕ × ℕ)

-- a character with its colour
unfoldable pub put_cell : (ℕ → ℕ) → ℕ → ℕ → ℕ → ℕ
unfolding update
put_cell video cell c = update (update video (cell * 2) c) (cell * 2 + 1) 0x0F

-- `left` blanks from a cell on
unfoldable pub blank_cells : ℕ → ℕ → (ℕ → ℕ) → ℕ → ℕ
unfolding put_cell
blank_cells zero cell video = video
blank_cells (suc left) cell video = blank_cells left (cell + 1) (put_cell video cell b' ')

unfoldable pub clear_screen : Screen → Screen
unfolding blank_cells
clear_screen s = record s {
  video = blank_cells (vga_width * vga_height) 0 s.video;
  cursor_x = 0;
  cursor_y = 0;
}

unfoldable pub update_cursor : Screen → Screen
update_cursor s =
    let pos = u16 (s.cursor_y * vga_width + s.cursor_x) in
    record s {
      ports =
          s.ports ++ (0x3D4, 0x0F) ∷ (0x3D5, u8 pos) ∷ (0x3D4, 0x0E) ∷ (0x3D5, u8 (pos / 256)) ∷ [];
    }

-- The two loops that move every line up, a cell at a time: cell `to` gets cell `to + 80`.
unfoldable pub move_cells : ℕ → ℕ → (ℕ → ℕ) → ℕ → ℕ
unfolding update
move_cells zero to video = video
move_cells (suc left) to video =
    let from = to + vga_width in
    let first = update video (to * 2) (video (from * 2)) in
    move_cells left (to + 1) (update first (to * 2 + 1) (first (from * 2 + 1)))

unfoldable pub scroll_screen : Screen → Screen
unfolding move_cells blank_cells
scroll_screen s =
    let moved = move_cells (vga_width * (vga_height - 1)) 0 s.video in
    let cleared = blank_cells vga_width (vga_width * (vga_height - 1)) moved in
    if ltb s.cursor_y vga_height then s else record s { video = cleared; cursor_y = vga_height - 1 }

-- one cell back, over the start of a line
unfoldable pub step_back : Screen → Screen
step_back s =
    if ltb 0 s.cursor_x
    then record s { cursor_x = s.cursor_x - 1 }
    else if ltb 0 s.cursor_y
    then record s { cursor_y = s.cursor_y - 1; cursor_x = vga_width - 1 }
    else s

unfoldable pub move_cursor_left : Screen → Screen
unfolding step_back update_cursor
move_cursor_left s = update_cursor (step_back s)

unfoldable pub new_line : Screen → Screen
unfolding scroll_screen
new_line s = scroll_screen (record s { cursor_x = 0; cursor_y = s.cursor_y + 1 })

unfoldable pub move_cursor_right : Screen → Screen
unfolding new_line update_cursor
move_cursor_right s =
    update_cursor (
      if ltb s.cursor_x (vga_width - 1) then record s { cursor_x = s.cursor_x + 1 } else new_line s)

unfoldable pub move_cursor_up : Screen → Screen
unfolding update_cursor
move_cursor_up s =
    update_cursor (if ltb 0 s.cursor_y then record s { cursor_y = s.cursor_y - 1 } else s)

unfoldable pub move_cursor_down : Screen → Screen
unfolding update_cursor
move_cursor_down s =
    update_cursor
      (if ltb s.cursor_y (vga_height - 1) then record s { cursor_y = s.cursor_y + 1 } else s)

abbrev pub at_cursor : Screen → ℕ
at_cursor s = s.cursor_y * vga_width + s.cursor_x

-- a backspace; at the top left corner it does nothing
unfoldable pub backspace : Screen → Screen
unfolding step_back put_cell update_cursor
backspace s =
    let back = step_back s in
    let blanked = record back { video = put_cell back.video (at_cursor back) b' ' } in
    if (if s.cursor_x == 0 then s.cursor_y == 0 else false) then s else update_cursor blanked

-- any other character
unfoldable pub put_plain : ℕ → Screen → Screen
unfolding put_cell scroll_screen update_cursor
put_plain c s =
    let drawn = record s { video = put_cell s.video (at_cursor s) c; cursor_x = s.cursor_x + 1 } in
    let wrapped =
      if leb vga_width drawn.cursor_x
      then record drawn { cursor_x = 0; cursor_y = drawn.cursor_y + 1 }
      else drawn in
    update_cursor (scroll_screen wrapped)

unfoldable pub put_char : ℕ → Screen → Screen
unfolding new_line backspace put_plain update_cursor
put_char c s =
    if c == 10 then update_cursor (new_line s) else if c == 8 then backspace s else put_plain c s

-- the characters before the NUL
unfoldable pub print : List ℕ → Screen → Screen
unfolding put_char
print [] s = s
print (c ∷ str) s = print str (put_char c s)

unfoldable pub print_char : ℕ → Screen → Screen
unfolding print
print_char c = print (c ∷ [])

unfoldable pub put_char_at : ℕ → ℕ → ℕ → Screen → Screen
unfolding put_cell
put_char_at c x y s = record s { video = put_cell s.video (y * vga_width + x) c }

unfoldable pub set_cursor_position : ℕ → ℕ → Screen → Screen
unfolding update_cursor
set_cursor_position x y s = update_cursor (record s { cursor_x = x; cursor_y = y })
