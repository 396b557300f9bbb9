-- ===== src/Kernel/Shell/Line.antt =====
-- shell.c: the line editor, the keys of `shell_handle_input` that change the line.
pub mod Shift
pub mod Edit
pub mod Stored
pub mod Keys
pub mod Bounds
use astra_os.Base.{
  ℕ, zero, suc, ◌+◌, ◌-◌, Bool, ltb, leb, ◌||◌, if◌then◌else◌, update, List, [], ◌∷◌, length, take,
}
use astra_os.Drivers.Vga.{Screen, vga_width, put_char_at, set_cursor_position}
use astra_os.Kernel.Shell.State.{Machine, Shell, shell_buffer_size}

-- the loop that blanks the line, from `prompt_x + i` on, with the rounds that are left
unfoldable pub blank_line : ℕ → ℕ → ℕ → Screen → Screen
unfolding put_char_at
blank_line zero x y scr = scr
blank_line (suc left) x y scr = blank_line left (x + 1) y (put_char_at b' ' x y scr)

-- the loop that draws the buffer from index `i` on
unfoldable pub draw_line : ℕ → (ℕ → ℕ) → ℕ → ℕ → ℕ → Screen → Screen
unfolding put_char_at
draw_line zero buf i x y scr = scr
draw_line (suc left) buf i x y scr =
    draw_line left buf (i + 1) (x + 1) y (put_char_at (buf i) x y scr)

unfoldable pub redraw_command_line : Shell → Shell
unfolding blank_line draw_line set_cursor_position
redraw_command_line s =
    let blank = blank_line (vga_width - s.prompt_x) s.prompt_x s.prompt_y s.machine.screen in
    let drawn = draw_line s.buffer_length s.command_buffer 0 s.prompt_x s.prompt_y blank in
    let scr = set_cursor_position (s.prompt_x + s.cursor_pos) s.prompt_y drawn in
    record s { machine = record s.machine { screen = scr } }

-- `for (i = …; i < buffer_length - 1; i++) command_buffer[i] = command_buffer[i + 1];`
unfoldable pub shift_left {ℓ} : {A : Type ℓ} → ℕ → ℕ → (ℕ → A) → ℕ → A
unfolding update
shift_left zero i buf = buf
shift_left (suc left) i buf = shift_left left (i + 1) (update buf i (buf (i + 1)))

-- `for (i = buffer_length; i > cursor_pos; i--) command_buffer[i] = command_buffer[i - 1];`
unfoldable pub shift_right : ℕ → ℕ → (ℕ → ℕ) → ℕ → ℕ
unfolding update
shift_right zero i buf = buf
shift_right (suc left) i buf = shift_right left (i - 1) (update buf i (buf (i - 1)))

-- the character at `pos` is taken out of the line, and the cursor goes to `cursor`
unfoldable pub remove_at : ℕ → ℕ → Shell → Shell
unfolding shift_left update
remove_at pos cursor s =
    let shifted = shift_left (s.buffer_length - 1 - pos) pos s.command_buffer in
    record s {
      command_buffer = update shifted (s.buffer_length - 1) 0;
      cursor_pos = cursor;
      buffer_length = s.buffer_length - 1;
    }

unfoldable pub key_left : Shell → Shell
unfolding redraw_command_line
key_left s =
    if ltb 0 s.cursor_pos
    then redraw_command_line (record s { cursor_pos = s.cursor_pos - 1 })
    else s

unfoldable pub key_right : Shell → Shell
unfolding redraw_command_line
key_right s =
    if ltb s.cursor_pos s.buffer_length
    then redraw_command_line (record s { cursor_pos = s.cursor_pos + 1 })
    else s

unfoldable pub key_delete : Shell → Shell
unfolding redraw_command_line remove_at
key_delete s =
    if ltb s.cursor_pos s.buffer_length
    then redraw_command_line (remove_at s.cursor_pos s.cursor_pos s)
    else s

unfoldable pub key_backspace : Shell → Shell
unfolding redraw_command_line remove_at
key_backspace s =
    if ltb 0 s.cursor_pos
    then redraw_command_line (remove_at (s.cursor_pos - 1) (s.cursor_pos - 1) s)
    else s

-- `c` at the cursor, with what stands behind it shifted to the right
unfoldable pub insert_char : ℕ → Shell → Shell
unfolding shift_right update
insert_char c s =
    let shifted = shift_right (s.buffer_length - s.cursor_pos) s.buffer_length s.command_buffer in
    let typed = update shifted s.cursor_pos c in
    record s {
      command_buffer = update typed (s.buffer_length + 1) 0;
      cursor_pos = s.cursor_pos + 1;
      buffer_length = s.buffer_length + 1;
    }

-- any other character: `c` is a signed `char`, so one from 128 on is below 32
unfoldable pub key_char : ℕ → Shell → Shell
unfolding redraw_command_line insert_char
key_char c s =
    if ltb c 32 || ltb 126 c
    then s
    else if leb (shell_buffer_size - 1) s.buffer_length
    then s
    else redraw_command_line (insert_char c s)

-- the loop that copies a string to a buffer, and the NUL behind it
unfoldable pub copy_string : ℕ → List ℕ → (ℕ → ℕ) → ℕ → ℕ
unfolding update
copy_string i [] buf = update buf i 0
copy_string i (c ∷ cs) buf = copy_string (i + 1) cs (update buf i c)

unfoldable pub load_command : List ℕ → Shell → Shell
unfolding redraw_command_line copy_string
load_command cmd s =
    let cs = take (shell_buffer_size - 1) cmd in
    redraw_command_line (record s {
      command_buffer = copy_string 0 cs s.command_buffer;
      cursor_pos = length cs;
      buffer_length = length cs;
    })
