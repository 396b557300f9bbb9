-- ===== src/Drivers/Vga/Cursor.antt =====
-- The cursor and the writes of `print` stay on the screen.
use astra_os.Base.{
  ℕ, ◌+◌, ◌*◌, ◌≡◌, ◌≤◌, ◌<◌, ◌∙◌, arith, inl, inr, Bool-cases, if_ind, false, ◌==◌, ltb, leb,
  if◌then◌else◌, update, List, [], ◌∷◌, update_ne,
}
use astra_os.Drivers.Vga.{
  Screen, put_cell, step_back, scroll_screen, new_line, backspace, put_plain, put_char, print,
  at_cursor, update_cursor,
}
use astra_os.Drivers.Vga.Scroll.{scroll_screen_lem}

-- the cursor is on the screen, and bytes behind the screen are those of `video`
pub record OnScreen (video : ℕ → ℕ) (s : Screen) : Type 0 where
  pub column : s.cursor_x < 80
  pub line : s.cursor_y < 25
  pub behind : (i : ℕ) → 4000 ≤ i → s.video i ≡ video i

module _ (video : ℕ → ℕ) where
  update_cursor-OnScreen : (s : Screen) → OnScreen video s → OnScreen video (update_cursor s)
  unfolding update_cursor
  update_cursor-OnScreen s o = record { column = o.column; line = o.line; behind = o.behind }

  -- also for a cursor on the line below the last
  scroll_screen-OnScreen :
      (s : Screen)
      → s.cursor_x < 80
      → ((i : ℕ) → 4000 ≤ i → s.video i ≡ video i)
      → OnScreen video (scroll_screen s)
  scroll_screen-OnScreen s column behind = record {
    column = omega (arith, column, (scroll_screen_lem s 0).2);
    line = ground (arith, (scroll_screen_lem s 0).1);
    behind = λ i out. ground (arith, (scroll_screen_lem s i).0, behind i out);
  }

  put_cell_behind :
      (s : Screen) (c : ℕ)
      → OnScreen video s
      → (i : ℕ) → 4000 ≤ i
      → put_cell s.video (at_cursor s) c i ≡ video i
  unfolding put_cell
  put_cell_behind s c o i out =
      update_ne (update s.video (at_cursor s * 2) c) (at_cursor s * 2 + 1) 0x0F i
        (omega (arith, o.column, o.line))
      ∙ update_ne s.video (at_cursor s * 2) c i (omega (arith, o.column, o.line))
      ∙ o.behind i out

  step_back-OnScreen : (s : Screen) → OnScreen video s → OnScreen video (step_back s)
  unfolding step_back
  step_back-OnScreen s o = elim (Bool-cases (ltb 0 s.cursor_x)) [
    | inl inside ↦
        rw inside (record { column = omega (arith, o.column); line = o.line; behind = o.behind })
    | inr first ↦ elim (Bool-cases (ltb 0 s.cursor_y)) [
      | inl below ↦
          rw (first, below)
            (record { column = omega arith; line = omega (arith, o.line); behind = o.behind })
      | inr top ↦ rw (first, top) o
    ]
  ]

  new_line-OnScreen : (s : Screen) → OnScreen video s → OnScreen video (new_line s)
  unfolding new_line
  new_line-OnScreen s o = scroll_screen-OnScreen _ (omega arith) o.behind

  backspace-OnScreen : (s : Screen) → OnScreen video s → OnScreen video (backspace s)
  unfolding backspace
  backspace-OnScreen s o =
      let back = step_back-OnScreen s o in
      elim (Bool-cases (if s.cursor_x == 0 then s.cursor_y == 0 else false)) [
        | inl corner ↦ rw corner o
        | inr other ↦ rw other (
            update_cursor-OnScreen _ (record {
              column = back.column;
              line = back.line;
              behind = put_cell_behind (step_back s) b' ' back;
            }))
      ]

  put_plain-OnScreen : (c : ℕ) (s : Screen) → OnScreen video s → OnScreen video (put_plain c s)
  unfolding put_plain
  put_plain-OnScreen c s o =
      let drawn : Screen = record s {
        video = put_cell s.video (at_cursor s) c;
        cursor_x = s.cursor_x + 1;
      } in
      let w =
        if_ind (λ b (t : Screen). (t.cursor_x < 80) × ((i : ℕ) → 4000 ≤ i → t.video i ≡ video i))
          (leb 80 (s.cursor_x + 1)) {x = record drawn { cursor_x = 0; cursor_y = s.cursor_y + 1 }}
          {y = drawn} (λ _. (omega arith, put_cell_behind s c o))
          (λ room. (ground arith, put_cell_behind s c o)) in
      update_cursor-OnScreen _ (scroll_screen-OnScreen _ w.0 w.1)

  put_char-OnScreen : (c : ℕ) (s : Screen) → OnScreen video s → OnScreen video (put_char c s)
  unfolding put_char
  put_char-OnScreen c s o =
      if_ind (λ b. OnScreen video) (c == 10) (λ _. update_cursor-OnScreen _ (new_line-OnScreen s o))
        (λ _.
          if_ind (λ b. OnScreen video) (c == 8) (λ _. backspace-OnScreen s o)
            (λ _. put_plain-OnScreen c s o))

  -- Whatever string is printed, newlines and backspaces included, a cursor on the screen stays on
  -- it, and no byte of memory behind the 4000 bytes of the screen changes.
  pub print-OnScreen : (str : List ℕ) (s : Screen) → OnScreen video s → OnScreen video (print str s)
  unfolding print
  print-OnScreen [] s o = o
  print-OnScreen (c ∷ str) s o = print-OnScreen str (put_char c s) (put_char-OnScreen c s o)
