-- ===== src/Drivers/Vga/Scroll.antt =====
-- What the loops over the screen leave in each byte.
use astra_os.Base.{
  ℕ, zero, suc, ◌+◌, ◌*◌, ◌%◌, ◌≡◌, ◌∙◌, refl, arith, inl, inr, ap, sym, update_self, update_ne,
  ==→eq, Bool-cases, if_ind, true, false, ◌&&◌, ◌==◌, ltb, leb, if◌then◌else◌, update,
}
use mathlib.Core.Path.{subst}
use astra_os.Drivers.Vga.{Screen, put_cell, blank_cells, move_cells, scroll_screen, clear_screen}

-- a blank on black, by the parity of the byte
abbrev pub blank : ℕ → ℕ
blank i = if i % 2 == 0 then b' ' else 0x0F

put_cell-at :
    (video : ℕ → ℕ) (cell c i : ℕ)
    → put_cell video cell c i
      ≡ (if i == cell * 2 then c else if i == cell * 2 + 1 then 0x0F else video i)
unfolding put_cell update
put_cell-at video cell c i = ground arith

blank_cells-at :
    (left cell : ℕ) (video : ℕ → ℕ) (i : ℕ)
    → blank_cells left cell video i
      ≡ (if leb (cell * 2) i && ltb i ((cell + left) * 2) then blank i else video i)
unfolding blank_cells
blank_cells-at zero cell video i = ground arith
blank_cells-at (suc left) cell video i = ground (
  arith,
  blank_cells-at left (cell + 1) (put_cell video cell b' ') i,
  put_cell-at video cell b' ' i,
)

-- one cell moved up a line
abbrev moved_cell : (ℕ → ℕ) → ℕ → ℕ → ℕ
moved_cell video to =
    let first = update video (to * 2) (video ((to + 80) * 2)) in
    update first (to * 2 + 1) (first ((to + 80) * 2 + 1))

moved_cell-at :
    (video : ℕ → ℕ) (to i : ℕ)
    → moved_cell video to i ≡ (
        if i == to * 2
        then video (i + 160)
        else if i == to * 2 + 1
        then video (i + 160)
        else video i)
moved_cell-at video to i =
    let first = update video (to * 2) (video ((to + 80) * 2)) in
    let e : (to + 80) * 2 ≡ to * 2 + 160 = omega arith in
    let f : (to + 80) * 2 + 1 ≡ to * 2 + 1 + 160 = omega arith in
    let odd : first ((to + 80) * 2 + 1) ≡ video (to * 2 + 1 + 160) =
      update_ne video (to * 2) _ ((to + 80) * 2 + 1) (omega arith) ∙ ap video f in
    elim (Bool-cases (i == to * 2 + 1)) [
      | inl low ↦
          let at = ==→eq i (to * 2 + 1) low in
          let n : (to * 2 + 1 == to * 2) ≡ false = ground arith in
          let y : (to * 2 + 1 == to * 2 + 1) ≡ true = ground arith in
          subst
            (λ j. moved_cell video to j ≡ (
              if j == to * 2
              then video (j + 160)
              else if j == to * 2 + 1
              then video (j + 160)
              else video j))
            (sym at) (update_self first (to * 2 + 1) _ ∙ odd ∙ rw (n, y) refl)
      | inr other ↦
          update_ne first (to * 2 + 1) _ i (ground arith)
          ∙ rw other (elim (Bool-cases (i == to * 2)) [
            | inl here ↦
                let at = ==→eq i (to * 2) here in
                let y : (to * 2 == to * 2) ≡ true = ground arith in
                subst (λ j. first j ≡ (if j == to * 2 then video (j + 160) else video j)) (sym at)
                  (update_self video (to * 2) _ ∙ ap video e ∙ rw y refl)
            | inr away ↦ update_ne video (to * 2) _ i (ground arith) ∙ rw away refl
          ])
    ]

-- a cell is read before it is written over
move_cells-at :
    (left to : ℕ) (video : ℕ → ℕ) (i : ℕ)
    → move_cells left to video i
      ≡ (if leb (to * 2) i && ltb i ((to + left) * 2) then video (i + 160) else video i)
unfolding move_cells
move_cells-at zero to video i = ground arith
move_cells-at (suc left) to video i = ground (
  arith,
  move_cells-at left (to + 1) (moved_cell video to) i,
  moved_cell-at video to i,
  moved_cell-at video to (i + 160),
)

-- both loops of `scroll_screen`, for a screen of any size
scrolled-at :
    (cells line : ℕ) (video : ℕ → ℕ) (i : ℕ)
    → blank_cells line cells (move_cells cells 0 video) i ≡ (
        if ltb i (cells * 2)
        then video (i + 160)
        else if ltb i ((cells + line) * 2)
        then blank i
        else video i)
scrolled-at cells line video i =
    ground
      (arith, blank_cells-at line cells (move_cells cells 0 video) i, move_cells-at cells 0 video i)

blank_from_start :
    (cells : ℕ) (video : ℕ → ℕ) (i : ℕ)
    → blank_cells cells 0 video i ≡ (if ltb i (cells * 2) then blank i else video i)
blank_from_start cells video i = ground (arith, blank_cells-at cells 0 video i)

-- When the cursor has left the screen, each line shows what stood on the line below it, the last
-- line is blank and the cursor is on it, and no byte outside the screen has changed; else nothing
-- has changed.
pub scroll_screen_lem :
    (s : Screen) (i : ℕ)
    → let s' = scroll_screen s in
      (s'.video i ≡ (
        if ltb s.cursor_y 25
        then s.video i
        else if ltb i 3840
        then s.video (i + 160)
        else if ltb i 4000
        then blank i
        else s.video i))
      × (s'.cursor_y ≡ (if ltb s.cursor_y 25 then s.cursor_y else 24))
      × (s'.cursor_x ≡ s.cursor_x)
unfolding scroll_screen
scroll_screen_lem s i =
    if_ind
      (λ b (s' : Screen).
        (s'.video i ≡ (
          if b
          then s.video i
          else if ltb i 3840
          then s.video (i + 160)
          else if ltb i 4000
          then blank i
          else s.video i))
        × (s'.cursor_y ≡ (if b then s.cursor_y else 24))
        × (s'.cursor_x ≡ s.cursor_x))
      (ltb s.cursor_y 25) (λ _. (refl, refl, refl))
      (λ _. (scrolled-at 1920 80 s.video i, refl, refl))

-- After `clear_screen` all 4000 bytes are blank, no other byte has changed and the cursor is at the
-- top left corner.
pub clear_screen_lem :
    (s : Screen) (i : ℕ)
    → ((clear_screen s).video i ≡ (if ltb i 4000 then blank i else s.video i))
      × ((clear_screen s).cursor_x ≡ 0)
      × ((clear_screen s).cursor_y ≡ 0)
unfolding clear_screen
clear_screen_lem s i = (blank_from_start 2000 s.video i, refl, refl)
