-- ===== src/Tests/Screen.antt =====
-- src/drivers: the screen and the keyboard.
use astra_os.Base.{◌≡◌, refl, arith, true, false, [], ◌∷◌, some}
use astra_os.Drivers.Vga.{Screen, scroll_screen, clear_screen, print}
use astra_os.Drivers.Vga.Scroll.{scroll_screen_lem, clear_screen_lem}
use astra_os.Drivers.Vga.Cursor.{OnScreen, print-OnScreen}
use astra_os.Drivers.Keyboard.{keyboard_callback}
use astra_os.Drivers.Keyboard.Keys.{held, keyboard_callback-letter}

-- byte `i` holds `i`, and the cursor is below the last line
abbrev numbered : Screen
numbered = record { video = λ i. i; cursor_x = 3; cursor_y = 25; ports = [] }

numbered_scrolled :
    ((scroll_screen numbered).video 7 ≡ 167)
    × ((scroll_screen numbered).cursor_y ≡ 24)
    × ((scroll_screen numbered).cursor_x ≡ 3)
numbered_scrolled = scroll_screen_lem numbered 7

numbered_cleared :
    ((clear_screen numbered).video 3999 ≡ 0x0F)
    × ((clear_screen numbered).cursor_x ≡ 0)
    × ((clear_screen numbered).cursor_y ≡ 0)
numbered_cleared = clear_screen_lem numbered 3999

abbrev corner : Screen
corner = record numbered { cursor_x = 79; cursor_y = 24 }

print-OnScreen_example : OnScreen (λ i. i) (print (b'a' ∷ 10 ∷ 8 ∷ b'b' ∷ []) corner)
print-OnScreen_example =
    print-OnScreen (λ i. i) (b'a' ∷ 10 ∷ 8 ∷ b'b' ∷ []) corner
      (record { column = omega arith; line = omega arith; behind = λ i out. refl })

-- the key of the letter q, with shift
keyboard_callback-letter_example :
    keyboard_callback 16 (held true false) ≡ (some b'Q', held true false)
keyboard_callback-letter_example = keyboard_callback-letter true false 16 (omega arith) refl
