-- ===== src/Drivers/Keyboard.antt =====
-- src/drivers/keyboard.c: scancodes to characters.
pub mod Keys
use astra_os.Base.{
  ℕ, zero, suc, ◌+◌, ◌-◌, Bool, true, false, not, ◌&&◌, ◌||◌, ◌==◌, leb, if◌then◌else◌, bit_and,
  ◌!=◌, List, [], ◌∷◌, ◌++◌, get_or, Option, none, some,
}

-- the static flags
pub record Keyboard : Type 0 where
  pub shift_pressed : Bool
  pub caps_lock : Bool
  pub extended_scancode : Bool

-- the initializers; the rest of the 128 entries is 0
abbrev pub keymap : List ℕ
keymap =
    0 ∷ 27 ∷ b'1' ∷ b'2' ∷ b'3' ∷ b'4' ∷ b'5' ∷ b'6' ∷ b'7' ∷ b'8' ∷ b'9' ∷ b'0' ∷ b'-' ∷ b'=' ∷ 8
    ∷ 9 ∷ b'q' ∷ b'w' ∷ b'e' ∷ b'r' ∷ b't' ∷ b'y' ∷ b'u' ∷ b'i' ∷ b'o' ∷ b'p' ∷ b'[' ∷ b']' ∷ 10 ∷ 0
    ∷ b'a' ∷ b's' ∷ b'd' ∷ b'f' ∷ b'g' ∷ b'h' ∷ b'j' ∷ b'k' ∷ b'l' ∷ b';' ∷ 39 ∷ b'`' ∷ 0 ∷ 92
    ∷ b'z' ∷ b'x' ∷ b'c' ∷ b'v' ∷ b'b' ∷ b'n' ∷ b'm' ∷ b',' ∷ b'.' ∷ b'/' ∷ 0 ∷ b'*' ∷ 0 ∷ b' ' ∷ 0
    ∷ []

abbrev pub keymap_shift : List ℕ
keymap_shift =
    0 ∷ 27 ∷ b'!' ∷ b'@' ∷ b'#' ∷ b'$' ∷ b'%' ∷ b'^' ∷ b'&' ∷ b'*' ∷ b'(' ∷ b')' ∷ b'_' ∷ b'+' ∷ 8
    ∷ 9 ∷ b'Q' ∷ b'W' ∷ b'E' ∷ b'R' ∷ b'T' ∷ b'Y' ∷ b'U' ∷ b'I' ∷ b'O' ∷ b'P' ∷ b'{' ∷ b'}' ∷ 10 ∷ 0
    ∷ b'A' ∷ b'S' ∷ b'D' ∷ b'F' ∷ b'G' ∷ b'H' ∷ b'J' ∷ b'K' ∷ b'L' ∷ b':' ∷ b'"' ∷ b'~' ∷ 0 ∷ b'|'
    ∷ b'Z' ∷ b'X' ∷ b'C' ∷ b'V' ∷ b'B' ∷ b'N' ∷ b'M' ∷ b'<' ∷ b'>' ∷ b'?' ∷ 0 ∷ b'*' ∷ 0 ∷ b' ' ∷ 0
    ∷ []

abbrev pub is_lower : ℕ → Bool
is_lower c = leb b'a' c && leb c b'z'

abbrev pub is_upper : ℕ → Bool
is_upper c = leb b'A' c && leb c b'Z'

unfoldable pub apply_caps : ℕ → ℕ
apply_caps c = if is_lower c then c - 32 else if is_upper c then c + 32 else c

-- the switch over the scancodes behind an E0
unfoldable pub extended_key : ℕ → Option ℕ
extended_key scancode =
    if scancode == 0x48
    then some 1001
    else if scancode == 0x50
    then some 1002
    else if scancode == 0x4B
    then some 1003
    else if scancode == 0x4D
    then some 1004
    else if scancode == 0x53
    then some 1005
    else none

-- a key that is neither shift nor caps lock
unfoldable pub plain_key : Keyboard → ℕ → Option ℕ
unfolding apply_caps
plain_key k scancode =
    let c = get_or (if k.shift_pressed then keymap_shift else keymap) scancode 0 in
    let c' =
      if k.caps_lock && (is_lower c && not k.shift_pressed)
      then apply_caps c
      else if k.caps_lock && (is_upper c && k.shift_pressed)
      then apply_caps c
      else c in
    if c' == 0 then none else some c'

-- what `shell_handle_input` is called with, and the flags
unfoldable pub keyboard_callback : ℕ → Keyboard → Option ℕ × Keyboard
unfolding extended_key plain_key
keyboard_callback scancode k =
    let key = bit_and scancode 0x7F in
    let plain = record k { extended_scancode = false } in
    if scancode == 0xE0
    then (none, record k { extended_scancode = true })
    else if bit_and scancode 0x80 != 0
    then (if k.extended_scancode
        then (none, plain)
        else if key == 0x2A || key == 0x36
        then (none, record k { shift_pressed = false })
        else (none, k))
    else if k.extended_scancode
    then (extended_key scancode, plain)
    else if scancode == 0x2A || scancode == 0x36
    then (none, record k { shift_pressed = true })
    else if scancode == 0x3A
    then (none, record k { caps_lock = not k.caps_lock })
    else (plain_key k scancode, k)
