-- ===== src/Drivers/Keyboard/Keys.antt =====
-- The case of letters, and runs of scancodes.
use astra_os.Base.{
  ℕ, zero, suc, ◌-◌, ◌≡◌, ◌<◌, refl, sym, arith, inl, inr, Bool-cases, Bool, true, false, not, ◌&&◌,
  ◌==◌, if◌then◌else◌, ==→eq, get_or, Option, none, some,
}
use astra_os.Drivers.Keyboard.{
  Keyboard, keymap, is_lower, apply_caps, plain_key, keyboard_callback, extended_key,
}

abbrev pub xor : Bool → Bool → Bool
xor true b = not b
xor false b = b

-- over all the numbers below a bound
all_below : ℕ → (ℕ → Bool) → Bool
all_below zero p = true
all_below (suc n) p = p n && all_below n p

all_below-at : (n : ℕ) (p : ℕ → Bool) → all_below n p ≡ true → (k : ℕ) → k < n → p k ≡ true
unfolding all_below
all_below-at zero p h k lt = absurd (omega arith)
all_below-at (suc n) p h k lt = elim (Bool-cases (k == n)) [
  | inl last ↦ rw (==→eq k n last) (ground arith)
  | inr other ↦ all_below-at n p (ground arith) k (ground arith)
]

abbrev same : Bool → Bool → Bool
same a b = not (xor a b)

same→eq : (a b : Bool) → same a b ≡ true → a ≡ b
same→eq true true h = refl
same→eq false false h = refl
same→eq true false h = sym h
same→eq false true h = h

abbrev pub held : Bool → Bool → Keyboard
held shift caps = record { shift_pressed = shift; caps_lock = caps; extended_scancode = false }

-- the callback sends `c` and leaves these flags
abbrev sends : Option ℕ × Keyboard → ℕ → Bool → Bool → Bool
sends (none, k) c shift caps = false
sends (some d, k) c shift caps =
    (d == c)
    && (same k.shift_pressed shift && (same k.caps_lock caps && same k.extended_scancode false))

sends→eq :
    (r : Option ℕ × Keyboard) (c : ℕ) (shift caps : Bool)
    → sends r c shift caps ≡ true
    → r ≡ (some c, held shift caps)
sends→eq (none, k) c shift caps h = cc
sends→eq (some d, k) c shift caps h =
    let (e, rest) = both _ _ h in
    let (f, rest') = both _ _ rest in
    let (g, i) = both _ _ rest' in
    let letter = ==→eq d c e in
    let a = same→eq k.shift_pressed shift f in
    let b = same→eq k.caps_lock caps g in let x = same→eq k.extended_scancode false i in cc
  where
    both : (p q : Bool) → (p && q) ≡ true → (p ≡ true) × (q ≡ true)
    both true q h = (refl, h)
    both false q h = cc

-- the letter on a key, in the case that shift and caps lock call for
abbrev pub letter : Bool → Bool → ℕ → ℕ
letter shift caps scancode =
    let c = get_or keymap scancode 0 in if xor shift caps then c - 32 else c

abbrev letter_ok : Bool → Bool → ℕ → Bool
letter_ok shift caps scancode =
    if is_lower (get_or keymap scancode 0)
    then sends (keyboard_callback scancode (held shift caps)) (letter shift caps scancode) shift
        caps
    else true

letters_ok : (shift caps : Bool) → all_below 128 (letter_ok shift caps) ≡ true
unfolding all_below keyboard_callback plain_key apply_caps extended_key
letters_ok true true = refl
letters_ok true false = refl
letters_ok false true = refl
letters_ok false false = refl

-- A press of a letter's key sends the letter, as a capital exactly if one of shift and caps lock is
-- on and the other is not, and leaves the flags as they were.
pub keyboard_callback-letter :
    (shift caps : Bool) (scancode : ℕ)
    → scancode < 128
    → is_lower (get_or keymap scancode 0) ≡ true
    → keyboard_callback scancode (held shift caps)
      ≡ (some (letter shift caps scancode), held shift caps)
keyboard_callback-letter shift caps scancode low is_letter =
    let ok = all_below-at 128 (letter_ok shift caps) (letters_ok shift caps) scancode low in
    sends→eq (keyboard_callback scancode (held shift caps)) (letter shift caps scancode) shift caps
      (rw is_letter at ok)
