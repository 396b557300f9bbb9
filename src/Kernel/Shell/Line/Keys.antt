-- ===== src/Kernel/Shell/Line/Keys.antt =====
-- Each key does to the line what its edit does to a list of characters.
use astra_os.Base.{
  ℕ, ◌+◌, ◌-◌, ◌≤◌, ◌<◌, ◌≡◌, ◌∙◌, refl, sym, ap, arith, Bool, ◌||◌, ltb, leb, if_ind, ltb→lt,
  ltb→le, if◌then◌else◌, List, ◌∷◌, ◌++◌, length, take, drop,
}
use astra_os.Kernel.Shell.State.{Shell, text}
use astra_os.Kernel.Shell.Line.{
  redraw_command_line, remove_at, key_left, key_right, key_delete, key_backspace, insert_char,
  key_char, load_command,
}
use astra_os.Kernel.Shell.Line.Shift.{slice-copy_string}
use astra_os.Kernel.Shell.Line.Edit.{Line, line, without, left, right, delete, back, insert}
use astra_os.Kernel.Shell.Line.Stored.{text-remove_at, text-insert_char, length-text}

line-remove_at :
    (pos cursor : ℕ) (s : Shell)
    → pos < s.buffer_length
    → line (remove_at pos cursor s) ≡ record { chars = without pos (text s); cursor = cursor }
unfolding remove_at
line-remove_at pos cursor s lt =
    ap (λ cs. record { chars = cs; cursor = cursor }) (text-remove_at pos cursor s lt)

redraw-line : (s : Shell) → line (redraw_command_line s) ≡ line s
unfolding redraw_command_line text
redraw-line s = refl

pub line-key_left : (s : Shell) → line (key_left s) ≡ left (line s)
unfolding key_left redraw_command_line text
line-key_left s =
    if_ind (λ b (t : Shell). line t ≡ left (line s)) (ltb 0 s.cursor_pos) (λ h. refl)
      (λ h.
        ap (λ k. record { chars = text s; cursor = k }) (omega (arith, ltb→le 0 s.cursor_pos h)))

pub line-key_right : (s : Shell) → line (key_right s) ≡ right (line s)
unfolding key_right redraw_command_line text
line-key_right s =
    if_ind
      (λ b (t : Shell).
        line t ≡ (if b then record (line s) { cursor = s.cursor_pos + 1 } else line s))
      (ltb s.cursor_pos s.buffer_length) (λ h. refl) (λ h. refl)
    ∙ ap (λ n. if ltb s.cursor_pos n then record (line s) { cursor = s.cursor_pos + 1 } else line s)
        (sym (length-text s))

pub line-key_delete : (s : Shell) → line (key_delete s) ≡ delete (line s)
unfolding key_delete
line-key_delete s =
    if_ind (λ b (t : Shell). line t ≡ (if b then shorter else line s))
      (ltb s.cursor_pos s.buffer_length)
      (λ h.
        redraw-line (remove_at s.cursor_pos s.cursor_pos s)
        ∙ line-remove_at s.cursor_pos s.cursor_pos s (ltb→lt s.cursor_pos s.buffer_length h))
      (λ h. refl)
    ∙ ap (λ n. if ltb s.cursor_pos n then shorter else line s) (sym (length-text s))
  where
    shorter : Line
    shorter = record { chars = without s.cursor_pos (text s); cursor = s.cursor_pos }

pub line-key_backspace :
    (s : Shell) → s.cursor_pos ≤ s.buffer_length → line (key_backspace s) ≡ back (line s)
unfolding key_backspace
line-key_backspace s le =
    if_ind (λ b (t : Shell). line t ≡ (if b then shorter else line s)) (ltb 0 s.cursor_pos)
      (λ h.
        let some_left = ltb→lt 0 s.cursor_pos h in
        redraw-line (remove_at (s.cursor_pos - 1) (s.cursor_pos - 1) s)
        ∙ line-remove_at (s.cursor_pos - 1) (s.cursor_pos - 1) s (omega arith))
      (λ h. refl)
  where
    shorter : Line
    shorter = record { chars = without (s.cursor_pos - 1) (text s); cursor = s.cursor_pos - 1 }

pub line-key_char :
    (c : ℕ) (s : Shell) → s.cursor_pos ≤ s.buffer_length → line (key_char c s) ≡ insert c (line s)
unfolding key_char
line-key_char c s le =
    if_ind (λ b (t : Shell). line t ≡ (if b then line s else if full then line s else longer))
      (ltb c 32 || ltb 126 c) (λ h. refl)
      (λ h.
        if_ind (λ b (t : Shell). line t ≡ (if b then line s else longer)) full (λ k. refl)
          (λ k.
            redraw-line (insert_char c s)
            ∙ ap (λ cs. record { chars = cs; cursor = s.cursor_pos + 1 })
                (text-insert_char c s le)))
    ∙ ap (λ n. if ltb c 32 || ltb 126 c then line s else if leb 255 n then line s else longer)
        (sym (length-text s))
  where
    full : Bool
    full = leb 255 s.buffer_length

    longer : Line
    longer = record {
      chars = take s.cursor_pos (text s) ++ c ∷ drop s.cursor_pos (text s);
      cursor = s.cursor_pos + 1;
    }

pub line-load_command :
    (cmd : List ℕ) (s : Shell)
    → line (load_command cmd s) ≡ record { chars = take 255 cmd; cursor = length (take 255 cmd) }
unfolding load_command redraw_command_line text
line-load_command cmd s =
    ap (λ cs. record { chars = cs; cursor = length (take 255 cmd) })
      (slice-copy_string 0 (take 255 cmd) s.command_buffer)
