-- ===== src/Kernel/Shell/Input/Editor.antt =====
-- What every key keeps: the line and the history within their buffers.
use mathlib.Core.Path.{subst}
use astra_os.Base.{
  ◌≡◌, Bool, true, false, ==→eq, ◌⊎◌, inl, inr, refl, if◌then◌else◌, ℕ, ◌+◌, ◌-◌, ◌≤◌, sym, arith,
  ◌||◌, ◌==◌, ltb, ltb→lt, leb, if_ind, u8, List, [], Run, done, Ends, Ends-bind, Ends-any,
}
use astra_os.Kernel.Shell.State.{Machine, Shell, text, slice}
use astra_os.Kernel.Shell.Line.{
  key_left, key_right, key_delete, key_backspace, key_char, load_command,
}
use astra_os.Kernel.Shell.Line.Edit.{line}
use astra_os.Kernel.Shell.Line.Stored.{length-text}
use astra_os.Kernel.Shell.Line.Keys.{
  line-key_left, line-key_right, line-key_delete, line-key_backspace, line-key_char,
  line-load_command,
}
use astra_os.Kernel.Shell.Line.Bounds.{
  IsText, IsLine, left-IsLine, right-IsLine, delete-IsLine, back-IsLine, insert-IsLine,
  loaded-IsLine,
}
use astra_os.Kernel.Shell.History.{history_add, key_up, key_down}
use astra_os.Kernel.Shell.Command.Report.{After, ready, stopped, say}
use astra_os.Kernel.Shell.Command.Dispatch.{shell_execute}
use astra_os.Kernel.Shell.Input.{
  Turn, waiting, halted, next_turn, shell_prompt, key_enter, shell_handle_input,
}
use astra_os.Kernel.Shell.Input.Past.{HasPast, history_add-HasPast}

pub record IsEditor (s : Shell) : Type 0 where
  pub editing : IsLine (line s)
  pub past : HasPast s

key_left-IsEditor : (s : Shell) → IsEditor s → IsEditor (key_left s)
unfolding key_left
key_left-IsEditor s h = record {
  editing = subst IsLine (sym (line-key_left s)) (left-IsLine (line s) h.editing);
  past = if_ind (λ b (t : Shell). HasPast t) (ltb 0 s.cursor_pos) (λ _. h.past) (λ _. h.past);
}

key_right-IsEditor : (s : Shell) → IsEditor s → IsEditor (key_right s)
unfolding key_right
key_right-IsEditor s h = record {
  editing = subst IsLine (sym (line-key_right s)) (right-IsLine (line s) h.editing);
  past =
      if_ind (λ b (t : Shell). HasPast t) (ltb s.cursor_pos s.buffer_length) (λ _. h.past)
        (λ _. h.past);
}

key_delete-IsEditor : (s : Shell) → IsEditor s → IsEditor (key_delete s)
unfolding key_delete
key_delete-IsEditor s h = record {
  editing = subst IsLine (sym (line-key_delete s)) (delete-IsLine (line s) h.editing);
  past =
      if_ind (λ b (t : Shell). HasPast t) (ltb s.cursor_pos s.buffer_length) (λ _. h.past)
        (λ _. h.past);
}

within_buffer : (s : Shell) → IsEditor s → s.cursor_pos ≤ s.buffer_length
within_buffer s h = omega (arith, h.editing.within, length-text s)

key_backspace-IsEditor : (s : Shell) → IsEditor s → IsEditor (key_backspace s)
unfolding key_backspace
key_backspace-IsEditor s h = record {
  editing =
      subst IsLine (sym (line-key_backspace s (within_buffer s h)))
        (back-IsLine (line s) h.editing);
  past = if_ind (λ b (t : Shell). HasPast t) (ltb 0 s.cursor_pos) (λ _. h.past) (λ _. h.past);
}

key_char-IsEditor : (c : ℕ) (s : Shell) → IsEditor s → IsEditor (key_char c s)
unfolding key_char
key_char-IsEditor c s h = record {
  editing =
      subst IsLine (sym (line-key_char c s (within_buffer s h)))
        (insert-IsLine c (line s) h.editing);
  past =
      if_ind (λ b (t : Shell). HasPast t) (ltb c 32 || ltb 126 c) (λ _. h.past)
        (λ _.
          if_ind (λ b (t : Shell). HasPast t) (leb 255 s.buffer_length) (λ _. h.past)
            (λ _. h.past));
}

load_command-IsEditor :
    (cmd : List ℕ) (s : Shell) → IsText cmd → HasPast s → IsEditor (load_command cmd s)
unfolding load_command
load_command-IsEditor cmd s t past = record {
  editing = subst IsLine (sym (line-load_command cmd s)) (loaded-IsLine cmd t);
  past = past;
}

key_up-IsEditor : (s : Shell) → IsEditor s → IsEditor (key_up s)
unfolding key_up
key_up-IsEditor s h =
    if_ind (λ b (t : Shell). IsEditor t) (s.history_count == 0) (λ _. h)
      (λ _.
        if_ind (λ b (t : Shell). IsEditor t) (ltb 0 s.history_index)
          (λ lt.
            let some_left = ltb→lt 0 s.history_index lt in
            load_command-IsEditor (s.history (s.history_index - 1))
              (record s { history_index = s.history_index - 1 })
              (h.past.commands (s.history_index - 1) (omega (arith, h.past.indexed))).0
              (record {
                few = h.past.few;
                indexed = omega (arith, h.past.indexed);
                commands = h.past.commands;
              }))
          (λ _. h))

key_down-IsEditor : (s : Shell) → IsEditor s → IsEditor (key_down s)
unfolding key_down
key_down-IsEditor s h =
    if_ind (λ b (t : Shell). IsEditor t) (s.history_count == 0) (λ _. h)
      (λ _.
        if_ind (λ b (t : Shell). IsEditor t) (ltb s.history_index (s.history_count - 1))
          (λ lt.
            let later = ltb→lt s.history_index (s.history_count - 1) lt in
            load_command-IsEditor (s.history (s.history_index + 1))
              (record s { history_index = s.history_index + 1 })
              (h.past.commands (s.history_index + 1) (omega arith)).0
              (record { few = h.past.few; indexed = omega arith; commands = h.past.commands }))
          (λ _.
            load_command-IsEditor [] (record s { history_index = s.history_count })
              (record { fits = omega arith; printable = tt })
              (record { few = h.past.few; indexed = omega arith; commands = h.past.commands })))

-- the shell that waits for the next key, if there is one
abbrev pub IsTurn : Turn → Type 0
IsTurn (waiting s) = IsEditor s
IsTurn (halted m) = Unit

pub shell_prompt-IsEditor : (s : Shell) → HasPast s → IsEditor (shell_prompt s)
unfolding shell_prompt text slice
shell_prompt-IsEditor s h = record {
  editing = record { within = omega arith; chars = record { fits = omega arith; printable = tt } };
  past = record { few = h.few; indexed = omega arith; commands = h.commands };
}

next_turn-IsTurn : (s : Shell) (a : After) → HasPast s → IsTurn (next_turn s a)
next_turn-IsTurn s (ready m) h = shell_prompt-IsEditor (record s { machine = m }) h
next_turn-IsTurn s (stopped m) h = tt

module _ (fuel kernel_start kernel_end : ℕ) (user_mode : ℕ → ℕ → Machine → Run (ℕ × Machine)) where
  key_enter-IsTurn :
      (s : Shell) → IsEditor s → Ends IsTurn (key_enter fuel kernel_start kernel_end user_mode s)
  unfolding key_enter
  key_enter-IsTurn s h =
      Ends-bind (λ _. Unit) IsTurn run (λ after. done (next_turn kept after)) (Ends-any run)
        (λ after e _.
          next_turn-IsTurn kept after (history_add-HasPast (text s) s h.editing.chars h.past))
    where
      kept : Shell
      kept = history_add (text s) s

      run : Run After
      run =
          shell_execute fuel kernel_start kernel_end user_mode kept.history kept.history_count
            (text s) (say "\n" kept.machine)

  -- what a key leads to: the shell waits on, or it was Enter, whose command may end in a halt, in a
  -- fault or not at all
  abbrev pub KeepsEditor : ℕ → Run Turn → Type 0
  KeepsEditor key r =
      ((s : Shell) × (r ≡ done (waiting s)) × IsEditor s) ⊎ ((u8 key ≡ 10) × Ends IsTurn r)

  KeepsEditor-if :
      (key : ℕ) (b : Bool) (s : Shell) (rest : Run Turn)
      → IsEditor s
      → KeepsEditor key rest
      → KeepsEditor key (if b then done (waiting s) else rest)
  KeepsEditor-if key true s rest h other = inl (s, refl, h)
  KeepsEditor-if key false s rest h other = other

  KeepsEditor-enter :
      (key : ℕ) (b : Bool) (entered rest : Run Turn)
      → (u8 key == 10) ≡ b
      → Ends IsTurn entered
      → KeepsEditor key rest
      → KeepsEditor key (if b then entered else rest)
  KeepsEditor-enter key true entered rest e ends other = inr (==→eq (u8 key) 10 e, ends)
  KeepsEditor-enter key false entered rest e ends other = other

  -- Every key but Enter ends with the shell waiting for the next one, and its line and history in
  -- their buffers: the cursor is within the line; the line is of printable characters and fits the
  -- 256 bytes with its NUL; there are at most 10 commands in the history, each such a text and not
  -- empty; and the index into the history is among them or just behind. An Enter keeps the same
  -- when its command comes back and the shell waits again; the run of a program is a parameter that
  -- works on the machine and not on the shell's own variables.
  pub shell_handle_input-IsTurn :
      (key : ℕ) (s : Shell)
      → IsEditor s
      → (let r = shell_handle_input fuel kernel_start kernel_end user_mode key s in
          ((s' : Shell) × (r ≡ done (waiting s')) × IsEditor s') ⊎ ((u8 key ≡ 10) × Ends IsTurn r))
  unfolding shell_handle_input
  shell_handle_input-IsTurn key s h =
      KeepsEditor-if key (key == 1001) (key_up s) _ (key_up-IsEditor s h) (
        KeepsEditor-if key (key == 1002) (key_down s) _ (key_down-IsEditor s h) (
          KeepsEditor-if key (key == 1003) (key_left s) _ (key_left-IsEditor s h) (
            KeepsEditor-if key (key == 1004) (key_right s) _ (key_right-IsEditor s h) (
              KeepsEditor-if key (key == 1005) (key_delete s) _ (key_delete-IsEditor s h) (
                KeepsEditor-enter key (u8 key == 10) _ _ refl (key_enter-IsTurn s h) (
                  KeepsEditor-if key (u8 key == 8) (key_backspace s) _ (key_backspace-IsEditor s h)
                    (inl (_, refl, key_char-IsEditor (u8 key) s h))))))))
