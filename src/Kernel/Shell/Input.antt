-- ===== src/Kernel/Shell/Input.antt =====
-- shell.c: the prompt and the handler of the keys.
pub mod Keys
pub mod Past
pub mod Editor
use astra_os.Base.{ℕ, ◌==◌, codes, if◌then◌else◌, update, List, [], ◌∷◌, ◌++◌, u8, Run, done, ◌>>=◌}
use astra_os.Fs.Fat16.Layout.{fat16_get_path}
use astra_os.Kernel.Shell.State.{Machine, Shell, text}
use astra_os.Kernel.Shell.Line.{key_left, key_right, key_delete, key_backspace, key_char}
use astra_os.Kernel.Shell.History.{history_add, key_up, key_down}
use astra_os.Kernel.Shell.Command.Report.{After, ready, stopped, put, say}
use astra_os.Kernel.Shell.Command.Dispatch.{shell_execute}

-- The cursor behind the prompt is where the line begins.
unfoldable pub shell_prompt : Shell → Shell
unfolding put say fat16_get_path update
shell_prompt s =
    let m = say "$ " (put (fat16_get_path s.machine.fs) (say "\nAstraOS@" s.machine)) in
    record s {
      prompt_x = m.screen.cursor_x;
      prompt_y = m.screen.cursor_y;
      cursor_pos = 0;
      buffer_length = 0;
      command_buffer = update s.command_buffer 0 0;
      history_index = s.history_count;
      machine = m;
    }

-- the greeting
abbrev pub welcomed : Shell → Shell
welcomed s =
    let welcome = say "Welcome to AstraOS Shell\n" s.machine in
    record s { machine = say "Type 'help' to see available commands.\n" welcome }

unfoldable pub shell_init : Shell → Shell
shell_init s = shell_prompt (welcomed s)

-- the shell behind a key, or the machine that a command halted
pub data Turn : Type 0 where
  waiting : Shell → Turn
  halted : Machine → Turn

-- behind the command: the next prompt
abbrev pub next_turn : Shell → After → Turn
next_turn s (ready m) = waiting (shell_prompt (record s { machine = m }))
next_turn s (stopped m) = halted m

module _ (fuel kernel_start kernel_end : ℕ) (user_mode : ℕ → ℕ → Machine → Run (ℕ × Machine)) where
  -- Enter. The NULs that the tokenizer writes to the buffer stand behind its new end, which the
  -- prompt puts to index 0.
  unfoldable pub key_enter : Shell → Run Turn
  unfolding history_add say shell_execute text
  key_enter s =
      let kept = history_add (text s) s in
      shell_execute fuel kernel_start kernel_end user_mode kept.history kept.history_count (text s)
        (say "\n" kept.machine)
      >>= λ after. done (next_turn kept after)

  unfoldable pub shell_handle_input : ℕ → Shell → Run Turn
  unfolding key_enter key_up key_down key_left key_right key_delete key_backspace key_char
  shell_handle_input key s =
      if key == 1001
      then done (waiting (key_up s))
      else if key == 1002
      then done (waiting (key_down s))
      else if key == 1003
      then done (waiting (key_left s))
      else if key == 1004
      then done (waiting (key_right s))
      else if key == 1005
      then done (waiting (key_delete s))
      else if u8 key == 10
      then key_enter s
      else if u8 key == 8
      then done (waiting (key_backspace s))
      else done (waiting (key_char (u8 key) s))
