-- ===== src/Tests/Terminal.antt =====
-- src/kernel/shell.c and src/cpu/timer.c: keys and commands at a shell.
use astra_os.Base.{
  ◌⊎◌, u8, ℕ, ◌≡◌, ◌≢◌, refl, arith, codes, Bool, true, false, List, [], ◌∷◌, ◌++◌, take, drop,
  get_or, Run, done, Ends,
}
use astra_os.Tests.FatFiles.{one_file_fs}
use astra_os.Cpu.Timer.{Timer, timer_sleep}
use astra_os.Cpu.Timer.Sleep.{EndsAt, timer_sleep-EndsAt}
use astra_os.Kernel.Shell.State.{Machine, Shell, text, slice}
use astra_os.Kernel.Shell.Token.{shell_tokenize, text_loop}
use astra_os.Kernel.Shell.Token.Words.{words, shell_tokenize-words}
use astra_os.Kernel.Shell.Token.Joined.{
  join_words, text_loop-shell_tokenize, shell_tokenize-join_words,
}
use astra_os.Kernel.Shell.Line.Edit.{line}
use astra_os.Kernel.Shell.History.{history_add, key_up}
use astra_os.Kernel.Shell.History.Kept.{commands, commands-history_add}
use astra_os.Kernel.Shell.Command.Report.{put, say}
use astra_os.Kernel.Shell.Command.Dispatch.{run_unknown, run_command, shell_execute}
use astra_os.Kernel.Shell.Input.{waiting, shell_prompt, key_enter, shell_handle_input}
use astra_os.Kernel.Shell.Input.Keys.{
  WaitsWith, key_edit, shell_handle_input-line, key_up-key_enter,
}
use astra_os.Kernel.Shell.Input.Editor.{IsEditor, IsTurn, shell_handle_input-IsTurn}

shell_tokenize-words_example :
    shell_tokenize 2 (codes " cp a.txt  b") ≡ take 2 (words (codes " cp a.txt  b"))
shell_tokenize-words_example = shell_tokenize-words 2 (codes " cp a.txt  b")

shell_tokenize-join_words_example :
    shell_tokenize 16 (join_words (codes "ls" ∷ codes "/BIN" ∷ [])) ≡ codes "ls" ∷ codes "/BIN" ∷ []
shell_tokenize-join_words_example =
    shell_tokenize-join_words (codes "ls" ∷ codes "/BIN" ∷ [])
      (((λ e. cc), (refl, (refl, tt))), (((λ e. cc), (refl, (refl, (refl, (refl, tt))))), tt))
      (omega arith)

text_loop-shell_tokenize_example :
    text_loop (drop 2 (shell_tokenize 16 (codes "write f two  words"))) []
    ≡ done (join_words (drop 2 (shell_tokenize 16 (codes "write f two  words"))))
text_loop-shell_tokenize_example =
    text_loop-shell_tokenize (codes "write f two  words") (omega arith)

-- 2 seconds at 2 ticks a second, just before the counter wraps; keys wake the processor too
abbrev near_wrap : Timer
near_wrap = record { ticks = 0xFFFFFFFE; frequency = 2 }

abbrev interrupts : List Bool
interrupts = true ∷ false ∷ true ∷ true ∷ false ∷ true ∷ false ∷ []

timer_sleep-EndsAt_example : EndsAt 2 near_wrap (timer_sleep 2 interrupts near_wrap)
timer_sleep-EndsAt_example = timer_sleep-EndsAt 2 interrupts near_wrap (omega arith) (omega arith)

abbrev machine : Machine
machine = record {
  screen = record { video = λ a. 0; cursor_x = 0; cursor_y = 0; ports = [] };
  fs = one_file_fs;
  heap = record {
    block = λ a. record { magic = 0; size = 0; is_free = false; next = 0 };
    heap_head = 0;
    heap_end_addr = 0x10000;
  };
  paging = record {
    directory = λ i. 0;
    table = λ i. 0;
    directory_addr = 0x1000;
    table_addr = 0x2000;
    cr3 = 0x1000;
    enabled = true;
  };
  mem = λ a. 0;
  timer = near_wrap;
  wakes = interrupts;
  ports = [];
}

-- "clea", with the cursor behind it
abbrev pub typing : Shell
typing = record {
  history = λ i. codes "pwd";
  history_count = 10;
  history_index = 10;
  command_buffer = λ i. get_or (codes "clea") i 0;
  cursor_pos = 4;
  buffer_length = 4;
  prompt_x = 11;
  prompt_y = 1;
  machine = machine;
}

typing-IsEditor : IsEditor typing
unfolding text slice
typing-IsEditor = record {
  editing = record {
    within = omega arith;
    chars = record { fits = omega arith; printable = omega arith };
  };
  past = record {
    few = omega arith;
    indexed = omega arith;
    commands = λ i lt. (record { fits = omega arith; printable = omega arith }, λ e. cc);
  };
}

-- a program that exits with 0 at once
abbrev pub exits : ℕ → ℕ → Machine → Run (ℕ × Machine)
exits entry sp m = done (0, m)

shell_handle_input-IsTurn_example :
    (let r = shell_handle_input 100 0x100000 0x120000 exits b'r' typing in
      ((s' : Shell) × (r ≡ done (waiting s')) × IsEditor s') ⊎ ((u8 b'r' ≡ 10) × Ends IsTurn r))
shell_handle_input-IsTurn_example =
    shell_handle_input-IsTurn 100 0x100000 0x120000 exits b'r' typing typing-IsEditor

shell_handle_input-line_example :
    WaitsWith
      (key_edit b'r' (line typing))
      (shell_handle_input 100 0x100000 0x120000 exits b'r' typing)
shell_handle_input-line_example =
    shell_handle_input-line 100 0x100000 0x120000 exits b'r' typing (omega arith) (omega arith)
      (omega arith) (omega arith)

-- what the key makes of the line
typed_r : key_edit b'r' (line typing) ≡ record { chars = codes "clear"; cursor = 5 }
unfolding key_edit text slice
typed_r = refl

ls_added : commands (history_add (codes "ls") typing) ≡ drop 1 (commands typing) ++ codes "ls" ∷ []
ls_added = commands-history_add b'l' (codes "s") typing (omega arith)

-- the machine behind the answer to an unknown command
abbrev answered : Machine
answered =
    say "\nType 'help' for commands.\n"
      (put (codes "clea") (say "\nUnknown command: " (say "\n" machine)))

abbrev entered : Shell
entered = record (history_add (codes "clea") typing) { machine = answered }

enters : key_enter 100 0x100000 0x120000 exits typing ≡ done (waiting (shell_prompt entered))
unfolding key_enter shell_execute run_command run_unknown text slice shell_tokenize
enters = refl

text-typing : text typing ≢ []
unfolding text slice
text-typing e = cc

key_up-key_enter_example :
    line (key_up (shell_prompt entered)) ≡ record { chars = text typing; cursor = 4 }
key_up-key_enter_example =
    key_up-key_enter 100 0x100000 0x120000 exits typing (shell_prompt entered) (omega arith)
      text-typing enters
