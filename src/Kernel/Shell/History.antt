-- ===== src/Kernel/Shell/History.antt =====
-- shell.c: the commands typed before, and the keys that bring them back.
pub mod Kept
use astra_os.Base.{ℕ, zero, suc, ◌+◌, ◌-◌, ◌==◌, ltb, leb, if◌then◌else◌, update, List, [], ◌∷◌}
use astra_os.Kernel.Shell.State.{Shell, history_size}
use astra_os.Kernel.Shell.Line.{load_command}

-- `for (i = 1; i < HISTORY_SIZE; i++) strcpy(history[i - 1], history[i]);`
unfoldable pub move_history : ℕ → ℕ → (ℕ → List ℕ) → ℕ → List ℕ
unfolding update
move_history zero i h = h
move_history (suc left) i h = move_history left (i + 1) (update h (i - 1) (h i))

-- the oldest command is lost if there is no room for another
unfoldable pub make_room : Shell → Shell
unfolding move_history
make_room s =
    if leb history_size s.history_count
    then record s {
      history = move_history (history_size - 1) 1 s.history;
      history_count = history_size - 1;
    }
    else s

unfoldable pub history_add : List ℕ → Shell → Shell
unfolding make_room update
history_add [] s = s
history_add (c ∷ cmd) s =
    let roomy = make_room s in
    record roomy {
      history = update roomy.history roomy.history_count (c ∷ cmd);
      history_count = roomy.history_count + 1;
      history_index = roomy.history_count + 1;
    }

unfoldable pub key_up : Shell → Shell
unfolding load_command
key_up s =
    if s.history_count == 0
    then s
    else if ltb 0 s.history_index
    then load_command (s.history (s.history_index - 1))
        (record s { history_index = s.history_index - 1 })
    else s

unfoldable pub key_down : Shell → Shell
unfolding load_command
key_down s =
    if s.history_count == 0
    then s
    else if ltb s.history_index (s.history_count - 1)
    then load_command (s.history (s.history_index + 1))
        (record s { history_index = s.history_index + 1 })
    else load_command [] (record s { history_index = s.history_count })
