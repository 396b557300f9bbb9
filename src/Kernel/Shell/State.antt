-- ===== src/Kernel/Shell/State.antt =====
-- shell.c: the static variables, and what the kernel keeps that the commands work on.
use astra_os.Base.{ℕ, zero, suc, ◌+◌, Bool, List, [], ◌∷◌}
use astra_os.Drivers.Vga.{Screen}
use astra_os.Fs.Fat16.Layout.{Fs}
use astra_os.Memory.Heap.{Heap}
use astra_os.Memory.Paging.{Paging}
use astra_os.Kernel.Bytes.{Mem}
use astra_os.Cpu.Timer.{Timer}

-- `wakes` says of each interrupt to come, while a command sleeps, whether it is the timer's;
-- `ports` are the writes to the ports beside those of the screen and the disk.
pub record Machine : Type 0 where
  pub screen : Screen
  pub fs : Fs
  pub heap : Heap
  pub paging : Paging
  pub mem : Mem
  pub timer : Timer
  pub wakes : List Bool
  pub ports : List (ℕ × ℕ)

-- a C string in `history` is the list of its characters before the NUL
pub record Shell : Type 0 where
  pub history : ℕ → List ℕ
  pub history_count : ℕ
  pub history_index : ℕ
  pub command_buffer : ℕ → ℕ
  pub cursor_pos : ℕ
  pub buffer_length : ℕ
  pub prompt_x : ℕ
  pub prompt_y : ℕ
  pub machine : Machine

abbrev pub history_size : ℕ
history_size = 10

abbrev pub shell_buffer_size : ℕ
shell_buffer_size = 256

-- `n` elements of an array, from index `i` on
unfoldable pub slice {ℓ} : {A : Type ℓ} → (ℕ → A) → ℕ → ℕ → List A
slice buf i zero = []
slice buf i (suc n) = buf i ∷ slice buf (i + 1) n

-- the command line: the characters before the NUL that stands at `buffer_length`
unfoldable pub text : Shell → List ℕ
unfolding slice
text s = slice s.command_buffer 0 s.buffer_length
