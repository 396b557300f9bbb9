-- ===== src/Kernel/Shell/Command/System.antt =====
-- shell.c: the commands on the system and the shell itself, `help` to `history`.
use Prim.Native.String.{String}
use astra_os.Base.{
  ℕ, zero, suc, ◌+◌, ◌-◌, ◌*◌, ◌/◌, ltb, ◌||◌, u32, if◌then◌else◌, List, [], ◌∷◌, ◌++◌, Option,
  none, some, Run, done, ◌>>=◌,
}
use astra_os.Drivers.Vga.{clear_screen}
use astra_os.Cpu.Timer.{timer_get_ticks, timer_sleep}
use astra_os.Kernel.Shell.State.{Machine}
use astra_os.Kernel.Shell.Token.{space}
use astra_os.Kernel.Shell.Command.Report.{After, ready, stopped, put, say, put_uint, reply}

-- the `print` calls one after the other
unfoldable pub say_all : List String → Machine → Machine
unfolding say
say_all [] m = m
say_all (message ∷ rest) m = say_all rest (say message m)

abbrev pub help_lines : List String
help_lines =
    "\nAvailable commands:\n\n" ∷ "System:\n" ∷ "  help              Show this help menu\n"
    ∷ "  clear             Clear screen\n" ∷ "  about             About AstraOS\n"
    ∷ "  version           Show OS version\n" ∷ "  uname             Kernel information\n"
    ∷ "  uptime            Show system uptime\n" ∷ "  sleep <sec>       Sleep for N seconds\n"
    ∷ "  halt              Halt the CPU\n" ∷ "  reboot            Reboot the system\n\n"
    ∷ "Shell:\n" ∷ "  history           Show command history\n"
    ∷ "  echo <text>       Print text\n\n" ∷ "Programs:\n"
    ∷ "  run <elf>         Run an ELF32 program (e.g. /BIN/INIT.ELF)\n\n" ∷ "Disk:\n"
    ∷ "  diskread          Read disk sector 0 (test)\n"
    ∷ "  disktest          Write + read test sector\n"
    ∷ "  fatinfo           Show FAT16 boot sector info\n\n" ∷ "Filesystem (FAT16):\n"
    ∷ "  ls [path]         List directory\n" ∷ "  pwd               Print working directory\n"
    ∷ "  cd <path>         Change directory\n" ∷ "  cat <file>        Display file contents\n"
    ∷ "  touch <file>      Create empty file\n" ∷ "  write             Write text to file \n"
    ∷ "  append            Append text to file \n" ∷ "  cp <src> <dst>    Copy file\n"
    ∷ "  mv <src> <dst>    Move/Rename file\n" ∷ "  mkdir <dir>       Create directory\n"
    ∷ "  mkdir -p <path>   Create directory tree\n" ∷ "  rm <file>         Delete file\n"
    ∷ "  rm -r <path>      Delete file/folder recursively\n"
    ∷ "  rmdir <dir>       Remove empty directory\n"
    ∷ "  rmdir -r <path>   Remove directory recursively\n" ∷ []

unfoldable pub run_help : Machine → Run After
unfolding say_all
run_help m = done (ready (say_all help_lines m))

unfoldable pub run_clear : Machine → Run After
unfolding clear_screen
run_clear m = done (ready (record m { screen = clear_screen m.screen }))

unfoldable pub run_about : Machine → Run After
unfolding say
run_about m = reply "Developer: Somen\n" (say "\nAstraOS - Custom kernel written from scratch.\n" m)

unfoldable pub run_uptime : Machine → Run After
unfolding put_uint say timer_get_ticks
run_uptime m = do
  shown ← put_uint (timer_get_ticks m.timer / 100) (say "\nUptime: " m)
  reply " seconds\n" shown

-- The loop over the digits of the argument: `sec` after it, or `none` at another character.
unfoldable pub parse_seconds : List ℕ → ℕ → Option ℕ
parse_seconds [] sec = some sec
parse_seconds (c ∷ cs) sec =
    let more = parse_seconds cs (u32 (u32 (sec * 10) + (c - b'0'))) in
    if ltb c b'0' || ltb b'9' c then none else more

abbrev pub run_seconds : Machine → Option ℕ → Run After
run_seconds m none = reply "\nInvalid number.\n" m
run_seconds m (some sec) = timer_sleep sec m.wakes m.timer >>= λ (timer, wakes).
    reply "Done.\n" (record (say "\nSleeping...\n" m) { timer = timer; wakes = wakes })

unfoldable pub run_sleep : List (List ℕ) → Machine → Run After
unfolding parse_seconds
run_sleep [] m = reply "\nUsage: sleep <seconds>\n" m
run_sleep (arg ∷ args) m = run_seconds m (parse_seconds arg 0)

unfoldable pub run_halt : Machine → Run After
unfolding say
run_halt m = done (stopped (say "\nSystem halting...\n" m))

-- a command to the keyboard controller, and the halt behind it
unfoldable pub run_reboot : Machine → Run After
unfolding say
run_reboot m =
    let said = say "\nSystem rebooting...\n" m in
    done (stopped (record said { ports = said.ports ++ (0x64, 0xFE) ∷ [] }))

-- the words with a space between them
unfoldable pub put_words : List (List ℕ) → Machine → Machine
unfolding put
put_words [] m = m
put_words (word ∷ []) m = put word m
put_words (word ∷ next ∷ words) m = put_words (next ∷ words) (put (space ∷ []) (put word m))

unfoldable pub run_echo : List (List ℕ) → Machine → Run After
unfolding put_words say
run_echo [] m = reply "\n\n" m
run_echo (word ∷ words) m = reply "\n" (put_words (word ∷ words) (say "\n" m))

-- the commands in `history` from index `i` on
unfoldable pub put_history : ℕ → ℕ → (ℕ → List ℕ) → Machine → Machine
unfolding put say
put_history zero i h m = m
put_history (suc left) i h m = put_history left (i + 1) h (say "\n" (put (h i) (say "  " m)))

unfoldable pub run_history : (ℕ → List ℕ) → ℕ → Machine → Run After
unfolding put_history say
run_history h count m = done (ready (put_history count 0 h (say "\nCommand History:\n" m)))
