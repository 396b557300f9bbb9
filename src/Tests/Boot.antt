-- ===== src/Tests/Boot.antt =====
-- src/cpu, src/drivers/ata.c, src/kernel/string.c and the user programs.
use Prim.Native.String.{String}
use astra_os.Base.{
  ◌-◌, ◌*◌, ◌++◌, ◌==◌, leb, if◌then◌else◌, false, update, ℕ, ◌+◌, ◌%◌, ◌^◌, ◌≡◌, ◌≢◌, ◌<◌, ◌≤◌,
  refl, arith, codes, get_or, List, [], ◌∷◌, replicate, none, done,
}
use astra_os.Tests.FatFiles.{one_file_fs}
use astra_os.Cpu.Interrupts.{Handlers}
use astra_os.Cpu.Gdt.{IdtTable}
use astra_os.Cpu.Gates.Filled.{LeadsTo, filled, filled-LeadsTo}
use astra_os.Drivers.Ata.{read_words, packed_word}
use astra_os.Drivers.Ata.Sector.{read_words-packed_word}
use astra_os.Fs.Fat16.Path.{str_eq}
use astra_os.Kernel.Bytes.{Mem}
use astra_os.Kernel.Text.{strcmp}
use astra_os.Kernel.Text.Compare.{TestsFor, strcmp-str_eq}
use astra_os.Cpu.Exceptions.{halts, isr_handler}
use astra_os.Cpu.Exceptions.Total.{IsReport, isr_handler-IsReport}
use astra_os.Fs.Fat16.Layout.{fat16_get_path}
use astra_os.Kernel.Bytes.{write_bytes}
use astra_os.Kernel.Syscall.Calls.{syscall_handler, sys_getcwd, copy_cwd}
use astra_os.User.Program.{returned, Program, store, ◌>>◌, exited, run}
use astra_os.User.Api.{api_getcwd, api_exit}
use astra_os.User.Safe.{run-IsSafe}
use astra_os.User.Apps.{echo_main}
use astra_os.User.Echo.{AreStrings, characters, echo_main-join_words}
use astra_os.Kernel.Shell.Token.Joined.{join_words}
use astra_os.Kernel.Syscall.{Shown, c_string, Sys, store_bytes, meets}
use astra_os.Kernel.Syscall.Invariant.{IsSafe}
use astra_os.Kernel.Syscall.Table.{free_fd}

abbrev no_gates : IdtTable
no_gates n = record { offset_low = 0; selector = 0; flags = 0; offset_high = 0 }

-- stubs 16 bytes apart
abbrev isr_stub : ℕ → ℕ
isr_stub n = (0x101000 + n) % 2 ^ 32

abbrev irq_stub : ℕ → ℕ
irq_stub n = (0x102000 + n) % 2 ^ 32

filled-LeadsTo_example :
    ((n : ℕ)
      → n < 32
      → LeadsTo (isr_stub n) 0x8E (filled isr_stub irq_stub 0x103000 0x104000 no_gates n))
    × ((n : ℕ)
        → n < 16
        → LeadsTo (irq_stub n) 0x8E (filled isr_stub irq_stub 0x103000 0x104000 no_gates (n + 32)))
    × LeadsTo 0x103000 0xEE (filled isr_stub irq_stub 0x103000 0x104000 no_gates 128)
    × ((n : ℕ)
        → 48 ≤ n
        → n < 256
        → n ≢ 128
        → LeadsTo 0 0x8E (filled isr_stub irq_stub 0x103000 0x104000 no_gates n))
filled-LeadsTo_example =
    filled-LeadsTo isr_stub irq_stub 0x103000 0x104000 no_gates (λ n. omega arith)
      (λ n. omega arith) (omega arith)

abbrev no_handlers : Handlers
no_handlers n = none

-- a page fault has no handler
isr_handler-IsReport_example :
    (text : List ℕ) × (isr_handler no_handlers 14 2 0x1234 ≡ done (halts text))
    × IsReport 14 2 0x1234 text
isr_handler-IsReport_example =
    isr_handler-IsReport no_handlers 14 2 0x1234 (omega arith) (omega arith) (omega arith) refl

read_words-packed_word_example :
    read_words 256 0 (packed_word (λ j. j % 256)) (λ j. 0) 301 ≡ 301 % 256
read_words-packed_word_example =
    read_words-packed_word (λ j. j % 256) (λ j. 0) 301 (λ j. omega arith) (omega arith)

-- "ls" at 0 and "lx" at 3
abbrev two_strings : Mem
two_strings a = get_or (b'l' ∷ b's' ∷ 0 ∷ b'l' ∷ b'x' ∷ []) a 0

strcmp-str_eq_example : TestsFor (str_eq (codes "ls") (codes "lx")) (strcmp 3 two_strings 0 3)
strcmp-str_eq_example =
    strcmp-str_eq 3 two_strings 0 3 (codes "ls") (codes "lx")
      (refl, omega arith, omega arith, (refl, omega arith, omega arith, refl))
      (refl, omega arith, omega arith, (refl, omega arith, omega arith, refl)) (omega arith)

abbrev sys : Sys
sys = record {
  fs = one_file_fs;
  fd_table = replicate 16 free_fd;
  mem = λ a. 0;
  screen = [];
  kernel_mem = λ a. false;
}

sys-IsSafe : IsSafe sys
sys-IsSafe = record { whole = refl; paths = omega arith }

-- the path is asked for, a byte is stored, and the program exits
abbrev asking : Program ℕ
asking = api_getcwd 0x300000 64 >> λ got. store 0x300000 b'A' (api_exit got)

abbrev asked : Sys
asked = record sys { mem = update (write_bytes sys.mem 0x300000 (b'/' ∷ 0 ∷ [])) 0x300000 b'A' }

ends_well : run 9 asking sys ≡ done (exited 0 asked)
unfolding run ◌>>◌ api_getcwd api_exit syscall_handler sys_getcwd store_bytes meets copy_cwd
    fat16_get_path
ends_well = refl

run-IsSafe_example : IsSafe asked
run-IsSafe_example = run-IsSafe 9 asking sys (exited 0 asked) sys-IsSafe ends_well

-- the literals of `echo`, and "hi" and "yo" at 0x3000 and 0x3003
abbrev literal : String → ℕ
literal cs = 0x2000 + 2 * get_or (codes cs) 0 0

abbrev with_strings : Mem
with_strings a =
    if a == 0x2014
    then 10
    else if a == 0x2040
    then 32
    else if leb 0x3000 a
    then get_or (b'h' ∷ b'i' ∷ 0 ∷ b'y' ∷ b'o' ∷ []) (a - 0x3000) 0
    else 0

abbrev speaking : Sys
speaking = record sys { mem = with_strings }

-- the words at the two addresses
strings_there :
    (c_string 9 with_strings (literal "\n") ≡ done (codes "\n"))
    × (c_string 9 with_strings (literal " ") ≡ done (codes " "))
    × AreStrings 9 with_strings (0x3000 ∷ 0x3003 ∷ []) (codes "hi" ∷ codes "yo" ∷ [])
unfolding c_string
strings_there = (refl, refl, (omega arith, refl, (omega arith, refl, tt)))

echo_main-join_words_example :
    (shown : List Shown) × (run 9 (echo_main literal 0 (1 ∷ 0x3000 ∷ 0x3003 ∷ [])) speaking
      ≡ done (returned 0 (record speaking { screen = speaking.screen ++ shown })))
    × (characters shown ≡ join_words (codes "hi" ∷ codes "yo" ∷ []) ++ codes "\n")
echo_main-join_words_example =
    echo_main-join_words 9 literal 0 1 (0x3000 ∷ 0x3003 ∷ []) (codes "hi" ∷ codes "yo" ∷ [])
      speaking strings_there.0 strings_there.1 strings_there.2
