-- ===== src/Kernel/Shell/Command/Report.antt =====
-- shell.c: the texts that the commands print, their usage checks and results.
use Prim.Native.String.{String}
use astra_os.Base.{ℕ, codes, Bool, if◌then◌else◌, List, Run, done, ◌>>=◌}
use astra_os.Drivers.Vga.{print}
use astra_os.Fs.Fat16.Layout.{Disk, fat16_init}
use astra_os.Fs.Fat16.Entries.{Status, one, zero_, minus_one, minus_two}
use astra_os.Kernel.Print.{print_uint}
use astra_os.Kernel.Shell.State.{Machine}

-- a command that returned, or one that halted the processor
pub data After : Type 0 where
  ready : Machine → After
  stopped : Machine → After

-- `print` of a string
unfoldable pub put : List ℕ → Machine → Machine
unfolding print
put cs m = record m { screen = print cs m.screen }

unfoldable pub say : String → Machine → Machine
unfolding put
say message = put (codes message)

-- `print_uint`
unfoldable pub put_uint : ℕ → Machine → Run Machine
unfolding print_uint put
put_uint n m = print_uint n >>= λ digits. done (put digits m)

-- a `print` and the return
abbrev pub reply : String → Machine → Run After
reply message m = done (ready (say message m))

-- `if (!fat16_init()) { print("\nFAT16 init failed.\n"); return; }` and the rest of the command
unfoldable pub with_init : (Machine → Run After) → Machine → Run After
unfolding fat16_init say
with_init rest m =
    let (ok, fs) = fat16_init m.fs in
    let m' = record m { fs = fs } in
    let go = rest m' in if ok then go else reply "\nFAT16 init failed.\n" m'

abbrev pub with_disk : Disk → Machine → Machine
with_disk d m = record m { fs = record m.fs { disk = d } }

-- the `int` of a function of fat16.c as a condition
abbrev pub is_true : Status → Bool
is_true zero_ = Bool.false
is_true one = Bool.true
is_true minus_one = Bool.true
is_true minus_two = Bool.true

-- `if (f(…)) print(good); else print(bad);`
unfoldable pub report : String → String → Run (Status × Disk) → Machine → Run After
unfolding say
report good bad result m =
    result >>= λ (status, d). reply (if is_true status then good else bad) (with_disk d m)
