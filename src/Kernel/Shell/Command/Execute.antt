-- ===== src/Kernel/Shell/Command/Execute.antt =====
-- shell.c: the command `run`.
use astra_os.Base.{ℕ, ◌^◌, leb, if◌then◌else◌, List, [], ◌∷◌, none, some, Run, done, ◌>>=◌}
use astra_os.Kernel.Storage.{fat16_files}
use astra_os.Kernel.Exec.{Launch, kernel_exec_elf_argv}
use astra_os.Kernel.Shell.State.{Machine}
use astra_os.Kernel.Shell.Command.Report.{After, say, put_uint, reply, with_init}

-- `user_mode entry sp` is the run of a program from `switch_to_user_mode` on: the exit code and
-- what the program's system calls made of the machine.
module _ (fuel kernel_start kernel_end : ℕ) (user_mode : ℕ → ℕ → Machine → Run (ℕ × Machine)) where
  -- the result of `kernel_exec_elf_argv`, as a word
  abbrev pub exec_code : Machine → Launch → Run (ℕ × Machine)
  exec_code m l = elim l.jump [
    | none ↦ done (0xFFFFFFFF, record m { paging = l.paging; mem = l.mem })
    | some (entry, sp) ↦ user_mode entry sp (record m { paging = l.paging; mem = l.mem })
  ]

  abbrev pub exit_report : ℕ × Machine → Run After
  exit_report (code, m) =
      let shown = put_uint code (say "\n[run] exit code " m) >>= reply "\n" in
      if leb (2 ^ 31) code then reply "\nrun failed.\n" m else shown

  unfoldable pub run_run : List (List ℕ) → Machine → Run After
  unfolding with_init kernel_exec_elf_argv fat16_files put_uint say
  run_run [] m = reply "\nUsage: run <elf-path> [args...]\n" m
  run_run (path ∷ args) m =
      with_init
        (λ m.
          kernel_exec_elf_argv (fat16_files fuel) kernel_start kernel_end m.fs path (path ∷ args)
            m.paging m.mem
          >>= exec_code m
          >>= exit_report)
        m
