-- ===== src/Kernel/Shell/Command/Dispatch.antt =====
-- shell.c: `shell_execute`.
use astra_os.Base.{ℕ, codes, if◌then◌else◌, List, [], ◌∷◌, Run, done}
use astra_os.Fs.Fat16.Path.{str_eq}
use astra_os.Kernel.Shell.State.{Machine}
use astra_os.Kernel.Shell.Token.{shell_tokenize, max_args}
use astra_os.Kernel.Shell.Command.Report.{After, ready, put, say, reply}
use astra_os.Kernel.Shell.Command.System.{
  run_help, run_clear, run_about, run_uptime, run_sleep, run_halt, run_reboot, run_echo,
  run_history,
}
use astra_os.Kernel.Shell.Command.Disk.{run_diskread, run_disktest, run_heaptest, run_fatinfo}
use astra_os.Kernel.Shell.Command.Files.{
  run_pwd, run_ls, run_cd, run_cat, run_touch, run_mkdir, run_rm, run_rmdir, run_write, run_append,
  run_cp, run_mv,
}
use astra_os.Kernel.Shell.Command.Execute.{run_run}

unfoldable pub run_unknown : List ℕ → Machine → Run After
unfolding put say
run_unknown command m =
    reply "\nType 'help' for commands.\n" (put command (say "\nUnknown command: " m))

module _ (fuel kernel_start kernel_end : ℕ) (user_mode : ℕ → ℕ → Machine → Run (ℕ × Machine))
    (history : ℕ → List ℕ) (history_count : ℕ) where
  -- the chain of `strcmp`, on the first token and those behind it; `int $0x80` of `syscalltest`
  -- ends in SYS_WRITE, which prints the message
  unfoldable pub run_command : List ℕ → List (List ℕ) → Machine → Run After
  unfolding run_help run_clear run_about run_uptime run_sleep run_halt run_reboot run_echo
      run_history run_run run_diskread run_disktest run_fatinfo run_pwd run_ls run_cd run_cat
      run_touch run_mkdir run_rm run_rmdir run_write run_append run_cp run_mv run_heaptest
      run_unknown say
  run_command command args m =
      if str_eq command (codes "help")
      then run_help m
      else if str_eq command (codes "clear")
      then run_clear m
      else if str_eq command (codes "about")
      then run_about m
      else if str_eq command (codes "version")
      then reply "\nAstraOS version 0.1\n" m
      else if str_eq command (codes "uname")
      then reply "\nAstraOS Kernel 0.1 i386\n" m
      else if str_eq command (codes "uptime")
      then run_uptime m
      else if str_eq command (codes "sleep")
      then run_sleep args m
      else if str_eq command (codes "halt")
      then run_halt m
      else if str_eq command (codes "reboot")
      then run_reboot m
      else if str_eq command (codes "echo")
      then run_echo args m
      else if str_eq command (codes "history")
      then run_history history history_count m
      else if str_eq command (codes "run")
      then run_run fuel kernel_start kernel_end user_mode args m
      else if str_eq command (codes "diskread")
      then run_diskread fuel m
      else if str_eq command (codes "disktest")
      then run_disktest fuel m
      else if str_eq command (codes "syscalltest")
      then reply "\nHello from SYS_WRITE syscall!\n" m
      else if str_eq command (codes "fatinfo")
      then run_fatinfo m
      else if str_eq command (codes "pwd")
      then run_pwd m
      else if str_eq command (codes "ls")
      then run_ls fuel args m
      else if str_eq command (codes "cd")
      then run_cd fuel args m
      else if str_eq command (codes "cat")
      then run_cat fuel args m
      else if str_eq command (codes "touch")
      then run_touch fuel args m
      else if str_eq command (codes "mkdir")
      then run_mkdir fuel args m
      else if str_eq command (codes "rm")
      then run_rm fuel args m
      else if str_eq command (codes "rmdir")
      then run_rmdir fuel args m
      else if str_eq command (codes "write")
      then run_write fuel args m
      else if str_eq command (codes "append")
      then run_append fuel args m
      else if str_eq command (codes "cp")
      then run_cp fuel args m
      else if str_eq command (codes "mv")
      then run_mv fuel args m
      else if str_eq command (codes "heaptest")
      then run_heaptest fuel m
      else run_unknown command m

  unfoldable pub shell_execute : List ℕ → Machine → Run After
  unfolding shell_tokenize run_command
  shell_execute cmd m = elim (shell_tokenize max_args cmd) [
    | [] ↦ done (ready m)
    | command ∷ args ↦ run_command command args m
  ]
