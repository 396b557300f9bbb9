-- ===== src/User/Safe.antt =====
-- What the system calls of every program keep.
use astra_os.Base.{ℕ, ◌≡◌, update, Run, done, Ends, Ends-bind, Ends-if, Ends-done}
use astra_os.Kernel.Syscall.{Sys, Reply, resume, exit}
use astra_os.Kernel.Syscall.Calls.{syscall_handler}
use astra_os.Kernel.Syscall.Invariant.{IsSafe, after}
use astra_os.Kernel.Syscall.Safe.{handled}
use astra_os.User.Program.{Program, ret, trap, load, store, Ended, returned, exited, run}

-- the state that a run leaves
abbrev pub left_by : {A : Type 0} → Ended A → Sys
left_by (returned a s) = s
left_by (exited code s) = s

abbrev LeavesSafe : {A : Type 0} → Ended A → Type 0
LeavesSafe ended = IsSafe (left_by ended)

-- behind a trap: the rest of the run, or the exit
go_on :
    {A : Type 0} (rest : ℕ → Sys → Run (Ended A))
    → ((eax : ℕ) (s : Sys) → IsSafe s → Ends LeavesSafe (rest eax s))
    → (reply : Reply) → IsSafe (after reply)
    → Ends LeavesSafe (elim reply as (λ _. Run (Ended A)) [
      | resume eax s ↦ rest eax s
      | exit code s ↦ done (exited code s)
    ])
go_on rest safely (resume eax s) safe = safely eax s safe
go_on rest safely (exit code s) safe = safe

module _ (fuel : ℕ) where
  run-LeavesSafe :
      {A : Type 0} (p : Program A) (s : Sys) → IsSafe s → Ends LeavesSafe (run fuel p s)
  unfolding run
  run-LeavesSafe (ret a) s safe = safe
  run-LeavesSafe (trap r next) s safe =
      Ends-bind (λ reply. IsSafe (after reply)) LeavesSafe (syscall_handler fuel r s) _
        (handled fuel s safe r)
        (λ reply e.
          go_on (λ eax s'. run fuel (next eax) s') (λ eax. run-LeavesSafe (next eax)) reply)
  run-LeavesSafe (load addr next) s safe = run-LeavesSafe (next (s.mem addr)) s safe
  run-LeavesSafe (store addr b next) s safe =
      Ends-if LeavesSafe (s.kernel_mem addr) _ _ (λ _. tt)
        (λ _. run-LeavesSafe next (record s { mem = update s.mem addr b }) safe)

  -- Whatever system calls a program makes, with whatever numbers and arguments, and whatever it loads
  -- and stores in between: when its run ends, with a return or with SYS_EXIT, and so neither it nor a
  -- system call for it has stored over the kernel's own memory, the descriptor table has 16 entries
  -- with paths that fit their 128 bytes, if it was of that form before.
  pub run-IsSafe :
      {A : Type 0} (p : Program A) (s : Sys) (ended : Ended A)
      → IsSafe s
      → run fuel p s ≡ done ended
      → IsSafe (left_by ended)
  run-IsSafe p s ended safe h =
      Ends-done LeavesSafe (run fuel p s) ended (run-LeavesSafe p s safe) h
