-- ===== src/User/Program.antt =====
-- What a user program is to the kernel: system calls, and reads and writes of its memory.
use astra_os.Base.{ℕ, if◌then◌else◌, update, Run, done, fault, ◌>>=◌}
use astra_os.Kernel.Syscall.{Sys, Registers, resume, exit}
use astra_os.Kernel.Syscall.Calls.{syscall_handler}

-- a program that ends with a result, traps with its registers and goes on with `eax`, or touches
-- a byte of memory
pub data Program (A : Type 0) : Type 0 where
  ret : A → Program A
  trap : Registers → (ℕ → Program A) → Program A
  load : ℕ → (ℕ → Program A) → Program A
  store : ℕ → ℕ → Program A → Program A

infixl 5 ◌>>◌
-- one program after the other
unfoldable pub ◌>>◌ : {A : Type 0} {B : Type 0} → Program A → (A → Program B) → Program B
ret a >> f = f a
trap r next >> f = trap r λ eax. next eax >> f
load addr next >> f = load addr λ b. next b >> f
store addr b next >> f = store addr b (next >> f)

-- the end of a run: a return, or SYS_EXIT with its code
pub data Ended (A : Type 0) : Type 0 where
  returned : A → Sys → Ended A
  exited : ℕ → Sys → Ended A

module _ (fuel : ℕ) where
  -- The kernel's answer to a trap, and the run behind it. The pages of the kernel are closed to the
  -- program, so that its own store there is a page fault, after which the machine halts.
  unfoldable pub run : {A : Type 0} → Program A → Sys → Run (Ended A)
  unfolding syscall_handler update
  run (ret a) s = done (returned a s)
  run (trap r next) s = syscall_handler fuel r s >>= λ reply. elim reply [
    | resume eax s' ↦ run (next eax) s'
    | exit code s' ↦ done (exited code s')
  ]
  run (load addr next) s = run (next (s.mem addr)) s
  run (store addr b next) s =
      let rest = run next (record s { mem = update s.mem addr b }) in
      if s.kernel_mem addr then fault else rest
