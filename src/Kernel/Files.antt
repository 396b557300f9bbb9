-- ===== src/Kernel/Files.antt =====
-- What the loader and the system calls use of fat16.c.
use astra_os.Base.{ℕ, ◌≤◌, ◌≡◌, Bool, Option, some, List, length, Run, done}

-- `fat16_init`, `fat16_filesize` and `fat16_read_at`, and what their clients rely on
pub record Files : Type 1 where
  pub State : Type 0
  pub init : State → Bool × State
  pub filesize : State → List ℕ → Run (Option ℕ)
  pub read_at : State → List ℕ → ℕ → ℕ → Run (Option (List ℕ))
  pub read_at-length :
      (s : State) (path : List ℕ) (offset len : ℕ) (bytes : List ℕ)
      → read_at s path offset len ≡ done (some bytes)
      → length bytes ≤ len
