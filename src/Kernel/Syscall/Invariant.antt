-- ===== src/Kernel/Syscall/Invariant.antt =====
-- The form of the descriptor table that every system call keeps.
use astra_os.Base.{
  ℕ, zero, suc, ◌≡◌, ◌≤◌, ◌∙◌, refl, arith, List, [], ◌∷◌, length, get_or, set, length-set, All,
  Run, Ends, Ends-if, sym, ◌>>=◌, Ends-bind, Ends-any,
}
use astra_os.Fs.Fat16.Layout.{fat16_init}
use astra_os.Kernel.Syscall.{Fd, Sys, Reply, resume, exit, after_init}
use astra_os.Kernel.Syscall.Table.{free_fd}
use mathlib.Core.Path.{subst}

-- 16 entries, each with a path that fits its 128 bytes with a NUL
pub record IsTable (fds : List Fd) : Type 0 where
  pub whole : length fds ≡ 16
  pub paths : All (λ f. length f.path ≤ 127) fds

All-set : (P : Fd → Type 0) (fds : List Fd) (i : ℕ) (f : Fd) → All P fds → P f → All P (set fds i f)
All-set P [] i f all p = tt
All-set P (x ∷ fds) zero f (q, all) p = (p, all)
All-set P (x ∷ fds) (suc i) f (q, all) p = (q, All-set P fds i f all p)

All-get_or :
    (P : Fd → Type 0) (fds : List Fd) (i : ℕ) (d : Fd) → All P fds → P d → P (get_or fds i d)
All-get_or P [] i d all p = p
All-get_or P (x ∷ fds) zero d (q, all) p = q
All-get_or P (x ∷ fds) (suc i) d (q, all) p = All-get_or P fds i d all p

pub IsTable-set :
    (fds : List Fd) (i : ℕ) (f : Fd) → IsTable fds → length f.path ≤ 127 → IsTable (set fds i f)
IsTable-set fds i f t short = record {
  whole = length-set fds i f ∙ t.whole;
  paths = All-set (λ f. length f.path ≤ 127) fds i f t.paths short;
}

pub path-get_or : (fds : List Fd) (i : ℕ) → IsTable fds → length (get_or fds i free_fd).path ≤ 127
path-get_or fds i t = All-get_or (λ f. length f.path ≤ 127) fds i free_fd t.paths (omega arith)

abbrev pub IsSafe : Sys → Type 0
IsSafe s = IsTable s.fd_table

abbrev pub after : Reply → Sys
after (resume eax s) = s
after (exit code s) = s

abbrev pub IsSafeReply : Reply → Type 0
IsSafeReply r = IsSafe (after r)

pub after_init-Ends :
    (s : Sys) (rest : Sys → Run Reply)
    → IsSafe s
    → ((s' : Sys) → s'.fd_table ≡ s.fd_table → Ends IsSafeReply (rest s'))
    → Ends IsSafeReply (after_init s rest)
unfolding after_init
after_init-Ends s rest safe go =
    Ends-if IsSafeReply (fat16_init s.fs).0 _ _ (λ _. go _ refl) (λ _. safe)

-- a run of fat16.c, and what is done with its result
pub run_then :
    {A : Type 0} (m : Run A) (f : A → Run Reply)
    → ((a : A) → Ends IsSafeReply (f a))
    → Ends IsSafeReply (m >>= f)
run_then m f go = Ends-bind (λ _. Unit) IsSafeReply m f (Ends-any m) (λ a e k. go a)

module _ (s : Sys) (safe : IsSafe s) where
  pub kept : (s' : Sys) → s'.fd_table ≡ s.fd_table → IsSafe s'
  kept s' e = subst IsTable (sym e) safe

  -- an entry put back with the same path
  pub kept_set :
      (s' : Sys) (fd : ℕ) (f : Fd)
      → s'.fd_table ≡ s.fd_table
      → f.path ≡ (get_or s.fd_table fd free_fd).path
      → IsTable (set s'.fd_table fd f)
  kept_set s' fd f e p =
      IsTable-set s'.fd_table fd f (kept s' e)
        (subst (λ (q : List ℕ). length q ≤ 127) (sym p) (path-get_or s.fd_table fd safe))
