-- ===== src/Kernel/Syscall/Safe/Open.antt =====
-- What SYS_OPEN keeps of the descriptor table.
use astra_os.Base.{
  ℕ, ◌≡◌, sym, arith, true, ◌==◌, List, [], set, length-take-le, Option, none, some, Ends, Ends-if,
}
use mathlib.Core.Path.{subst}
use astra_os.Fs.Fat16.Layout.{Disk}
use astra_os.Fs.Fat16.Entries.{Status}
use astra_os.Fs.Fat16.Read.{fat16_filesize}
use astra_os.Fs.Fat16.Write.{fat16_write_file}
use astra_os.Kernel.Syscall.Open.{open_created, open_found, open_path, sys_open}
use astra_os.Kernel.Syscall.{
  opened, place_fd, Fd, Sys, new_fd, open_fd, c_string, copy_cstr_bounded, has_flag, is_ok,
  with_disk,
}
use astra_os.Kernel.Syscall.Table.{full, fresh, fd_alloc-Allocation}
use astra_os.Kernel.Syscall.Invariant.{
  IsTable-set, IsSafe, IsSafeReply, after_init-Ends, run_then, kept,
}

open_fd-IsSafe :
    (s : Sys) (path : List ℕ) (flags fsize : ℕ)
    → IsSafe s
    → IsSafeReply (open_fd s path flags fsize)
unfolding open_fd copy_cstr_bounded
open_fd-IsSafe s path flags fsize safe = elim (fd_alloc-Allocation s.fd_table) [
  | full e all ↦ subst (λ r. IsSafeReply (place_fd s filled r)) (sym e) (unfold place_fd in safe)
  | fresh i e lt free before ↦
      subst (λ r. IsSafeReply (place_fd s filled r)) (sym e)
        (unfold place_fd in
          IsTable-set (set s.fd_table i (new_fd true)) i filled
            (IsTable-set s.fd_table i (new_fd true) safe (omega arith)) (length-take-le 127 path))
]
  where
    filled : Fd
    filled = opened path flags fsize

module _ (fuel : ℕ) (s : Sys) (safe : IsSafe s) where
  open_created-IsSafe :
      (s' : Sys) (path : List ℕ) (flags : ℕ) (r : Status × Disk)
      → s'.fd_table ≡ s.fd_table
      → Ends IsSafeReply (open_created fuel s' path flags r)
  unfolding open_created
  open_created-IsSafe s' path flags (status, d) e =
      Ends-if IsSafeReply (is_ok status) _ _
        (λ _. open_fd-IsSafe (with_disk s' d) path flags 0 (kept s safe (with_disk s' d) e))
        (λ _. kept s safe s' e)

  open_found-IsSafe :
      (s' : Sys) (path : List ℕ) (flags : ℕ) (exists : Option ℕ)
      → s'.fd_table ≡ s.fd_table
      → Ends IsSafeReply (open_found fuel s' path flags exists)
  unfolding open_found
  open_found-IsSafe s' path flags (some fsize) e =
      open_fd-IsSafe s' path flags fsize (kept s safe s' e)
  open_found-IsSafe s' path flags none e =
      Ends-if IsSafeReply (has_flag flags 4) _ _
        (λ _.
          run_then (fat16_write_file fuel s'.fs path []) (open_created fuel s' path flags)
            λ r. open_created-IsSafe s' path flags r e)
        (λ _. kept s safe s' e)

  pub sys_open-IsSafe : (path_ptr flags : ℕ) → Ends IsSafeReply (sys_open fuel s path_ptr flags)
  unfolding sys_open open_path
  sys_open-IsSafe path_ptr flags =
      Ends-if IsSafeReply (path_ptr == 0) _ _ (λ _. safe)
        λ _. after_init-Ends s (open_path fuel path_ptr flags) safe λ s' e.
          run_then (c_string fuel s'.mem path_ptr) _ λ path.
            run_then (fat16_filesize fuel s'.fs path) (open_found fuel s' path flags)
              λ exists. open_found-IsSafe s' path flags exists e
