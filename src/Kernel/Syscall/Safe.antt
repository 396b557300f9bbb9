-- ===== src/Kernel/Syscall/Safe.antt =====
-- What every system call keeps of the descriptor table.
pub mod Open
pub mod Transfer
use astra_os.Base.{
  ◌-◌, Bool, ℕ, bit_and, Bool-cases, ◌≡◌, ◌≤◌, refl, sym, inl, inr, arith, true, not, ◌&&◌, ◌||◌,
  ◌==◌, leb, if◌then◌else◌, List, [], length, get_or, set, length-take-le, Option, none, some, Run,
  done, ◌>>=◌, Ends, Ends-bind, Ends-any, Ends-if, Ends-done,
}
use mathlib.Core.Path.{subst}
use astra_os.Fs.Fat16.Layout.{Disk}
use astra_os.Fs.Fat16.Entries.{Status}
use astra_os.Fs.Fat16.Browse.{Listing, fat16_list_dir, fat16_cd_path}
use astra_os.Fs.Fat16.Read.{fat16_filesize, fat16_read_at}
use astra_os.Fs.Fat16.Write.{fat16_write_file, fat16_append_file}
use astra_os.Kernel.Syscall.Open.{open_created, open_found, open_path, sys_open}
use astra_os.Kernel.Syscall.Transfer.{
  read_got, read_fd, append_fd, rewrite_fd, write_fd, sys_read, sys_writefd, written,
}
use astra_os.Kernel.Syscall.Calls.{
  change_dir, list_got, list_path, sys_write, sys_close, sys_chdir, sys_getcwd, sys_listdir,
  syscall_handler,
}
use astra_os.Kernel.Syscall.{
  opened, place_fd, Fd, Sys, Reply, resume, Registers, new_fd, fd_free, open_fd, c_string,
  copy_cstr_bounded, max_fds, bad_fd, has_flag, is_ok, with_disk, read_bytes,
}
use astra_os.Kernel.Syscall.{store_bytes}
use astra_os.Fs.Fat16.Layout.{fat16_get_path}
use astra_os.Kernel.Syscall.Calls.{copy_cwd, listed}
use astra_os.Kernel.Syscall.Table.{full, fresh, fd_alloc-Allocation, free_fd}
use astra_os.Kernel.Syscall.Invariant.{
  IsTable, IsTable-set, path-get_or, IsSafe, after, IsSafeReply, after_init-Ends, run_then, kept,
  kept_set,
}
use astra_os.Kernel.Syscall.Safe.Open.{sys_open-IsSafe}
use astra_os.Kernel.Syscall.Safe.Transfer.{sys_read-IsSafe, sys_writefd-IsSafe}

module _ (fuel : ℕ) (s : Sys) (safe : IsSafe s) where
  sys_write-IsSafe : (msg : ℕ) → Ends IsSafeReply (sys_write fuel s msg)
  unfolding sys_write
  sys_write-IsSafe msg = run_then (c_string fuel s.mem msg) _ (λ str. safe)

  sys_close-IsSafe : (fd : ℕ) → Ends IsSafeReply (sys_close fuel s fd)
  unfolding sys_close fd_free
  sys_close-IsSafe fd =
      Ends-if IsSafeReply (bad_fd s.fd_table fd) _ _ (λ _. safe)
        λ _. elim (Bool-cases (leb max_fds fd)) [
          | inl out ↦ rw out safe
          | inr within ↦ rw within (IsTable-set s.fd_table fd free_fd safe (omega arith))
        ]

  sys_chdir-IsSafe : (path_ptr : ℕ) → Ends IsSafeReply (sys_chdir fuel s path_ptr)
  unfolding sys_chdir change_dir
  sys_chdir-IsSafe path_ptr =
      Ends-if IsSafeReply (path_ptr == 0) _ _ (λ _. safe)
        λ _. after_init-Ends s (change_dir fuel path_ptr) safe λ s' e.
          run_then (c_string fuel s'.mem path_ptr) _ λ path.
            run_then (fat16_cd_path fuel s'.fs path)
              (λ r. done (resume (if r.0 then 0 else 0xFFFFFFFF) (record s' { fs = r.1 })))
              λ r. kept s safe s' e

  sys_getcwd-IsSafe : (out size : ℕ) → Ends IsSafeReply (sys_getcwd fuel s out size)
  unfolding sys_getcwd fat16_get_path
  sys_getcwd-IsSafe out size =
      Ends-if IsSafeReply ((out == 0) || (size == 0)) _ _ (λ _. safe)
        (λ _.
          run_then (store_bytes s out (copy_cwd fuel (size - 1) s.fs.current_path)) _ (λ mem. safe))

  list_got-IsSafe :
      (s' : Sys) (out : ℕ) (got : Bool × Listing)
      → s'.fd_table ≡ s.fd_table
      → Ends IsSafeReply (list_got fuel out s' got)
  unfolding list_got
  list_got-IsSafe s' out (ok, l) e =
      run_then (store_bytes s' out (listed fuel l)) _ (λ mem. kept s safe s' e)

  sys_listdir-IsSafe :
      (path_ptr out out_size : ℕ) → Ends IsSafeReply (sys_listdir fuel s path_ptr out out_size)
  unfolding sys_listdir list_path
  sys_listdir-IsSafe path_ptr out out_size =
      Ends-if IsSafeReply ((path_ptr == 0) || ((out == 0) || (out_size == 0))) _ _ (λ _. safe)
        λ _. after_init-Ends s (list_path fuel path_ptr out out_size) safe λ s' e.
          run_then (c_string fuel s'.mem path_ptr) _ λ path.
            run_then (fat16_list_dir fuel s'.fs path out_size) _ λ got. list_got-IsSafe s' out got e

  pub handled : (r : Registers) → Ends IsSafeReply (syscall_handler fuel r s)
  unfolding syscall_handler
  handled r =
      Ends-if IsSafeReply (r.eax == 0) _ _ (λ _. sys_write-IsSafe r.ebx)
        λ _.
          Ends-if IsSafeReply (r.eax == 1) _ _ (λ _. safe)
            λ _.
              Ends-if IsSafeReply (r.eax == 2) _ _ (λ _. safe)
                λ _.
                  Ends-if IsSafeReply (r.eax == 3) _ _
                    (λ _. sys_open-IsSafe fuel s safe r.ebx r.ecx)
                    λ _.
                      Ends-if IsSafeReply (r.eax == 4) _ _
                        (λ _. sys_read-IsSafe fuel s safe r.ebx r.ecx r.edx)
                        λ _.
                          Ends-if IsSafeReply (r.eax == 8) _ _
                            (λ _. sys_writefd-IsSafe fuel s safe r.ebx r.ecx r.edx)
                            λ _.
                              Ends-if IsSafeReply (r.eax == 5) _ _ (λ _. sys_close-IsSafe r.ebx)
                                λ _.
                                  Ends-if IsSafeReply (r.eax == 6) _ _ (λ _. sys_chdir-IsSafe r.ebx)
                                    λ _.
                                      Ends-if IsSafeReply (r.eax == 7) _ _
                                        (λ _. sys_getcwd-IsSafe r.ebx r.ecx)
                                        λ _.
                                          Ends-if IsSafeReply (r.eax == 9) _ _
                                            (λ _. sys_listdir-IsSafe r.ebx r.ecx r.edx) (λ _. safe)

-- Whatever number and arguments a program passes, a system call that ends, and so has stored no byte
-- over the kernel's own memory through an address that it was given, leaves a descriptor table of 16
-- entries, each with a path that fits its 128 bytes with a NUL, if the table was of that form.
pub syscall_handler-IsSafe :
    (fuel : ℕ) (r : Registers) (s : Sys) (reply : Reply)
    → IsSafe s
    → syscall_handler fuel r s ≡ done reply
    → IsSafe (after reply)
syscall_handler-IsSafe fuel r s reply safe h =
    Ends-done IsSafeReply (syscall_handler fuel r s) reply (handled fuel s safe r) h
