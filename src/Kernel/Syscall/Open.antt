-- ===== src/Kernel/Syscall/Open.antt =====
-- src/kernel/syscall.c: SYS_OPEN.
use astra_os.Base.{ℕ, ◌==◌, if◌then◌else◌, List, [], Option, none, some, Run, done, ◌>>=◌}
use astra_os.Fs.Fat16.Layout.{Disk}
use astra_os.Fs.Fat16.Entries.{Status}
use astra_os.Fs.Fat16.Read.{fat16_filesize}
use astra_os.Fs.Fat16.Write.{fat16_write_file}
use astra_os.Kernel.Syscall.{
  c_string, has_flag, failed, is_ok, with_disk, after_init, open_fd, Sys, Reply,
}

module _ (fuel : ℕ) where
  -- SYS_OPEN after `fat16_write_file` has made an empty file
  unfoldable pub open_created : Sys → List ℕ → ℕ → Status × Disk → Run Reply
  unfolding open_fd
  open_created s path flags (status, d) =
      if is_ok status then done (open_fd (with_disk s d) path flags 0) else failed (with_disk s d)

  -- SYS_OPEN after `fat16_filesize`
  unfoldable pub open_found : Sys → List ℕ → ℕ → Option ℕ → Run Reply
  unfolding open_fd open_created fat16_write_file
  open_found s path flags (some fsize) = done (open_fd s path flags fsize)
  open_found s path flags none =
      let create = fat16_write_file fuel s.fs path [] >>= open_created s path flags in
      if has_flag flags 4 then create else failed s

  unfoldable pub open_path : ℕ → ℕ → Sys → Run Reply
  unfolding open_found c_string fat16_filesize
  open_path path_ptr flags s = c_string fuel s.mem path_ptr >>= λ path.
      fat16_filesize fuel s.fs path >>= open_found s path flags

  unfoldable pub sys_open : Sys → ℕ → ℕ → Run Reply
  unfolding open_path after_init
  sys_open s path_ptr flags =
      let go = after_init s (open_path path_ptr flags) in if path_ptr == 0 then failed s else go
