-- ===== src/Kernel/Syscall/Transfer.antt =====
-- src/kernel/syscall.c: SYS_READ and SYS_WRITEFD.
use astra_os.Base.{
  ℕ, ◌+◌, false, not, ◌&&◌, ◌||◌, ◌==◌, if◌then◌else◌, u32, bit_and, List, length, get_or, set,
  Option, none, some, Run, done, ◌>>=◌,
}
use astra_os.Fs.Fat16.Layout.{Disk}
use astra_os.Fs.Fat16.Entries.{Status}
use astra_os.Fs.Fat16.Read.{fat16_read_at}
use astra_os.Fs.Fat16.Write.{fat16_write_file, fat16_append_file}
use astra_os.Kernel.Syscall.{
  minus, read_bytes, store_bytes, new_fd, bad_fd, has_flag, failed, is_ok, with_disk, after_init,
  Fd, Sys, Reply, resume,
}

module _ (fuel : ℕ) where
  -- SYS_READ after `fat16_read_at`
  unfoldable pub read_got : ℕ → Fd → ℕ → Sys → Option (List ℕ) → Run Reply
  unfolding store_bytes
  read_got fd f buf s none = failed s
  read_got fd f buf s (some bytes) =
      let f' = record f { offset = u32 (f.offset + length bytes) } in
      store_bytes s buf bytes >>= λ mem.
      done (resume (length bytes) (record s { fd_table = set s.fd_table fd f'; mem = mem }))

  unfoldable pub read_fd : ℕ → Fd → ℕ → ℕ → Sys → Run Reply
  unfolding read_got fat16_read_at
  read_fd fd f buf count s = fat16_read_at fuel s.fs f.path f.offset count >>= read_got fd f buf s

  unfoldable pub sys_read : Sys → ℕ → ℕ → ℕ → Run Reply
  unfolding after_init read_fd
  sys_read s fd buf count =
      let f = get_or s.fd_table fd (new_fd false) in
      let go = after_init s (read_fd fd f buf count) in
      if bad_fd s.fd_table fd || (buf == 0)
      then failed s
      else if has_flag f.flags 1
      then failed s
      else go

  -- the end of SYS_WRITEFD; `f` is the entry after the write, whose O_TRUNC may be cleared
  unfoldable pub written : Sys → ℕ → ℕ → Fd → Status × Disk → Reply
  written s fd count f (status, d) =
      let s' = with_disk s d in
      let f' = record f { offset = u32 (f.offset + count); size = u32 (f.size + count) } in
      if is_ok status
      then resume count (record s' { fd_table = set s'.fd_table fd f' })
      else resume minus (record s' { fd_table = set s'.fd_table fd f })

  unfoldable pub append_fd : ℕ → Fd → ℕ → List ℕ → Sys → Run Reply
  unfolding written fat16_append_file
  append_fd fd f count content s =
      fat16_append_file fuel s.fs f.path content >>= λ r. done (written s fd count f r)

  -- the first write after an open with O_TRUNC; `flags &= ~SYS_O_TRUNC` whether it works or not
  unfoldable pub rewrite_fd : ℕ → Fd → ℕ → List ℕ → Sys → Run Reply
  unfolding written fat16_write_file
  rewrite_fd fd f count content s = fat16_write_file fuel s.fs f.path content >>= λ r.
      done (written s fd count (record f { flags = bit_and f.flags 0xFFFFFFF7 }) r)

  unfoldable pub write_fd : ℕ → Fd → ℕ → ℕ → Sys → Run Reply
  unfolding append_fd rewrite_fd read_bytes
  write_fd fd f buf count s =
      let content = read_bytes s.mem buf count in
      let append = append_fd fd f count content s in
      let rewrite = rewrite_fd fd f count content s in
      if has_flag f.flags 2
      then append
      else if has_flag f.flags 8 && (f.offset == 0)
      then rewrite
      else append

  unfoldable pub sys_writefd : Sys → ℕ → ℕ → ℕ → Run Reply
  unfolding after_init write_fd
  sys_writefd s fd buf count =
      let f = get_or s.fd_table fd (new_fd false) in
      let go = after_init s (write_fd fd f buf count) in
      if bad_fd s.fd_table fd || (buf == 0)
      then failed s
      else if not (has_flag f.flags 1)
      then failed s
      else go
