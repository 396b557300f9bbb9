-- ===== src/Kernel/Syscall/Safe/Transfer.antt =====
-- What SYS_READ and SYS_WRITEFD keep of the descriptor table.
use astra_os.Base.{
  ℕ, bit_and, Bool-cases, ◌≡◌, refl, inl, inr, not, ◌&&◌, ◌||◌, ◌==◌, List, get_or, Option, none,
  some, done, Ends, Ends-if,
}
use astra_os.Fs.Fat16.Layout.{Disk}
use astra_os.Fs.Fat16.Entries.{Status}
use astra_os.Fs.Fat16.Read.{fat16_read_at}
use astra_os.Fs.Fat16.Write.{fat16_write_file, fat16_append_file}
use astra_os.Kernel.Syscall.Transfer.{
  read_got, read_fd, append_fd, rewrite_fd, write_fd, sys_read, sys_writefd, written,
}
use astra_os.Kernel.Syscall.{store_bytes, Fd, Sys, bad_fd, has_flag, is_ok, read_bytes}
use astra_os.Kernel.Syscall.Table.{free_fd}
use astra_os.Kernel.Syscall.Invariant.{
  IsSafe, IsSafeReply, after_init-Ends, run_then, kept, kept_set,
}

module _ (fuel : ℕ) (s : Sys) (safe : IsSafe s) where
  read_got-IsSafe :
      (s' : Sys) (fd : ℕ) (f : Fd) (buf : ℕ) (got : Option (List ℕ))
      → s'.fd_table ≡ s.fd_table
      → f.path ≡ (get_or s.fd_table fd free_fd).path
      → Ends IsSafeReply (read_got fuel fd f buf s' got)
  unfolding read_got
  read_got-IsSafe s' fd f buf none e p = kept s safe s' e
  read_got-IsSafe s' fd f buf (some bytes) e p =
      run_then (store_bytes s' buf bytes) _ (λ mem. kept_set s safe s' fd _ e p)

  pub sys_read-IsSafe : (fd buf count : ℕ) → Ends IsSafeReply (sys_read fuel s fd buf count)
  unfolding sys_read read_fd
  sys_read-IsSafe fd buf count =
      let f = get_or s.fd_table fd free_fd in
      Ends-if IsSafeReply (bad_fd s.fd_table fd || (buf == 0)) _ _ (λ _. safe)
        λ _.
          Ends-if IsSafeReply (has_flag f.flags 1) _ _ (λ _. safe)
            λ _. after_init-Ends s (read_fd fuel fd f buf count) safe λ s' e.
              run_then (fat16_read_at fuel s'.fs f.path f.offset count) _
                λ got. read_got-IsSafe s' fd f buf got e refl

  written-IsSafe :
      (s' : Sys) (fd count : ℕ) (f : Fd) (r : Status × Disk)
      → s'.fd_table ≡ s.fd_table
      → f.path ≡ (get_or s.fd_table fd free_fd).path
      → IsSafeReply (written fuel s' fd count f r)
  unfolding written
  written-IsSafe s' fd count f (status, d) e p = elim (Bool-cases (is_ok status)) [
    | inl ok ↦ rw ok (kept_set s safe s' fd _ e p)
    | inr bad ↦ rw bad (kept_set s safe s' fd f e p)
  ]

  write_fd-IsSafe :
      (s' : Sys) (fd : ℕ) (f : Fd) (buf count : ℕ)
      → s'.fd_table ≡ s.fd_table
      → f.path ≡ (get_or s.fd_table fd free_fd).path
      → Ends IsSafeReply (write_fd fuel fd f buf count s')
  unfolding write_fd append_fd rewrite_fd
  write_fd-IsSafe s' fd f buf count e p =
      let content = read_bytes s'.mem buf count in
      let f' = record f { flags = bit_and f.flags 0xFFFFFFF7 } in
      let appended =
        run_then (fat16_append_file fuel s'.fs f.path content)
          (λ r. done (written fuel s' fd count f r)) (λ r. written-IsSafe s' fd count f r e p) in
      Ends-if IsSafeReply (has_flag f.flags 2) _ _ (λ _. appended)
        λ _.
          Ends-if IsSafeReply (has_flag f.flags 8 && (f.offset == 0)) _ _
            (λ _.
              run_then (fat16_write_file fuel s'.fs f.path content)
                (λ r. done (written fuel s' fd count f' r))
                (λ r. written-IsSafe s' fd count f' r e p))
            (λ _. appended)

  pub sys_writefd-IsSafe : (fd buf count : ℕ) → Ends IsSafeReply (sys_writefd fuel s fd buf count)
  unfolding sys_writefd
  sys_writefd-IsSafe fd buf count =
      let f = get_or s.fd_table fd free_fd in
      Ends-if IsSafeReply (bad_fd s.fd_table fd || (buf == 0)) _ _ (λ _. safe)
        λ _.
          Ends-if IsSafeReply (not (has_flag f.flags 1)) _ _ (λ _. safe)
            λ _.
              after_init-Ends s (write_fd fuel fd f buf count) safe
                λ s' e. write_fd-IsSafe s' fd f buf count e refl
