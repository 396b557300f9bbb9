-- ===== src/Kernel/Syscall/Calls.antt =====
-- src/kernel/syscall.c: the other system calls, and the handler.
use astra_os.Base.{
  ℕ, zero, suc, ◌-◌, ◌||◌, ◌==◌, if◌then◌else◌, List, [], ◌∷◌, ◌++◌, length, Bool, Run, done, ◌>>=◌,
}
use astra_os.Fs.Fat16.Layout.{fat16_get_path}
use astra_os.Fs.Fat16.Browse.{Listing, fat16_list_dir, fat16_cd_path}
use astra_os.Kernel.Syscall.{
  minus, c_string, store_bytes, fd_free, bad_fd, failed, after_init, Sys, text, cleared, Registers,
  Reply, resume, exit,
}
use astra_os.Kernel.Syscall.Open.{sys_open}
use astra_os.Kernel.Syscall.Transfer.{sys_read, sys_writefd}

module _ (fuel : ℕ) where
  unfoldable pub sys_write : Sys → ℕ → Run Reply
  unfolding c_string
  sys_write s msg = do
    str ← c_string fuel s.mem msg
    done (resume 0 (record s { screen = s.screen ++ text str ∷ [] }))

  unfoldable pub sys_close : Sys → ℕ → Run Reply
  unfolding fd_free
  sys_close s fd =
      if bad_fd s.fd_table fd
      then failed s
      else done (resume 0 (record s { fd_table = fd_free fd s.fd_table }))

  unfoldable pub change_dir : ℕ → Sys → Run Reply
  unfolding c_string fat16_cd_path
  change_dir path_ptr s = c_string fuel s.mem path_ptr >>= λ path.
      fat16_cd_path fuel s.fs path >>= λ r.
      done (resume (if r.0 then 0 else minus) (record s { fs = r.1 }))

  unfoldable pub sys_chdir : Sys → ℕ → Run Reply
  unfolding after_init change_dir
  sys_chdir s path_ptr =
      let go = after_init s (change_dir path_ptr) in if path_ptr == 0 then failed s else go

  -- the loop that copies while one more byte fits behind, and the NUL that it may owe
  unfoldable pub copy_cwd : ℕ → List ℕ → List ℕ
  copy_cwd zero cwd = 0 ∷ []
  copy_cwd (suc room) [] = 0 ∷ []
  copy_cwd (suc room) (c ∷ cwd) = c ∷ copy_cwd room cwd

  unfoldable pub sys_getcwd : Sys → ℕ → ℕ → Run Reply
  unfolding copy_cwd store_bytes fat16_get_path
  sys_getcwd s out size =
      if (out == 0) || (size == 0)
      then failed s
      else store_bytes s out (copy_cwd (size - 1) (fat16_get_path s.fs)) >>= λ mem.
          done (resume 0 (record s { mem = mem }))

  -- the bytes that a listing leaves in the buffer
  abbrev pub listed : Listing → List ℕ
  listed (out, nul) = if nul then out ++ 0 ∷ [] else out

  -- the buffer is written to whether the call of `fat16_list_dir` fails or not
  unfoldable pub list_got : ℕ → Sys → Bool × Listing → Run Reply
  unfolding store_bytes
  list_got out s (ok, l) = store_bytes s out (listed l) >>= λ mem.
      done (resume (if ok then length l.0 else minus) (record s { mem = mem }))

  unfoldable pub list_path : ℕ → ℕ → ℕ → Sys → Run Reply
  unfolding list_got c_string fat16_list_dir
  list_path path_ptr out out_size s = c_string fuel s.mem path_ptr >>= λ path.
      fat16_list_dir fuel s.fs path out_size >>= list_got out s

  unfoldable pub sys_listdir : Sys → ℕ → ℕ → ℕ → Run Reply
  unfolding after_init list_path
  sys_listdir s path_ptr out out_size =
      let go = after_init s (list_path path_ptr out out_size) in
      if (path_ptr == 0) || ((out == 0) || (out_size == 0)) then failed s else go

  abbrev pub unknown_text : List ℕ
  unknown_text =
      10 ∷ b'[' ∷ b'S' ∷ b'Y' ∷ b'S' ∷ b'C' ∷ b'A' ∷ b'L' ∷ b'L' ∷ b']' ∷ b' ' ∷ b'U' ∷ b'n' ∷ b'k'
      ∷ b'n' ∷ b'o' ∷ b'w' ∷ b'n' ∷ b' ' ∷ b's' ∷ b'y' ∷ b's' ∷ b'c' ∷ b'a' ∷ b'l' ∷ b'l' ∷ 10 ∷ []

  unfoldable pub syscall_handler : Registers → Sys → Run Reply
  unfolding sys_write sys_open sys_read sys_writefd sys_close sys_chdir sys_getcwd sys_listdir
  syscall_handler r s =
      if r.eax == 0
      then sys_write s r.ebx
      else if r.eax == 1
      then done (resume 0 (record s { screen = s.screen ++ cleared ∷ [] }))
      else if r.eax == 2
      then done (exit r.ebx s)
      else if r.eax == 3
      then sys_open fuel s r.ebx r.ecx
      else if r.eax == 4
      then sys_read fuel s r.ebx r.ecx r.edx
      else if r.eax == 8
      then sys_writefd fuel s r.ebx r.ecx r.edx
      else if r.eax == 5
      then sys_close s r.ebx
      else if r.eax == 6
      then sys_chdir s r.ebx
      else if r.eax == 7
      then sys_getcwd s r.ebx r.ecx
      else if r.eax == 9
      then sys_listdir s r.ebx r.ecx r.edx
      else failed (record s { screen = s.screen ++ text unknown_text ∷ [] })
