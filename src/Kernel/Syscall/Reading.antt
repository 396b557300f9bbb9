-- ===== src/Kernel/Syscall/Reading.antt =====
-- What SYS_READ does, and what a bad descriptor leads to.
use astra_os.Base.{
  ℕ, ◌+◌, ◌≡◌, ◌≤◌, ◌⊎◌, ◌∙◌, refl, inl, inr, true, ◌||◌, ◌==◌, u32, ap, List, length, get_or, set,
  Option, none, some, done, fault, Ends, Ends-bind, Ends-any, Ends-if, Ends-done,
}
use astra_os.Fs.Fat16.Layout.{fat16_init}
use astra_os.Fs.Fat16.Read.{fat16_read_at}
use astra_os.Fs.Fat16.Read.Length.{length-read_at}
use astra_os.Kernel.Bytes.{Mem, Outside, write_bytes, write_bytes-Outside}
use astra_os.Kernel.Syscall.{
  Sys, Reply, resume, exit, store_bytes, meets, after_init, bad_fd, has_flag,
}
use astra_os.Kernel.Syscall.Transfer.{read_got, read_fd, sys_read, sys_writefd}
use astra_os.Kernel.Syscall.Calls.{sys_close}
use astra_os.Kernel.Syscall.Table.{free_fd}

-- The descriptor's offset has moved by `n`, which is at most `count`; nothing else of the table has
-- changed, nothing of the disk, and no byte outside the `n` bytes from `buf` on.
pub record IsRead (s : Sys) (fd buf count n : ℕ) (s' : Sys) : Type 0 where
  pub bounded : n ≤ count
  pub moved :
      let f = get_or s.fd_table fd free_fd in
      s'.fd_table ≡ set s.fd_table fd (record f { offset = u32 (f.offset + n) })
  pub same : (a : ℕ) → Outside buf (buf + n) a → s'.mem a ≡ s.mem a
  pub disk : s'.fs.disk ≡ s.fs.disk

-- nothing of table, memory and disk has changed
pub record IsUnread (s s' : Sys) : Type 0 where
  pub table : s'.fd_table ≡ s.fd_table
  pub mem : s'.mem ≡ s.mem
  pub disk : s'.fs.disk ≡ s.fs.disk

abbrev pub ReadReply : Sys → ℕ → ℕ → ℕ → Reply → Type 0
ReadReply s fd buf count (resume n s') =
    ((n ≡ 0xFFFFFFFF) × IsUnread s s') ⊎ IsRead s fd buf count n s'
ReadReply s fd buf count (exit code s') = ⊥

module _ (fuel : ℕ) (s : Sys) (fd buf count : ℕ) where
  refused : (s' : Sys) → IsUnread s s' → ReadReply s fd buf count (resume 0xFFFFFFFF s')
  refused s' u = inl (refl, u)

  unchanged : IsUnread s s
  unchanged = record { table = refl; mem = refl; disk = refl }

  read_got-ReadReply :
      (s' : Sys) (got : Option (List ℕ))
      → IsUnread s s'
      → ((bytes : List ℕ) → got ≡ some bytes → length bytes ≤ count)
      → Ends (ReadReply s fd buf count) (read_got fuel fd (get_or s.fd_table fd free_fd) buf s' got)
  unfolding read_got store_bytes
  read_got-ReadReply s' none u short = refused s' u
  read_got-ReadReply s' (some bytes) u short =
      let f = get_or s.fd_table fd free_fd in
      Ends-bind (λ m. m ≡ write_bytes s'.mem buf bytes) (ReadReply s fd buf count)
        (store_bytes s' buf bytes) _
        (Ends-if (λ m. m ≡ write_bytes s'.mem buf bytes) (meets s'.kernel_mem buf bytes) fault _
          (λ _. tt) (λ _. refl))
        λ m _ e. inr (record {
          bounded = short bytes refl;
          moved = ap (λ t. set t fd (record f { offset = u32 (f.offset + length bytes) })) u.table;
          same = λ a out.
              ap (λ (m : Mem). m a) e
              ∙ write_bytes-Outside s'.mem buf bytes a out
              ∙ ap (λ (m : Mem). m a) u.mem;
          disk = u.disk;
        })

  sys_read-Ends : Ends (ReadReply s fd buf count) (sys_read fuel s fd buf count)
  unfolding sys_read after_init read_fd fat16_init
  sys_read-Ends =
      let f = get_or s.fd_table fd free_fd in
      let P = ReadReply s fd buf count in
      let s' : Sys = record s { fs = (fat16_init s.fs).1 } in
      let u : IsUnread s s' = record { table = refl; mem = refl; disk = refl } in
      let read = fat16_read_at fuel s'.fs f.path f.offset count in
      Ends-if P (bad_fd s.fd_table fd || (buf == 0)) _ _ (λ _. refused s unchanged)
        λ _.
          Ends-if P (has_flag f.flags 1) _ _ (λ _. refused s unchanged)
            λ _.
              Ends-if P (fat16_init s.fs).0 _ _
                (λ _.
                  Ends-bind (λ _. Unit) P read _ (Ends-any read)
                    λ got e _. read_got-ReadReply s' got u λ bytes g.
                      length-read_at fuel s'.fs f.path f.offset count bytes (e ∙ ap done g))
                (λ _. refused s' u)

  -- A SYS_READ that ends, which it does not when its buffer meets the kernel's own memory and a byte
  -- is stored there, either returns -1 and changes neither the descriptor table nor memory nor
  -- the disk; or it returns a number of at most `count`, moves the descriptor's offset by it, and
  -- writes no byte outside that many bytes of the buffer, nor to the disk or another descriptor.
  pub sys_read-IsRead :
      (n : ℕ) (s' : Sys)
      → sys_read fuel s fd buf count ≡ done (resume n s')
      → ((n ≡ 0xFFFFFFFF) × IsUnread s s') ⊎ IsRead s fd buf count n s'
  sys_read-IsRead n s' h =
      Ends-done (ReadReply s fd buf count) (sys_read fuel s fd buf count) (resume n s')
        sys_read-Ends h

  -- With a descriptor that is out of range or not in use, SYS_READ, SYS_WRITEFD and SYS_CLOSE all
  -- return -1 and change nothing.
  pub bad_fd_lem :
      bad_fd s.fd_table fd ≡ true
      → (sys_read fuel s fd buf count ≡ done (resume 0xFFFFFFFF s))
        × (sys_writefd fuel s fd buf count ≡ done (resume 0xFFFFFFFF s))
        × (sys_close fuel s fd ≡ done (resume 0xFFFFFFFF s))
  unfolding sys_read sys_writefd sys_close
  bad_fd_lem bad = (rw bad refl, rw bad refl, rw bad refl)
