-- ===== src/Kernel/Syscall.antt =====
-- src/kernel/syscall.c: the descriptor table, the state of a system call, and what several calls
-- begin with.
pub mod Table
pub mod Open
pub mod Transfer
pub mod Calls
pub mod Invariant
pub mod Safe
pub mod Reading
use astra_os.Base.{
  ℕ, zero, suc, ◌+◌, ◌-◌, ◌*◌, ◌%◌, ◌^◌, Bool, true, false, not, ◌&&◌, ◌||◌, ◌==◌, ◌!=◌, leb, ltb,
  if◌then◌else◌, u32, bit_and, List, [], ◌∷◌, ◌++◌, length, take, get_or, set, Option, none, some,
  Run, done, fault, out_of_fuel, ◌>>=◌,
}
use astra_os.Fs.Fat16.Layout.{Disk, Fs, fat16_init, fat16_get_path}
use astra_os.Fs.Fat16.Entries.{Status, one, zero_, minus_one, minus_two}
use astra_os.Fs.Fat16.Browse.{Listing, fat16_list_dir, fat16_cd_path}
use astra_os.Fs.Fat16.Read.{fat16_filesize, fat16_read_at}
use astra_os.Fs.Fat16.Write.{fat16_write_file, fat16_append_file}
use astra_os.Kernel.Bytes.{Mem, write_bytes}

-- `fd_entry_t`
pub record Fd : Type 0 where
  pub used : Bool
  pub flags : ℕ
  pub offset : ℕ
  pub size : ℕ
  pub path : List ℕ

-- what reaches the screen
pub data Shown : Type 0 where
  text : List ℕ → Shown
  cleared : Shown

-- The state that a system call works on. `kernel_mem` tells the addresses of the kernel's own code,
-- variables and stack, which `mem` does not hold.
pub record Sys : Type 0 where
  pub fs : Fs
  pub fd_table : List Fd
  pub mem : Mem
  pub screen : List Shown
  pub kernel_mem : ℕ → Bool

-- the registers that carry number and arguments
pub record Registers : Type 0 where
  pub eax : ℕ
  pub ebx : ℕ
  pub ecx : ℕ
  pub edx : ℕ

-- a return to the program with `eax`, or the end of the program with its code
pub data Reply : Type 0 where
  resume : ℕ → Sys → Reply
  exit : ℕ → Sys → Reply

abbrev pub max_fds : ℕ
max_fds = 16

abbrev pub fd_path_max : ℕ
fd_path_max = 128

-- `(uint32_t)-1`
abbrev pub minus : ℕ
minus = 0xFFFFFFFF

-- the C string at an address, if its NUL is met within `fuel` characters
unfoldable pub c_string : ℕ → Mem → ℕ → Run (List ℕ)
c_string zero m a = out_of_fuel
c_string (suc fuel) m a =
    let more = c_string fuel m (u32 (a + 1)) >>= λ cs. done (m a ∷ cs) in
    if m a == 0 then done [] else more

-- the bytes that a buffer holds
unfoldable pub read_bytes : Mem → ℕ → ℕ → List ℕ
read_bytes m a zero = []
read_bytes m a (suc n) = m a ∷ read_bytes m (a + 1) n

-- some of the bytes from `a` on are the kernel's
unfoldable pub meets : (ℕ → Bool) → ℕ → List ℕ → Bool
meets kernel_mem a [] = false
meets kernel_mem a (c ∷ cs) = kernel_mem a || meets kernel_mem (a + 1) cs

-- The stores of a system call to an address that the program passed. No address is checked; a store
-- over the kernel's own memory, after which anything may happen, is a `fault` here.
unfoldable pub store_bytes : Sys → ℕ → List ℕ → Run Mem
unfolding meets write_bytes
store_bytes s a cs = if meets s.kernel_mem a cs then fault else done (write_bytes s.mem a cs)

-- the string that stands in `dst` afterwards; `dst_size` is positive
unfoldable pub copy_cstr_bounded : List ℕ → ℕ → List ℕ
copy_cstr_bounded src dst_size = take (dst_size - 1) src

abbrev pub new_fd : Bool → Fd
new_fd used = record { used = used; flags = 0; offset = 0; size = 0; path = [] }

-- an index and a table, behind the entry `f`
abbrev pub behind : Fd → Option (ℕ × List Fd) → Option (ℕ × List Fd)
behind f none = none
behind f (some (i, fds)) = some (suc i, f ∷ fds)

-- the first entry that is not in use, and the table with it in use
unfoldable pub fd_alloc : List Fd → Option (ℕ × List Fd)
fd_alloc [] = none
fd_alloc (f ∷ fds) =
    let later = behind f (fd_alloc fds) in if f.used then later else some (0, new_fd true ∷ fds)

unfoldable pub fd_free : ℕ → List Fd → List Fd
fd_free fd fds = if leb max_fds fd then fds else set fds fd (new_fd false)

-- `fd < 0 || fd >= MAX_FDS || !fd_table[fd].used`, where a negative `int` is a word from 2^31 on
abbrev pub bad_fd : List Fd → ℕ → Bool
bad_fd fds fd = leb max_fds fd || not (get_or fds fd (new_fd false)).used

abbrev pub has_flag : ℕ → ℕ → Bool
has_flag flags flag = bit_and flags flag != 0

abbrev pub failed : Sys → Run Reply
failed s = done (resume minus s)

-- the `int` that a function of fat16.c returns, as a condition
abbrev pub is_ok : Status → Bool
is_ok zero_ = false
is_ok one = true
is_ok minus_one = true
is_ok minus_two = true

abbrev pub with_disk : Sys → Disk → Sys
with_disk s d = record s { fs = record s.fs { disk = d } }

-- `if (!fat16_init()) { r->eax = -1; return; }` and the rest of the call
unfoldable pub after_init : Sys → (Sys → Run Reply) → Run Reply
unfolding fat16_init
after_init s rest =
    let (ok, fs) = fat16_init s.fs in
    let s' = record s { fs = fs } in let go = rest s' in if ok then go else failed s'

-- the entry that SYS_OPEN fills
abbrev pub opened : List ℕ → ℕ → ℕ → Fd
opened path flags fsize = record {
  used = true;
  flags = flags;
  offset = if has_flag flags 2 then fsize else 0;
  size = fsize;
  path = copy_cstr_bounded path fd_path_max;
}

unfoldable pub place_fd : Sys → Fd → Option (ℕ × List Fd) → Reply
place_fd s f none = resume minus s
place_fd s f (some (fd, fds)) = resume fd (record s { fd_table = set fds fd f })

-- the end of SYS_OPEN, once the file exists
unfoldable pub open_fd : Sys → List ℕ → ℕ → ℕ → Reply
unfolding fd_alloc copy_cstr_bounded place_fd
open_fd s path flags fsize = place_fd s (opened path flags fsize) (fd_alloc s.fd_table)
