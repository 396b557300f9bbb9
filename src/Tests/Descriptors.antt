-- ===== src/Tests/Descriptors.antt =====
-- src/kernel/syscall.c: a table with one open file.
use astra_os.Base.{
  ◌&&◌, leb, ltb, ℕ, ◌≡◌, ◌<◌, ◌⊎◌, refl, arith, true, false, List, [], ◌∷◌, get_or, set, replicate,
  done,
}
use astra_os.Fs.Fat16.Layout.{
  ata_read_sector, fat16_root_start_sector, fat16_root_dir_sectors, fat16_first_data_sector,
  fat16_cluster_to_sector, fat16_init, read_bpb,
}
use astra_os.Fs.Fat16.Table.{fat16_get_fat_entry}
use astra_os.Fs.Fat16.Name.{base_loop, ext_chars, fat16_format_filename, same_name}
use astra_os.Fs.Fat16.Path.{
  fat16_normalize_path, join_input, scan_parts, push_part, join_parts, fat16_split_path, split_last,
}
use astra_os.Fs.Fat16.Dir.{
  walk_entries, walk_sectors, walk_dir, match_visit, fat16_find_entry, resolve_part, resolve_loop,
  fat16_resolve_absolute,
}
use astra_os.Fs.Fat16.Read.{
  entry_of_path, bytes_from, copy_sectors, copy_chain, skip_clusters, read_entry_at, fat16_read_at,
}
use astra_os.Kernel.Bytes.{write_bytes}
use astra_os.Kernel.Syscall.{
  store_bytes, meets, after_init, Fd, Sys, resume, new_fd, open_fd, fd_free,
}
use astra_os.Kernel.Syscall.Transfer.{read_fd, read_got, sys_read, sys_writefd}
use astra_os.Kernel.Syscall.Calls.{sys_close, syscall_handler}
use astra_os.Kernel.Syscall.Table.{free_fd, open_fd-sys_close}
use astra_os.Kernel.Syscall.Invariant.{IsSafe}
use astra_os.Kernel.Syscall.Safe.{syscall_handler-IsSafe}
use astra_os.Kernel.Syscall.Reading.{IsUnread, IsRead, sys_read-IsRead, bad_fd_lem}
use astra_os.Tests.FatFiles.{one_file_fs, file_name}

abbrev open_file : Fd
open_file = record { used = true; flags = 0; offset = 1; size = 3; path = file_name }

abbrev one_open : List Fd
one_open = open_file ∷ replicate 15 (new_fd false)

abbrev running : Sys
running = record {
  fs = one_file_fs;
  fd_table = one_open;
  mem = λ a. 0;
  screen = [];
  kernel_mem = λ a. leb 0x100000 a && ltb a 0x200000;
}

open_fd-sys_close_example :
    ((open_fd running file_name 2 3 ≡ resume 0xFFFFFFFF running)
      × ((j : ℕ) → j < 16 → (get_or one_open j free_fd).used ≡ true))
    ⊎ ((fd : ℕ) × (s' : Sys) × (open_fd running file_name 2 3 ≡ resume fd s')
        × (fd < 16)
        × ((get_or one_open fd free_fd).used ≡ false)
        × ((j : ℕ) → j < fd → (get_or one_open j free_fd).used ≡ true)
        × (sys_close 4 s' fd
            ≡ done (resume 0 (record running { fd_table = set one_open fd free_fd }))))
open_fd-sys_close_example = open_fd-sys_close running file_name 2 3 4 refl

running-IsSafe : IsSafe running
running-IsSafe = record {
  whole = refl;
  paths = (
    omega arith,
    (
      omega arith,
      (
        omega arith,
        (
          omega arith,
          (
            omega arith,
            (
              omega arith,
              (
                omega arith,
                (
                  omega arith,
                  (
                    omega arith,
                    (
                      omega arith,
                      (
                        omega arith,
                        (
                          omega arith,
                          (omega arith, (omega arith, (omega arith, (omega arith, tt)))),
                        ),
                      ),
                    ),
                  ),
                ),
              ),
            ),
          ),
        ),
      ),
    ),
  );
}

abbrev closed : Sys
closed = record running { fd_table = new_fd false ∷ replicate 15 (new_fd false) }

close_run :
    syscall_handler 4 (record { eax = 5; ebx = 0; ecx = 0; edx = 0 }) running
    ≡ done (resume 0 closed)
unfolding syscall_handler sys_close fd_free
close_run = refl

syscall_handler-IsSafe_example : IsSafe closed
syscall_handler-IsSafe_example =
    syscall_handler-IsSafe 4 (record { eax = 5; ebx = 0; ecx = 0; edx = 0 }) running
      (resume 0 closed) running-IsSafe close_run

-- two bytes are left from offset 1 on
abbrev after_read : Sys
after_read = record running {
  fd_table = record open_file { offset = 3 } ∷ replicate 15 (new_fd false);
  mem = write_bytes (λ a. 0) 100 (8 ∷ 9 ∷ []);
}

read_run : sys_read 4 running 0 100 5 ≡ done (resume 2 after_read)
unfolding sys_read after_init read_fd read_got store_bytes meets fat16_init read_bpb fat16_read_at
    read_entry_at entry_of_path fat16_normalize_path join_input scan_parts push_part join_parts
    fat16_split_path split_last fat16_resolve_absolute resolve_loop resolve_part fat16_find_entry
    walk_dir walk_sectors walk_entries match_visit same_name fat16_format_filename base_loop
    ext_chars ata_read_sector fat16_root_start_sector fat16_root_dir_sectors fat16_first_data_sector
    fat16_cluster_to_sector fat16_get_fat_entry skip_clusters copy_chain copy_sectors bytes_from
read_run = refl

abbrev bytes_read : ℕ
bytes_read = 2

sys_read-IsRead_example :
    ((bytes_read ≡ 0xFFFFFFFF) × IsUnread running after_read)
    ⊎ IsRead running 0 100 5 bytes_read after_read
sys_read-IsRead_example = sys_read-IsRead 4 running 0 100 5 2 after_read read_run

closed_five :
    (sys_read 4 running 3 100 5 ≡ done (resume 0xFFFFFFFF running))
    × (sys_writefd 4 running 3 100 5 ≡ done (resume 0xFFFFFFFF running))
    × (sys_close 4 running 3 ≡ done (resume 0xFFFFFFFF running))
closed_five = bad_fd_lem 4 running 3 100 5 refl
