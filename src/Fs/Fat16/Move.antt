-- ===== src/Fs/Fat16/Move.antt =====
-- fat16.c: `fat16_cp` and `fat16_mv`. The buffer of `fat16_cp` is a block of the heap; the bytes that
-- it holds are a list here.
use astra_os.Base.{
  ℕ, ◌+◌, ◌==◌, ◌!=◌, ltb, if◌then◌else◌, u32, List, [], ◌∷◌, ◌++◌, length, Option, none, some, Run,
  done, fault, ◌>>=◌,
}
use astra_os.Fs.Fat16.Layout.{Disk, Fs, Sector, Entry, is_dir, ata_read_sector, ata_write_sector}
use astra_os.Fs.Fat16.Name.{fat16_format_filename}
use astra_os.Fs.Fat16.Path.{slash, str_eq, fat16_normalize_path, fat16_split_path}
use astra_os.Fs.Fat16.Dir.{
  Located, fat16_find_entry, fat16_find_entry_location, fat16_find_free_dir_entry,
  fat16_resolve_absolute,
}
use astra_os.Fs.Fat16.Read.{fat16_filesize, fat16_is_directory, fat16_read_file, bytes_from}
use astra_os.Memory.Heap.{Heap, kmalloc, kfree}
use astra_os.Fs.Fat16.Entries.{
  Status, zero_, Result, one, fail, or_fail, modify, set_bytes, mark_deleted,
}
use astra_os.Fs.Fat16.Write.{fat16_write_file}

-- `final_dst`, a buffer of 128 bytes: the directory, a slash unless it is the root, and the name
unfoldable pub inside : List ℕ → List ℕ → Run (List ℕ)
inside dir name =
    let path = if str_eq dir (slash ∷ []) then dir ++ name else dir ++ slash ∷ name in
    if ltb (length path) 128 then done path else fault

-- where `fat16_cp` writes to; `none` for its `return 0`
unfoldable pub copy_target : ℕ → Fs → List ℕ → List ℕ → Run (Option (List ℕ))
unfolding inside fat16_is_directory fat16_normalize_path fat16_split_path
copy_target fuel s src dst = do
  into ← fat16_is_directory fuel s dst
  let nested = do
    abs_dst ← fat16_normalize_path s.current_path dst
    abs_src ← fat16_normalize_path s.current_path src
    elim (fat16_split_path abs_src) [
      | none ↦ done none
      | some (parent, name) ↦ inside abs_dst name >>= λ path. done (some path)
    ]
  if into then nested else done (some dst)

-- the part of `fat16_cp` between `kmalloc` and `kfree`, which stands before each of its returns
unfoldable pub copy_through : ℕ → Fs → List ℕ → List ℕ → ℕ → Result
unfolding copy_target fat16_read_file fat16_write_file
copy_through fuel s src dst file_size = fat16_read_file fuel s src (u32 (file_size + 4)) >>= λ read.
    or_fail s.disk read λ content.
      let write = copy_target fuel s src dst >>= λ target.
      or_fail s.disk target λ path. fat16_write_file fuel s path content in
      if length content != file_size then fail s.disk else write

-- a status and the disk, with the heap
abbrev pub WithHeap : Type 0
WithHeap = Run ((Status × Disk) × Heap)

abbrev pub fail_with : Disk → Heap → WithHeap
fail_with d h = done ((zero_, d), h)

-- the copy of a file of known size, through a block of the heap
unfoldable pub copy_file : ℕ → Fs → Heap → List ℕ → List ℕ → Option ℕ → WithHeap
unfolding copy_through kmalloc kfree
copy_file fuel s h src dst none = fail_with s.disk h
copy_file fuel s h src dst (some file_size) =
    kmalloc fuel (u32 (file_size + 4)) h >>= λ (buf, held).
    let copied = copy_through fuel s src dst file_size >>= λ result.
    kfree fuel buf held >>= λ freed. done (result, freed) in
    if buf == 0 then fail_with s.disk held else copied

unfoldable pub fat16_cp : ℕ → Fs → Heap → List ℕ → List ℕ → WithHeap
unfolding copy_file fat16_is_directory fat16_filesize
fat16_cp fuel s h src dst = do
  directory ← fat16_is_directory fuel s src
  let copy = fat16_filesize fuel s src >>= copy_file fuel s h src dst
  if directory then fail_with s.disk h else copy

-- the copied entry under its new name
unfoldable pub moved_entry : Entry → ℕ → List ℕ → Sector → Sector
unfolding set_bytes bytes_from fat16_format_filename
moved_entry e off name buf =
    set_bytes (set_bytes buf off (bytes_from e 0 32)) off (fat16_format_filename name)

-- the two writes of `fat16_mv`: the new entry first, then the mark on the old one
unfoldable pub relink : Disk → Located → ℕ → ℕ → List ℕ → Disk
unfolding moved_entry mark_deleted ata_read_sector ata_write_sector
relink d from lba off name =
    mark_deleted (modify d lba (moved_entry from.entry off name)) from.sector from.offset

-- the part behind the lookup of the source
unfoldable pub move_to : ℕ → Fs → Located → List ℕ → Result
unfolding relink fat16_split_path fat16_resolve_absolute fat16_find_entry fat16_find_free_dir_entry
move_to fuel s from abs_dst = or_fail s.disk (fat16_split_path abs_dst) λ (parent, name).
    fat16_resolve_absolute fuel s.bpb s.disk parent >>= λ o. or_fail s.disk o λ cluster.
      fat16_find_entry fuel s.bpb s.disk cluster name >>= λ existing.
      let move = fat16_find_free_dir_entry fuel s.bpb s.disk cluster >>= λ free.
      or_fail s.disk free λ (lba, off). done (one, relink s.disk from lba off name) in
      elim existing [ some e ↦ fail s.disk | none ↦ move ]

-- `abs_dst` after the test for a directory, which normalizes the path a second time
unfoldable pub move_target : ℕ → Fs → List ℕ → List ℕ → Run (List ℕ)
unfolding inside fat16_is_directory fat16_normalize_path
move_target fuel s dst name = do
  abs_dst ← fat16_normalize_path s.current_path dst
  into ← fat16_is_directory fuel s abs_dst
  let nested = inside abs_dst name
  if into then nested else done abs_dst

unfoldable pub fat16_mv : ℕ → Fs → List ℕ → List ℕ → Result
unfolding move_to move_target fat16_is_directory fat16_normalize_path fat16_split_path
    fat16_resolve_absolute fat16_find_entry_location
fat16_mv fuel s src dst = do
  directory ← fat16_is_directory fuel s src
  let move = fat16_normalize_path s.current_path src >>= λ abs_src.
      or_fail s.disk (fat16_split_path abs_src) λ (parent, name).
        fat16_resolve_absolute fuel s.bpb s.disk parent >>= λ o. or_fail s.disk o λ cluster.
          fat16_find_entry_location fuel s.bpb s.disk cluster name >>= λ found.
          or_fail s.disk found λ l.
            let go = move_target fuel s dst name >>= move_to fuel s l in
            if is_dir l.entry then fail s.disk else go
  if directory then fail s.disk else move
