-- ===== src/Tests/FatFiles.antt =====
-- src/fs/fat16.c: a disk whose root directory holds one file.
use astra_os.Base.{
  ℕ, ◌+◌, ◌≡◌, ◌≤◌, ◌<◌, ◌⊎◌, refl, arith, true, ◌==◌, if◌then◌else◌, List, [], ◌∷◌, ◌++◌, get_or,
  replicate, Option, some, done,
}
use astra_os.Fs.Fat16.Layout.{
  Disk, Fs, entry_at, ata_read_sector, fat16_root_start_sector, fat16_root_dir_sectors,
  fat16_first_data_sector, fat16_cluster_to_sector,
}
use astra_os.Fs.Fat16.Table.{fat16_get_fat_entry, total_clusters}
use astra_os.Fs.Fat16.Name.{
  base_loop, ext_chars, fat16_format_filename, field_loop, fat16_entry_to_name, same_name,
}
use astra_os.Fs.Fat16.Path.{
  fat16_normalize_path, join_input, scan_parts, push_part, join_parts, fat16_split_path, split_last,
}
use astra_os.Fs.Fat16.Dir.{
  Located, walk_entries, walk_sectors, walk_dir, match_visit, free_visit, fat16_find_entry,
  fat16_find_entry_location, fat16_find_free_dir_entry, resolve_part, resolve_loop,
  fat16_resolve_absolute,
}
use astra_os.Fs.Fat16.Dir.Find.{IsFound, find_entry_location-IsFound, find_free_dir_entry-IsFree}
use astra_os.Fs.Fat16.Browse.{Listing, append_line, list_visit, list_cluster, fat16_list_dir}
use astra_os.Fs.Fat16.Read.{
  entry_of_path, bytes_from, copy_sectors, copy_chain, skip_clusters, read_entry_at, fat16_read_at,
}
use astra_os.Fs.Fat16.Read.Length.{length-read_at}
use astra_os.Fs.Fat16.Browse.Listed.{Fits, list_dir-Fits}
use astra_os.Fs.Fat16.Volume.{IsVolume}
use astra_os.Fs.Fat16.Write.{write_chain}
use astra_os.Fs.Fat16.Write.Chain.{IsKept}
use astra_os.Fs.Fat16.Write.Stored.{IsReadBack, copy_chain-write_chain}
use astra_os.Tests.FatTable.{geometry}

-- A.TXT, of three bytes in cluster 5
abbrev one_entry : List ℕ
one_entry =
    b'A' ∷ replicate 7 b' '
    ++ b'T' ∷ b'X' ∷ b'T' ∷ 0x20 ∷ replicate 14 0
    ++ 5 ∷ 0 ∷ 3 ∷ 0 ∷ 0 ∷ 0 ∷ []

-- the fields of `geometry`, and the signature
abbrev boot_sector : List ℕ
boot_sector =
    replicate 11 0
    ++ 0 ∷ 2 ∷ 4 ∷ 4 ∷ 0 ∷ 2 ∷ 0 ∷ 2 ∷ 0 ∷ 125 ∷ 0 ∷ 32 ∷ 0 ∷ replicate 486 0
    ++ 0x55 ∷ 0xAA ∷ []

abbrev pub one_file_disk : Disk
one_file_disk lba i =
    if lba == 0
    then get_or boot_sector i 0
    else if lba == 4
    then (if i == 10 then 255 else if i == 11 then 255 else 0)
    else if lba == 68
    then get_or one_entry i 0
    else if lba == 112
    then get_or (7 ∷ 8 ∷ 9 ∷ []) i 0
    else 0

abbrev pub one_file_fs : Fs
one_file_fs = record {
  disk = one_file_disk;
  bpb = geometry;
  current_dir_cluster = 0;
  current_path = b'/' ∷ [];
}

abbrev pub file_name : List ℕ
file_name = b'a' ∷ b'.' ∷ b't' ∷ b'x' ∷ b't' ∷ []

abbrev file_place : Located
file_place = record { sector = 68; offset = 0; entry = λ i. get_or one_entry (0 + i) 0 }

find_run : fat16_find_entry_location 2 geometry one_file_disk 0 file_name ≡ done (some file_place)
unfolding fat16_find_entry_location walk_dir walk_sectors walk_entries match_visit same_name
    fat16_format_filename base_loop ext_chars ata_read_sector fat16_root_start_sector
    fat16_root_dir_sectors
find_run = refl

find_entry_location-IsFound_example :
    IsFound one_file_disk (fat16_format_filename file_name) file_place
find_entry_location-IsFound_example =
    find_entry_location-IsFound 2 geometry one_file_disk 0 file_name file_place find_run

free_run : fat16_find_free_dir_entry 2 geometry one_file_disk 0 ≡ done (some (68, 32))
unfolding fat16_find_free_dir_entry walk_dir walk_sectors walk_entries free_visit ata_read_sector
    fat16_root_start_sector fat16_root_dir_sectors
free_run = refl

find_free_dir_entry-IsFree_example :
    let first = entry_at (ata_read_sector one_file_disk 68) 32 0 in
    (32 < 512) × ((first ≡ 0) ⊎ (first ≡ 0xE5))
find_free_dir_entry-IsFree_example =
    find_free_dir_entry-IsFree 2 geometry one_file_disk 0 68 32 free_run

read_run : fat16_read_at 2 one_file_fs file_name 1 5 ≡ done (some (8 ∷ 9 ∷ []))
unfolding fat16_read_at read_entry_at entry_of_path fat16_normalize_path join_input scan_parts
    push_part join_parts fat16_split_path split_last fat16_resolve_absolute resolve_loop
    resolve_part fat16_find_entry walk_dir walk_sectors walk_entries match_visit same_name
    fat16_format_filename base_loop ext_chars ata_read_sector fat16_root_start_sector
    fat16_root_dir_sectors fat16_first_data_sector fat16_cluster_to_sector fat16_get_fat_entry
    skip_clusters copy_chain copy_sectors bytes_from
read_run = refl

length-read_at_example : 2 ≤ 5
length-read_at_example = length-read_at 2 one_file_fs file_name 1 5 (8 ∷ 9 ∷ []) read_run

abbrev listing : Listing
listing = (b'A' ∷ b'.' ∷ b'T' ∷ b'X' ∷ b'T' ∷ 10 ∷ [], true)

list_run : fat16_list_dir 2 one_file_fs (b'/' ∷ []) 64 ≡ done (true, listing)
unfolding fat16_list_dir list_cluster fat16_normalize_path join_input scan_parts push_part
    join_parts fat16_resolve_absolute resolve_loop resolve_part walk_dir walk_sectors walk_entries
    list_visit append_line fat16_entry_to_name field_loop ata_read_sector fat16_root_start_sector
    fat16_root_dir_sectors
list_run = refl

list_dir-Fits_example : Fits 64 listing
list_dir-Fits_example = list_dir-Fits 2 one_file_fs (b'/' ∷ []) 64 true listing list_run

-- a sector and three bytes
abbrev long_text : List ℕ
long_text = replicate 512 b'A' ++ 7 ∷ 8 ∷ 9 ∷ []

geometry-IsVolume : IsVolume geometry
unfolding total_clusters fat16_root_dir_sectors fat16_first_data_sector fat16_root_start_sector
geometry-IsVolume = record {
  few = omega arith;
  filled = omega arith;
  tables = λ k lt. record { in_table = omega arith; in_reach = omega arith };
  behind = omega arith;
  reach = omega arith;
}

copy_chain-write_chain_example :
    (r : Option ℕ) × (d' : Disk) × (write_chain 600 8000 geometry 0 0 one_file_disk long_text
      ≡ done (r, d'))
    × IsKept geometry 0 one_file_disk d'
    × IsReadBack geometry d' long_text r
unfolding total_clusters fat16_root_dir_sectors
copy_chain-write_chain_example =
    copy_chain-write_chain 8000 600 geometry one_file_disk long_text geometry-IsVolume (omega arith)
      (omega arith)
