-- ===== src/Fs/Fat16/Write.antt =====
-- fat16.c: `fat16_write_file` and `fat16_append_file`. `data` is the list of the `size` bytes.
pub mod Reread
pub mod Round
pub mod Chain
pub mod Kept
pub mod Stored
use astra_os.Base.{
  ℕ, zero, suc, ◌+◌, ◌-◌, ◌*◌, ◌/◌, ◌%◌, ◌==◌, ◌!=◌, ltb, leb, if◌then◌else◌, u32, List, [], ◌∷◌,
  length, take, drop, get_or, Option, none, some, Run, done, out_of_fuel, ◌>>=◌,
}
use astra_os.Fs.Fat16.Layout.{
  Disk, Sector, Bpb, Fs, is_dir, first_cluster_low, file_size, set_u16, set_u32, ata_read_sector,
  ata_write_sector, fat16_cluster_to_sector,
}
use astra_os.Fs.Fat16.Table.{
  fat16_get_fat_entry, fat16_set_fat_entry, fat16_alloc_cluster, fat16_clear_cluster,
}
use astra_os.Fs.Fat16.Path.{fat16_normalize_path, fat16_split_path}
use astra_os.Fs.Fat16.Dir.{
  Located, fat16_find_entry_location, fat16_find_free_dir_entry, fat16_resolve_absolute,
}
use astra_os.Fs.Fat16.Entries.{Result, one, fail, or_fail, modify, set_bytes, new_file_entry}
use astra_os.Fs.Fat16.Remove.{free_content}

-- a buffer of zeros with the next bytes of the data at its start
abbrev pub padded : List ℕ → Sector
padded chunk i = get_or chunk i 0

-- `for (s = 0; s < left; s++)`: each sector is filled and written, until no data is left
unfoldable pub write_sectors : ℕ → ℕ → Disk → List ℕ → Disk × List ℕ
unfolding ata_write_sector
write_sectors zero lba d content = (d, content)
write_sectors (suc left) lba d content =
    let d' = ata_write_sector d lba (padded (take 512 content)) in
    let rest = drop 512 content in
    let more = write_sectors left (u32 (lba + 1)) d' rest in
    if length rest == 0 then (d', []) else more

-- `while (remaining > 0)`, on `rounds`, with `fuel` for each search of the table. The result is
-- the first cluster, 0 if there is none.
pub write_chain : ℕ → ℕ → Bpb → ℕ → ℕ → Disk → List ℕ → Run (Option ℕ × Disk)
write_chain zero fuel b first prev d content = out_of_fuel
write_chain (suc rounds) fuel b first prev d [] = done (some first, d)
write_chain (suc rounds) fuel b first prev d (c ∷ content) = do
  (new, allocated) ← fat16_alloc_cluster fuel b d
  let cleared = fat16_clear_cluster b allocated new
  let linked = if prev != 0 then fat16_set_fat_entry b cleared prev new else cleared
  let ended = fat16_set_fat_entry b linked new 0xFFFF
  let (written, rest) =
      write_sectors b.sectors_per_cluster (fat16_cluster_to_sector b new) ended (c ∷ content)
  let more = write_chain rounds fuel b (if first == 0 then new else first) new written rest
  if new == 0 then done (none, allocated) else more

-- the entry that the data is written for: sector, offset, and the disk with its old content freed
abbrev pub Target : Type 0
Target = Run (Option (ℕ × ℕ) × Disk)

unfoldable pub open_target : ℕ → Bpb → Disk → ℕ → List ℕ → Option Located → Target
unfolding free_content fat16_find_free_dir_entry new_file_entry
open_target fuel b d parent name (some l) =
    let freed = free_content fuel b d (first_cluster_low l.entry) >>= λ d'.
    done (some (l.sector, l.offset), d') in
    if is_dir l.entry then done (none, d) else freed
open_target fuel b d parent name none = fat16_find_free_dir_entry fuel b d parent >>= λ o. elim o [
  | none ↦ done (none, d)
  | some (lba, off) ↦ done (some (lba, off), new_file_entry d lba off name)
]

-- the last write: first cluster and size of the entry
unfoldable pub write_content : ℕ → Bpb → List ℕ → Option (ℕ × ℕ) × Disk → Result
unfolding write_chain set_u16 set_u32 ata_read_sector ata_write_sector
write_content fuel b content (none, d) = fail d
write_content fuel b content (some (lba, off), d) =
    write_chain fuel fuel b 0 0 d content >>= λ (o, d'). or_fail d' o λ first. done (
      one,
      modify d' lba (λ buf. set_u32 (set_u16 buf (off + 26) first) (off + 28) (length content)),
    )

unfoldable pub fat16_write_file : ℕ → Fs → List ℕ → List ℕ → Result
unfolding open_target write_content fat16_normalize_path fat16_split_path fat16_resolve_absolute
    fat16_find_entry_location
fat16_write_file fuel s [] content = fail s.disk
fat16_write_file fuel s (c ∷ path) content = do
  abs ← fat16_normalize_path s.current_path (c ∷ path)
  or_fail s.disk (fat16_split_path abs) λ (parent, name).
      fat16_resolve_absolute fuel s.bpb s.disk parent >>= λ o. or_fail s.disk o λ cluster.
        fat16_find_entry_location fuel s.bpb s.disk cluster name >>= λ existing.
        open_target fuel s.bpb s.disk cluster name existing >>= write_content fuel s.bpb content

-- the walk to the last cluster of the chain
unfoldable pub last_cluster : ℕ → Bpb → Disk → ℕ → ℕ → Run ℕ
last_cluster zero b d last cluster = out_of_fuel
last_cluster (suc fuel) b d last cluster =
    let next = fat16_get_fat_entry b d cluster in
    let more = last_cluster fuel b d cluster next in
    if ltb cluster 0xFFF8 then (if leb 0xFFF8 next then done cluster else more) else done last

-- the sectors of the last cluster behind its partly filled one
unfoldable pub fill_sectors : ℕ → ℕ → Disk → List ℕ → Disk × List ℕ
unfolding ata_write_sector
fill_sectors zero lba d content = (d, content)
fill_sectors (suc left) lba d [] = (d, [])
fill_sectors (suc left) lba d (c ∷ content) =
    fill_sectors left (u32 (lba + 1)) (ata_write_sector d lba (padded (take 512 (c ∷ content))))
      (drop 512 (c ∷ content))

-- what is left of the last cluster, if it is partly filled
unfoldable pub fill_cluster : Bpb → Disk → ℕ → ℕ → List ℕ → Disk × List ℕ
unfolding fill_sectors set_bytes ata_read_sector ata_write_sector
fill_cluster b d last offset content =
    let index = offset / 512 in
    let room = 512 - offset % 512 in
    let lba = u32 (fat16_cluster_to_sector b last + index) in
    let d' = modify d lba (λ buf. set_bytes buf (offset % 512) (take room content)) in
    if offset == 0
    then (d, content)
    else fill_sectors (b.sectors_per_cluster - (index + 1)) (u32 (lba + 1)) d' (drop room content)

-- the loop that adds clusters behind `prev`
pub append_chain : ℕ → ℕ → Bpb → ℕ → Disk → List ℕ → Run (Option ℕ × Disk)
append_chain zero fuel b prev d content = out_of_fuel
append_chain (suc rounds) fuel b prev d [] = done (some prev, d)
append_chain (suc rounds) fuel b prev d (c ∷ content) = do
  (new, allocated) ← fat16_alloc_cluster fuel b d
  let cleared = fat16_clear_cluster b allocated new
  let linked = fat16_set_fat_entry b cleared prev new
  let ended = fat16_set_fat_entry b linked new 0xFFFF
  let (written, rest) =
      write_sectors b.sectors_per_cluster (fat16_cluster_to_sector b new) ended (c ∷ content)
  let more = append_chain rounds fuel b new written rest
  if new == 0 then done (none, allocated) else more

unfoldable pub append_content : ℕ → Bpb → Disk → Located → List ℕ → Result
unfolding last_cluster fill_cluster append_chain set_u32 ata_read_sector ata_write_sector
append_content fuel b d l content = do
  let first = first_cluster_low l.entry
  let old_size = file_size l.entry
  last ← last_cluster fuel b d first first
  let (filled, rest) = fill_cluster b d last (old_size % (b.sectors_per_cluster * 512)) content
  (o, grown) ← append_chain fuel fuel b last filled rest
  or_fail grown o λ _.
      let new_size = u32 (old_size + length content) in
      done (one, modify grown l.sector (λ buf. set_u32 buf (l.offset + 28) new_size))

unfoldable pub fat16_append_file : ℕ → Fs → List ℕ → List ℕ → Result
unfolding append_content fat16_write_file
fat16_append_file fuel s [] content = fail s.disk
fat16_append_file fuel s (c ∷ path) content = do
  abs ← fat16_normalize_path s.current_path (c ∷ path)
  or_fail s.disk (fat16_split_path abs) λ (parent, name).
      fat16_resolve_absolute fuel s.bpb s.disk parent >>= λ o. or_fail s.disk o λ cluster.
        fat16_find_entry_location fuel s.bpb s.disk cluster name >>= λ existing.
        let rewrite = fat16_write_file fuel s (c ∷ path) content in
        elim existing [
          | none ↦ rewrite
          | some l ↦
              let append = append_content fuel s.bpb s.disk l content in
              if is_dir l.entry
              then fail s.disk
              else if first_cluster_low l.entry == 0
              then rewrite
              else append
        ]
