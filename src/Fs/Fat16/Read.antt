-- ===== src/Fs/Fat16/Read.antt =====
-- fat16.c: the functions that read files and change nothing.
pub mod Length
use astra_os.Base.{
  ℕ, zero, suc, ◌+◌, ◌-◌, ◌*◌, Bool, true, false, ◌&&◌, ◌||◌, ◌==◌, ltb, leb, if◌then◌else◌, u32,
  List, [], ◌∷◌, ◌++◌, map, length, Option, none, some, Run, done, out_of_fuel, ◌>>=◌, if_some,
}
use astra_os.Fs.Fat16.Layout.{
  Disk, Sector, Bpb, Fs, Entry, is_dir, first_cluster_low, file_size, ata_read_sector,
  fat16_cluster_to_sector,
}
use astra_os.Fs.Fat16.Table.{fat16_get_fat_entry}
use astra_os.Fs.Fat16.Name.{fat16_entry_to_name}
use astra_os.Fs.Fat16.Path.{slash, str_eq, fat16_normalize_path, fat16_split_path}
use astra_os.Fs.Fat16.Dir.{
  Flow, next, ret, Visit, at_live, walk_dir, fat16_find_entry, fat16_resolve_absolute,
}

-- An absolute path to its entry: split, resolve the parent, look the name up there.
unfoldable pub entry_of_path : ℕ → Fs → List ℕ → Run (Option Entry)
unfolding fat16_split_path fat16_resolve_absolute fat16_find_entry
entry_of_path fuel s abs = if_some (fat16_split_path abs) λ (parent, name). do
  cluster ← fat16_resolve_absolute fuel s.bpb s.disk parent
  if_some cluster λ parent_cluster. fat16_find_entry fuel s.bpb s.disk parent_cluster name

-- `if (entry.attr & 0x10) return 0;`
abbrev pub file_only : Option Entry → Option Entry
file_only none = none
file_only (some e) = if is_dir e then none else some e

-- The file that a path names, from the directory in which it is read. `path` is not NULL.
unfoldable pub file_of_path : ℕ → Fs → List ℕ → Run (Option Entry)
unfolding entry_of_path fat16_normalize_path
file_of_path fuel s [] = done none
file_of_path fuel s (c ∷ path) = do
  abs ← fat16_normalize_path s.current_path (c ∷ path)
  entry ← entry_of_path fuel s abs
  done (file_only entry)

unfoldable pub fat16_filesize : ℕ → Fs → List ℕ → Run (Option ℕ)
unfolding file_of_path
fat16_filesize fuel s path = do
  entry ← file_of_path fuel s path
  if_some entry λ e. done (some (file_size e))

abbrev pub entry_is_dir : Option Entry → Bool
entry_is_dir none = false
entry_is_dir (some e) = is_dir e

unfoldable pub fat16_is_directory : ℕ → Fs → List ℕ → Run Bool
unfolding entry_of_path fat16_normalize_path
fat16_is_directory fuel s [] = done false
fat16_is_directory fuel s (c ∷ path) = do
  abs ← fat16_normalize_path s.current_path (c ∷ path)
  let lookup = entry_of_path fuel s abs
  if str_eq abs (slash ∷ []) then done true else (do entry ← lookup; done (entry_is_dir entry))

-- `count` bytes of a sector from offset `i` on
unfoldable pub bytes_from : Sector → ℕ → ℕ → List ℕ
bytes_from buf i zero = []
bytes_from buf i (suc count) = buf i ∷ bytes_from buf (i + 1) count

abbrev pub min_ℕ : ℕ → ℕ → ℕ
min_ℕ a b = if ltb a b then a else b

-- The copying loops over the sectors of one cluster: `skip` bytes are passed over first, and at
-- most `remaining` bytes are copied. It returns the bytes and what is then left to copy.
unfoldable pub copy_sectors : ℕ → ℕ → Disk → ℕ → ℕ → List ℕ × ℕ
unfolding bytes_from
copy_sectors zero lba d skip remaining = ([], remaining)
copy_sectors (suc left) lba d skip remaining =
    let start = if leb 512 skip then 512 else skip in
    let count = min_ℕ (512 - start) remaining in
    let more = copy_sectors left (u32 (lba + 1)) d (skip - start) (remaining - count) in
    if remaining == 0
    then ([], 0)
    else (bytes_from (ata_read_sector d lba) start count ++ more.0, more.1)

-- `while (cluster < 0xFFF8 && remaining > 0)`
unfoldable pub copy_chain : ℕ → Bpb → Disk → ℕ → ℕ → ℕ → Run (List ℕ)
unfolding copy_sectors
copy_chain zero b d cluster skip remaining = out_of_fuel
copy_chain (suc fuel) b d cluster skip remaining =
    let here =
      copy_sectors b.sectors_per_cluster (fat16_cluster_to_sector b cluster) d skip remaining in
    let there =
      copy_chain fuel b d (fat16_get_fat_entry b d cluster) (skip - b.sectors_per_cluster * 512)
        here.1
      >>= λ more. done (here.0 ++ more) in
    if ltb cluster 0xFFF8 && ltb 0 remaining
    then (if here.1 == 0 then done here.0 else there)
    else done []

-- `while (skip >= cluster_size_bytes)`: the cluster and the bytes to skip in it
unfoldable pub skip_clusters : ℕ → Bpb → Disk → ℕ → ℕ → Run (Option (ℕ × ℕ))
skip_clusters zero b d cluster skip = out_of_fuel
skip_clusters (suc fuel) b d cluster skip =
    let size = b.sectors_per_cluster * 512 in
    let next = fat16_get_fat_entry b d cluster in
    let rest = skip_clusters fuel b d next (skip - size) in
    if leb size skip
    then (if leb 0xFFF8 next then done none else rest)
    else done (some (cluster, skip))

-- the part of `fat16_read_at` behind the lookup
unfoldable pub read_entry_at : ℕ → Bpb → Disk → Entry → ℕ → ℕ → Run (Option (List ℕ))
unfolding copy_chain skip_clusters
read_entry_at fuel b d e offset len =
    let remaining = min_ℕ len (file_size e - offset) in
    let read = skip_clusters fuel b d (first_cluster_low e) offset >>= λ o.
    if_some o λ (cluster, skip).
      copy_chain fuel b d cluster skip remaining >>= λ bytes. done (some bytes) in
    if leb (file_size e) offset
    then done (some [])
    else if remaining == 0
    then done (some [])
    else if ltb (first_cluster_low e) 2
    then done none
    else read

-- The bytes that it stores to `out`, which is not NULL; `none` for a return of 0.
unfoldable pub fat16_read_at : ℕ → Fs → List ℕ → ℕ → ℕ → Run (Option (List ℕ))
unfolding read_entry_at entry_of_path fat16_normalize_path
fat16_read_at fuel s [] offset len = done none
fat16_read_at fuel s (c ∷ path) offset len = do
  abs ← fat16_normalize_path s.current_path (c ∷ path)
  let read = do
    entry ← entry_of_path fuel s abs
    if_some (file_only entry) λ e. read_entry_at fuel s.bpb s.disk e offset len
  if str_eq abs (slash ∷ []) then done none else read

-- `fat16_read_file`: `none` for a return of 0. Its loops copy the same bytes as those of
-- `fat16_read_at` from offset 0, and stop at the first byte past the end of the file.
unfoldable pub fat16_read_file : ℕ → Fs → List ℕ → ℕ → Run (Option (List ℕ))
unfolding file_of_path copy_chain
fat16_read_file fuel s path max_size = do
  entry ← file_of_path fuel s path
  if_some entry λ e.
      let read = copy_chain fuel s.bpb s.disk (first_cluster_low e) 0 (file_size e) >>= λ bytes.
      done (some bytes) in
      if ltb max_size (file_size e)
      then done none
      else if file_size e == 0
      then done (some [])
      else if ltb (first_cluster_low e) 2
      then done none
      else read

-- a character as `fat16_cat` shows it
abbrev pub shown : ℕ → ℕ
shown c = if c == 10 || c == 13 || (leb 32 c && leb c 126) then c else b'.'

-- what `fat16_cat` prints, and whether it returns 1
unfoldable pub fat16_cat : ℕ → Fs → List ℕ → Run (List ℕ × Bool)
unfolding file_of_path copy_chain
fat16_cat fuel s path = file_of_path fuel s path >>= λ entry. elim entry [
  | none ↦ done ([], false)
  | some e ↦
      let print = copy_chain fuel s.bpb s.disk (first_cluster_low e) 0 (file_size e) >>= λ bytes.
      done (10 ∷ map shown bytes ++ 10 ∷ [], true) in
      if file_size e == 0
      then done (10 ∷ [], true)
      else if ltb (first_cluster_low e) 2
      then done (10 ∷ [], false)
      else print
]
