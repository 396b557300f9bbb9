-- ===== src/Fs/Fat16/Remove.antt =====
-- fat16.c: `fat16_rm`, `fat16_rmdir` and `fat16_rm_rf`.
use astra_os.Base.{
  ℕ, zero, suc, ◌+◌, Bool, true, false, ◌&&◌, ◌||◌, ◌==◌, ◌!=◌, ltb, if◌then◌else◌, u32, update,
  List, [], ◌∷◌, Run, done, out_of_fuel, ◌>>=◌,
}
use astra_os.Fs.Fat16.Layout.{
  Disk, Sector, Bpb, Fs, entry_at, is_dir, first_cluster_low, attr, ata_read_sector,
  ata_write_sector, fat16_cluster_to_sector,
}
use astra_os.Fs.Fat16.Table.{fat16_get_fat_entry, fat16_free_cluster_chain}
use astra_os.Fs.Fat16.Path.{slash, str_eq, fat16_normalize_path, fat16_split_path}
use astra_os.Fs.Fat16.Dir.{
  Located, fat16_find_entry_location, fat16_is_dir_empty, fat16_resolve_absolute,
}
use astra_os.Fs.Fat16.Entries.{one, minus_one, minus_two, Result, fail, or_fail, mark_deleted}

-- `if (entry.first_cluster_low != 0) fat16_free_cluster_chain(entry.first_cluster_low);`
unfoldable pub free_content : ℕ → Bpb → Disk → ℕ → Run Disk
unfolding fat16_free_cluster_chain
free_content fuel b d cluster =
    let freed = fat16_free_cluster_chain fuel b d cluster in if cluster != 0 then freed else done d

unfoldable pub remove_file : ℕ → Bpb → Disk → Located → Result
unfolding free_content mark_deleted
remove_file fuel b d l = do
  freed ← free_content fuel b d (first_cluster_low l.entry)
  done (one, mark_deleted freed l.sector l.offset)

unfoldable pub fat16_rm : ℕ → Fs → List ℕ → Result
unfolding remove_file fat16_find_entry_location
fat16_rm fuel s [] = fail s.disk
fat16_rm fuel s (c ∷ name) = do
  found ← fat16_find_entry_location fuel s.bpb s.disk s.current_dir_cluster (c ∷ name)
  or_fail s.disk found λ l.
      let removed = remove_file fuel s.bpb s.disk l in
      if is_dir l.entry then done (minus_one, s.disk) else removed

unfoldable pub fat16_rmdir : ℕ → Fs → List ℕ → Result
unfolding fat16_find_entry_location fat16_is_dir_empty fat16_free_cluster_chain mark_deleted
fat16_rmdir fuel s [] = fail s.disk
fat16_rmdir fuel s (c ∷ name) = do
  found ← fat16_find_entry_location fuel s.bpb s.disk s.current_dir_cluster (c ∷ name)
  or_fail s.disk found λ l.
      let dir_cluster = first_cluster_low l.entry in
      let remove = fat16_free_cluster_chain fuel s.bpb s.disk dir_cluster >>= λ freed.
      done (one, mark_deleted freed l.sector l.offset) in
      let check = fat16_is_dir_empty fuel s.bpb s.disk dir_cluster >>= λ empty.
      if empty then remove else done (minus_two, s.disk) in
      if is_dir l.entry
      then (if dir_cluster == 0 then fail s.disk else check)
      else done (minus_one, s.disk)

-- where the scan of a directory that is deleted stands: the sector as it was read and changed
-- since, the disk, and whether the end of the directory was met
abbrev pub Purge : Type 0
Purge = Run (Sector × Disk × Bool)

module _ (fuel : ℕ) (b : Bpb) (delete_sub : Disk → ℕ → Run Disk) where
  -- the removal of one entry, whose sector is then written from the scan's own copy
  unfoldable pub purge_entry : ℕ → ℕ → Sector → Disk → Purge
  unfolding free_content ata_write_sector
  purge_entry lba off buf d =
      let e = entry_at buf off in
      let sub = first_cluster_low e in
      let buf' = update buf off 0xE5 in
      let below = delete_sub d sub in
      let emptied =
        if is_dir e then (if ltb sub 2 then done d else below) else free_content fuel b d sub in
      emptied >>= λ d'. done (buf', ata_write_sector d' lba buf', false)

  pub purge_entries : ℕ → ℕ → ℕ → Sector → Disk → Purge
  purge_entries zero lba off buf d = done (buf, d, false)
  purge_entries (suc left) lba off buf d =
      let skip = purge_entries left lba (off + 32) buf d in
      let purge =
        purge_entry lba off buf d >>= λ (buf', d', _). purge_entries left lba (off + 32) buf' d' in
      let e = entry_at buf off in
      if e 0 == 0x00
      then done (buf, d, true)
      else if e 0 == 0xE5
      then skip
      else if attr e == 0x0F
      then skip
      else if e 0 == b'.' && (e 1 == b' ' || e 1 == b'.')
      then skip
      else purge

  pub purge_sectors : ℕ → ℕ → Disk → Run (Disk × Bool)
  purge_sectors zero lba d = done (d, false)
  purge_sectors (suc left) lba d =
      purge_entries 16 lba 0 (ata_read_sector d lba) d >>= λ (_, d', ended).
      let more = purge_sectors left (u32 (lba + 1)) d' in if ended then done (d', true) else more

  pub purge_chain : ℕ → ℕ → Disk → Run Disk
  purge_chain zero cluster d = out_of_fuel
  purge_chain (suc rounds) cluster d =
      let here =
        purge_sectors b.sectors_per_cluster (fat16_cluster_to_sector b cluster) d >>= λ (d', ended).
        let more = purge_chain rounds (fat16_get_fat_entry b d' cluster) d' in
        if ended then done d' else more in
      if ltb cluster 0xFFF8 then here else done d

-- The recursion into subdirectories is on its own fuel, the depth; each loop below runs on `fuel`.
unfoldable pub fat16_delete_dir_recursive : ℕ → ℕ → Bpb → Disk → ℕ → Run Disk
unfolding purge_chain purge_sectors purge_entries purge_entry fat16_free_cluster_chain
fat16_delete_dir_recursive zero fuel b d dir_cluster = out_of_fuel
fat16_delete_dir_recursive (suc depth) fuel b d dir_cluster = do
  purged ← purge_chain fuel b (fat16_delete_dir_recursive depth fuel b) fuel dir_cluster d
  fat16_free_cluster_chain fuel b purged dir_cluster

-- the two branches of `fat16_rm_rf` behind the lookup
unfoldable pub remove_tree : ℕ → Bpb → Disk → Located → Result
unfolding remove_file fat16_delete_dir_recursive mark_deleted
remove_tree fuel b d l =
    let dir_cluster = first_cluster_low l.entry in
    let file = remove_file fuel b d l in
    let tree = fat16_delete_dir_recursive fuel fuel b d dir_cluster >>= λ purged.
    done (one, mark_deleted purged l.sector l.offset) in
    if is_dir l.entry then (if ltb dir_cluster 2 then fail d else tree) else file

unfoldable pub fat16_rm_rf : ℕ → Fs → List ℕ → Result
unfolding remove_tree fat16_normalize_path fat16_split_path fat16_resolve_absolute
    fat16_find_entry_location
fat16_rm_rf fuel s [] = fail s.disk
fat16_rm_rf fuel s (c ∷ path) = do
  abs ← fat16_normalize_path s.current_path (c ∷ path)
  let remove = or_fail s.disk (fat16_split_path abs) λ (parent, name).
      fat16_resolve_absolute fuel s.bpb s.disk parent >>= λ o. or_fail s.disk o λ cluster.
        fat16_find_entry_location fuel s.bpb s.disk cluster name >>= λ found.
        or_fail s.disk found (remove_tree fuel s.bpb s.disk)
  if str_eq abs (slash ∷ []) then fail s.disk else remove
