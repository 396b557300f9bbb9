-- ===== src/Fs/Fat16/Table.antt =====
-- fat16.c: the file allocation table.
pub mod Entry
pub mod Alloc
pub mod Chain
use astra_os.Base.{
  ℕ, zero, suc, ◌+◌, ◌-◌, ◌*◌, ◌/◌, ◌%◌, ◌^◌, Bool, true, false, ◌&&◌, ◌!=◌, ◌==◌, ltb, leb,
  if◌then◌else◌, u16, u32, sub32, Run, done, out_of_fuel,
}
use astra_os.Fs.Fat16.Layout.{
  Disk, Sector, Bpb, Fs, u16_at, set_u16, ata_read_sector, ata_write_sector,
  fat16_cluster_to_sector, fat16_root_dir_sectors,
}

unfoldable pub fat16_get_fat_entry : Bpb → Disk → ℕ → ℕ
fat16_get_fat_entry b d cluster =
    let fat_offset = cluster * 2 in
    u16_at (ata_read_sector d (b.reserved_sectors + fat_offset / 512)) (fat_offset % 512)

-- read a sector, store a word into it, write it back
unfoldable pub store_word : Disk → ℕ → ℕ → ℕ → Disk
store_word d lba offset value =
    ata_write_sector d lba (set_u16 (ata_read_sector d lba) offset value)

-- both copies of the table, one after the other
unfoldable pub fat16_set_fat_entry : Bpb → Disk → ℕ → ℕ → Disk
fat16_set_fat_entry b d cluster value =
    let fat_offset = cluster * 2 in
    let offset = fat_offset % 512 in
    let fat_start = b.reserved_sectors in
    let fat2_start = fat_start + b.sectors_per_fat in
    let d1 = store_word d (fat_start + fat_offset / 512) offset value in
    store_word d1 (fat2_start + fat_offset / 512) offset value

unfoldable pub total_clusters : Bpb → ℕ
unfolding fat16_root_dir_sectors
total_clusters b =
    let total_sectors =
      if b.total_sectors_16 != 0 then b.total_sectors_16 else b.total_sectors_32 in
    let used = b.reserved_sectors + b.num_fats * b.sectors_per_fat + fat16_root_dir_sectors b in
    sub32 total_sectors used / b.sectors_per_cluster

-- The loop of `fat16_alloc_cluster`: `cluster` is a `uint16_t`, so its increment wraps.
alloc_loop : Bpb → Disk → ℕ → ℕ → ℕ → Run (ℕ × Disk)
alloc_loop b d limit zero cluster = out_of_fuel
alloc_loop b d limit (suc fuel) cluster =
    let later = alloc_loop b d limit fuel (u16 (cluster + 1)) in
    if ltb cluster limit
    then (if fat16_get_fat_entry b d cluster == 0x0000
        then done (cluster, fat16_set_fat_entry b d cluster 0xFFFF)
        else later)
    else done (0, d)

-- the cluster that was found free, or 0
unfoldable pub fat16_alloc_cluster : ℕ → Bpb → Disk → Run (ℕ × Disk)
unfolding alloc_loop fat16_get_fat_entry fat16_set_fat_entry
fat16_alloc_cluster fuel b d = alloc_loop b d (u32 (total_clusters b + 2)) fuel 2

-- `for (s = 0; s < sectors_per_cluster; s++) ata_write_sector(start_sector + s, zero)`
unfoldable pub clear_loop : ℕ → ℕ → Disk → Disk
clear_loop zero lba d = d
clear_loop (suc left) lba d = clear_loop left (u32 (lba + 1)) (ata_write_sector d lba (λ i. 0))

unfoldable pub fat16_clear_cluster : Bpb → Disk → ℕ → Disk
unfolding clear_loop ata_write_sector fat16_cluster_to_sector
fat16_clear_cluster b d cluster =
    clear_loop b.sectors_per_cluster (fat16_cluster_to_sector b cluster) d

unfoldable pub fat16_free_cluster_chain : ℕ → Bpb → Disk → ℕ → Run Disk
fat16_free_cluster_chain zero b d cluster = out_of_fuel
fat16_free_cluster_chain (suc fuel) b d cluster =
    let next = fat16_get_fat_entry b d cluster in
    let rest = fat16_free_cluster_chain fuel b (fat16_set_fat_entry b d cluster 0x0000) next in
    if leb 2 cluster && ltb cluster 0xFFF8 then rest else done d
