-- ===== src/Tests/FatTable.antt =====
-- src/fs/fat16.c: the file allocation table of a small disk.
use astra_os.Base.{ℕ, ◌≡◌, refl, arith, ◌==◌, if◌then◌else◌, [], ◌∷◌, done}
use astra_os.Fs.Fat16.Layout.{
  fat16_root_start_sector, Disk, Bpb, ata_read_sector, fat16_root_dir_sectors,
}
use astra_os.Fs.Fat16.Table.{
  fat16_get_fat_entry, fat16_set_fat_entry, fat16_alloc_cluster, fat16_free_cluster_chain,
  total_clusters,
}
use astra_os.Fs.Fat16.Table.Entry.{
  InTable, get-set_fat_entry, mirror_entry, mirror-set_fat_entry, read_root-set_fat_entry,
}
use astra_os.Fs.Fat16.Table.Alloc.{IsAllocated, alloc_cluster_lem}
use astra_os.Fs.Fat16.Table.Chain.{Chain, stop, link, IsFreed, free-Chain-IsFreed}

-- 16 MB: 4 sectors a cluster, 2 tables of 32 sectors
abbrev pub geometry : Bpb
geometry = record {
  bytes_per_sector = 512;
  sectors_per_cluster = 4;
  reserved_sectors = 4;
  num_fats = 2;
  root_entries = 512;
  total_sectors_16 = 32000;
  sectors_per_fat = 32;
  total_sectors_32 = 0;
}

-- its first table links cluster 5 to 6, which ends the chain
abbrev linked : Disk
linked lba i =
    if lba == 4
    then (if i == 10 then 6 else if i == 12 then 255 else if i == 13 then 255 else 0)
    else 0

five-InTable : InTable geometry 5
five-InTable = record { in_table = omega arith; in_reach = omega arith }

six-InTable : InTable geometry 6
six-InTable = record { in_table = omega arith; in_reach = omega arith }

get-set_fat_entry_example :
    fat16_get_fat_entry geometry (fat16_set_fat_entry geometry linked 5 70000) 5 ≡ 4464
get-set_fat_entry_example = get-set_fat_entry geometry linked 5 70000 5 five-InTable five-InTable

mirrored_five : mirror_entry geometry (fat16_set_fat_entry geometry linked 5 7) 5 ≡ 7
mirrored_five = mirror-set_fat_entry geometry linked 5 7 5 five-InTable five-InTable

read_root-set_fat_entry_example :
    ata_read_sector (fat16_set_fat_entry geometry linked 5 7) 68 ≡ ata_read_sector linked 68
unfolding fat16_root_start_sector
read_root-set_fat_entry_example =
    read_root-set_fat_entry geometry linked 5 7 68 five-InTable (omega arith) (omega arith)
      (omega arith)

-- the same with one table
abbrev single : Bpb
single = record geometry { num_fats = 1 }

clusters : total_clusters geometry ≡ 7975
unfolding total_clusters fat16_root_dir_sectors
clusters = refl

alloc_cluster_lem_example :
    (new : ℕ) × (d' : Disk) × (fat16_alloc_cluster 8000 geometry linked ≡ done (new, d'))
    × IsAllocated geometry linked new d'
alloc_cluster_lem_example =
    alloc_cluster_lem 8000 geometry linked (omega (arith, clusters)) (omega (arith, clusters))
      (λ k h. record { in_table = omega (arith, clusters); in_reach = omega arith })

linked-Chain : Chain (fat16_get_fat_entry geometry linked) 5 (5 ∷ 6 ∷ [])
unfolding fat16_get_fat_entry ata_read_sector
linked-Chain = link refl (link refl (stop refl))

free-Chain-IsFreed_example :
    (d' : Disk) × (fat16_free_cluster_chain 3 geometry linked 5 ≡ done d')
    × IsFreed geometry linked (5 ∷ 6 ∷ []) d'
free-Chain-IsFreed_example =
    free-Chain-IsFreed geometry 3 linked linked-Chain (refl, (refl, tt))
      (five-InTable, (six-InTable, tt)) (omega arith)
