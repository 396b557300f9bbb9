-- ===== src/Fs/Fat16/Dir/Walk.antt =====
-- What every scan of a directory keeps, from what its body keeps at one entry.
use astra_os.Base.{
  ℕ, zero, suc, ◌+◌, ◌*◌, ◌<◌, ◌≤◌, arith, ◌==◌, ltb, u32, Run, done, Ends, Ends-if,
}
use astra_os.Fs.Fat16.Layout.{
  Disk, Bpb, entry_at, ata_read_sector, fat16_cluster_to_sector, fat16_root_start_sector,
  fat16_root_dir_sectors,
}
use astra_os.Fs.Fat16.Table.{fat16_get_fat_entry}
use astra_os.Fs.Fat16.Dir.{Flow, next, ret, Visit, walk_entries, walk_sectors, walk_chain, walk_dir}

-- `P` of what is gathered, or `Q` of the result
abbrev pub Keeps : {A R : Type 0} → (A → Type 0) → (R → Type 0) → Flow A R → Type 0
Keeps P Q (next a) = P a
Keeps P Q (ret r) = Q r

module _ {A R : Type 0} (visit : Visit A R) (P : A → Type 0) (Q : R → Type 0) (d : Disk) where
  and_then :
      (flow : Flow A R) (f : A → Flow A R)
      → Keeps P Q flow
      → ((a : A) → P a → Keeps P Q (f a))
      → Keeps P Q (elim flow [ next a ↦ f a | ret r ↦ ret r ])
  and_then (next a) f k more = more a k
  and_then (ret r) f k more = k

  and_run :
      (flow : Flow A R) (f : A → Run (Flow A R))
      → Keeps P Q flow
      → ((a : A) → P a → Ends (Keeps P Q) (f a))
      → Ends
          (Keeps P Q)
          (elim flow as (λ _. Run (Flow A R)) [ next a ↦ f a | ret r ↦ done (ret r) ])
  and_run (next a) f k more = more a k
  and_run (ret r) f k more = k

  -- the body keeps them at each entry of a sector of the disk
  abbrev pub AtEntries : Type 0
  AtEntries =
      (lba off : ℕ) (a : A)
      → off < 512
      → P a
      → Keeps P Q (visit lba off (entry_at (ata_read_sector d lba) off) a)

  module _ (body : AtEntries) where
    walk_entries-Keeps :
        (left lba off : ℕ) (a : A)
        → off + 32 * left ≤ 512
        → P a
        → Keeps P Q (walk_entries visit left lba off (ata_read_sector d lba) a)
    unfolding walk_entries
    walk_entries-Keeps zero lba off a room p = p
    walk_entries-Keeps (suc left) lba off a room p =
        and_then (visit lba off (entry_at (ata_read_sector d lba) off) a)
          (walk_entries visit left lba (off + 32) (ata_read_sector d lba))
          (body lba off a (omega arith) p)
          (λ a' k. walk_entries-Keeps left lba (off + 32) a' (omega arith) k)

    walk_sectors-Keeps : (left lba : ℕ) (a : A) → P a → Keeps P Q (walk_sectors visit left lba d a)
    unfolding walk_sectors
    walk_sectors-Keeps zero lba a p = p
    walk_sectors-Keeps (suc left) lba a p =
        and_then (walk_entries visit 16 lba 0 (ata_read_sector d lba) a)
          (walk_sectors visit left (u32 (lba + 1)) d)
          (walk_entries-Keeps 16 lba 0 a (omega arith) p)
          (λ a' k. walk_sectors-Keeps left (u32 (lba + 1)) a' k)

    walk_chain-Keeps :
        (fuel : ℕ) (b : Bpb) (cluster : ℕ) (a : A)
        → P a
        → Ends (Keeps P Q) (walk_chain visit fuel b d cluster a)
    unfolding walk_chain
    walk_chain-Keeps zero b cluster a p = tt
    walk_chain-Keeps (suc fuel) b cluster a p =
        Ends-if (Keeps P Q) (ltb cluster 0xFFF8) _ _
          (λ _.
            and_run
              (walk_sectors visit b.sectors_per_cluster (fat16_cluster_to_sector b cluster) d a)
              (walk_chain visit fuel b d (fat16_get_fat_entry b d cluster))
              (walk_sectors-Keeps b.sectors_per_cluster (fat16_cluster_to_sector b cluster) a p)
              (λ a' k. walk_chain-Keeps fuel b (fat16_get_fat_entry b d cluster) a' k))
          (λ _. p)

    pub walk_dir-Keeps :
        (fuel : ℕ) (b : Bpb) (dir_cluster : ℕ) (a : A)
        → P a
        → Ends (Keeps P Q) (walk_dir visit fuel b d dir_cluster a)
    unfolding walk_dir
    walk_dir-Keeps fuel b dir_cluster a p =
        Ends-if (Keeps P Q) (dir_cluster == 0) _ _
          (λ _. walk_sectors-Keeps (fat16_root_dir_sectors b) (fat16_root_start_sector b) a p)
          (λ _. walk_chain-Keeps fuel b dir_cluster a p)
