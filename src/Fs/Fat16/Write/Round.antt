-- ===== src/Fs/Fat16/Write/Round.antt =====
-- One round of `write_chain`: a new cluster is linked to the one before and filled.
use astra_os.Base.{
  ℕ, zero, suc, ◌+◌, ◌*◌, ◌/◌, ◌%◌, ◌^◌, ◌≤◌, ◌<◌, ◌≡◌, ◌∙◌, ◌⊎◌, refl, ap, inl, inr, arith, true,
  false, ◌==◌, ◌!=◌, if◌then◌else◌, if_ind, u16, u32, List,
}
use astra_os.Fs.Fat16.Layout.{
  Disk, Sector, Bpb, u16_at, ata_read_sector, ata_write_sector, fat16_cluster_to_sector,
}
use astra_os.Fs.Fat16.Table.{
  fat16_get_fat_entry, fat16_set_fat_entry, clear_loop, fat16_clear_cluster,
}
use astra_os.Fs.Fat16.Table.Entry.{InTable, read-write_ne, get-set_fat_entry, read-set_fat_entry}
use astra_os.Fs.Fat16.Volume.{IsVolume, IsCluster, IsOutside, cluster-behind, cluster-reach}
use astra_os.Fs.Fat16.Write.{write_sectors}
use astra_os.Fs.Fat16.Write.Reread.{write_sectors-outside}

clear_loop-outside :
    (left lba l : ℕ) (d : Disk)
    → (l < lba) ⊎ (lba + left ≤ l)
    → l < 2 ^ 28
    → lba + left ≤ 2 ^ 28
    → ata_read_sector (clear_loop left lba d) l ≡ ata_read_sector d l
unfolding clear_loop
clear_loop-outside zero lba l d out low small = refl
clear_loop-outside (suc left) lba l d out low small =
    let next : u32 (lba + 1) ≡ lba + 1 = omega arith in
    rw next (
      clear_loop-outside left (lba + 1) l (ata_write_sector d lba (λ i. 0)) (ground arith) low
        (omega arith)
      ∙ read-write_ne d lba (λ i. 0) l (ground arith))

-- the entry of a cluster depends on the sectors of the table alone
get_fat_entry-same :
    (b : Bpb) (d d' : Disk) (k : ℕ)
    → InTable b k
    → ((l : ℕ)
        → l < b.reserved_sectors + b.sectors_per_fat
        → ata_read_sector d' l ≡ ata_read_sector d l)
    → fat16_get_fat_entry b d' k ≡ fat16_get_fat_entry b d k
unfolding fat16_get_fat_entry
get_fat_entry-same b d d' k t same =
    ap (λ (buf : Sector). u16_at buf (k * 2 % 512))
      (same (b.reserved_sectors + k * 2 / 512) (omega (arith, t.in_table)))

-- the disk after the round, and the content that is left
abbrev pub filled_round : Bpb → ℕ → ℕ → Disk → List ℕ → Disk × List ℕ
filled_round b prev new allocated content =
    let cleared = fat16_clear_cluster b allocated new in
    let linked = if prev != 0 then fat16_set_fat_entry b cleared prev new else cleared in
    let ended = fat16_set_fat_entry b linked new 0xFFFF in
    write_sectors b.sectors_per_cluster (fat16_cluster_to_sector b new) ended content

module _ (b : Bpb) (v : IsVolume b) (new : ℕ) (i : IsCluster b new) where
  in_table : (k : ℕ) → IsCluster b k → InTable b k
  in_table k ik = v.tables k ik.below

  clear_cluster-outside :
      (d : Disk) (l : ℕ)
      → IsOutside b new l
      → l < 2 ^ 28
      → ata_read_sector (fat16_clear_cluster b d new) l ≡ ata_read_sector d l
  unfolding fat16_clear_cluster
  clear_cluster-outside d l out low =
      clear_loop-outside b.sectors_per_cluster (fat16_cluster_to_sector b new) l d out low
        (cluster-reach b v new i)

  clear_cluster-entry :
      (d : Disk) (k : ℕ)
      → IsCluster b k
      → fat16_get_fat_entry b (fat16_clear_cluster b d new) k ≡ fat16_get_fat_entry b d k
  clear_cluster-entry d k ik =
      get_fat_entry-same b d (fat16_clear_cluster b d new) k (in_table k ik) λ l lt.
        clear_cluster-outside d l (inl (omega (arith, cluster-behind b v new i)))
          (omega (arith, cluster-behind b v new i, cluster-reach b v new i))

  write_sectors-entry :
      (d : Disk) (content : List ℕ) (k : ℕ)
      → IsCluster b k
      → fat16_get_fat_entry b
          (write_sectors b.sectors_per_cluster (fat16_cluster_to_sector b new) d content).0
          k
        ≡ fat16_get_fat_entry b d k
  write_sectors-entry d content k ik = get_fat_entry-same b d _ k (in_table k ik) λ l lt.
      write_sectors-outside b.sectors_per_cluster (fat16_cluster_to_sector b new) l d content
        (inl (omega (arith, cluster-behind b v new i)))
        (omega (arith, cluster-behind b v new i, cluster-reach b v new i)) (cluster-reach b v new i)

  linked-entry :
      (prev : ℕ) (d : Disk) (k : ℕ)
      → (prev ≡ 0) ⊎ IsCluster b prev
      → IsCluster b k
      → fat16_get_fat_entry b (if prev != 0 then fat16_set_fat_entry b d prev new else d) k
        ≡ (if k == prev then new else fat16_get_fat_entry b d k)
  linked-entry prev d k (inl first) ik =
      let other : (k == 0) ≡ false = ground (arith, ik.above) in rw (first, other) refl
  linked-entry prev d k (inr ip) ik =
      let some_prev : (prev != 0) ≡ true = ground (arith, ip.above) in
      let fits : u16 new ≡ new = omega (arith, i.below, v.few) in
      rw some_prev (
        get-set_fat_entry b d prev new k (in_table prev ip) (in_table k ik)
        ∙ ap (λ n. if k == prev then n else fat16_get_fat_entry b d k) fits)

  -- the entries of the table after the round
  pub entry-filled_round :
      (prev : ℕ) (d : Disk) (content : List ℕ) (k : ℕ)
      → (prev ≡ 0) ⊎ IsCluster b prev
      → IsCluster b k
      → fat16_get_fat_entry b (filled_round b prev new d content).0 k
        ≡ (if k == new then 0xFFFF else if k == prev then new else fat16_get_fat_entry b d k)
  entry-filled_round prev d content k p ik =
      let cleared = fat16_clear_cluster b d new in
      let linked = if prev != 0 then fat16_set_fat_entry b cleared prev new else cleared in
      write_sectors-entry (fat16_set_fat_entry b linked new 0xFFFF) content k ik
      ∙ get-set_fat_entry b linked new 0xFFFF k (in_table new i) (in_table k ik)
      ∙ ap (λ n. if k == new then 0xFFFF else n)
          (linked-entry prev cleared k p ik
            ∙ ap (λ n. if k == prev then new else n) (clear_cluster-entry d k ik))

  linked-read :
      (prev : ℕ) (d : Disk) (l : ℕ)
      → (prev ≡ 0) ⊎ IsCluster b prev
      → b.reserved_sectors + b.sectors_per_fat + b.sectors_per_fat ≤ l
      → l < 2 ^ 28
      → ata_read_sector (if prev != 0 then fat16_set_fat_entry b d prev new else d) l
        ≡ ata_read_sector d l
  linked-read prev d l (inl first) behind low = rw first refl
  linked-read prev d l (inr ip) behind low =
      if_ind (λ c (d' : Disk). ata_read_sector d' l ≡ ata_read_sector d l) (prev != 0)
        (λ _. read-set_fat_entry b d prev new l (in_table prev ip) low behind) (λ _. refl)

  -- every sector behind the table and outside of the new cluster is kept
  pub read-filled_round :
      (prev : ℕ) (d : Disk) (content : List ℕ) (l : ℕ)
      → (prev ≡ 0) ⊎ IsCluster b prev
      → IsOutside b new l
      → b.reserved_sectors + b.sectors_per_fat + b.sectors_per_fat ≤ l
      → l < 2 ^ 28
      → ata_read_sector (filled_round b prev new d content).0 l ≡ ata_read_sector d l
  read-filled_round prev d content l p out behind low =
      let cleared = fat16_clear_cluster b d new in
      let linked = if prev != 0 then fat16_set_fat_entry b cleared prev new else cleared in
      write_sectors-outside b.sectors_per_cluster (fat16_cluster_to_sector b new) l
        (fat16_set_fat_entry b linked new 0xFFFF) content out low (cluster-reach b v new i)
      ∙ read-set_fat_entry b linked new 0xFFFF l (in_table new i) low behind
      ∙ linked-read prev cleared l p behind low
      ∙ clear_cluster-outside d l out low
