-- ===== src/Fs/Fat16/Volume.antt =====
-- Where the clusters of a volume lie on its disk.
use astra_os.Base.{ℕ, ◌+◌, ◌-◌, ◌*◌, ◌^◌, ◌≤◌, ◌<◌, ◌≡◌, ◌≢◌, ◌∙◌, ap, inl, inr, ◌⊎◌, arith}
use native.Mathlib.Nat.{mul-le-mul_right}
use astra_os.Fs.Fat16.Layout.{Bpb, fat16_first_data_sector, fat16_cluster_to_sector}
use astra_os.Fs.Fat16.Table.{total_clusters}
use astra_os.Fs.Fat16.Table.Entry.{InTable}

-- The clusters have entries in the table and lie behind its copies, within the sectors that the
-- drive addresses.
pub record IsVolume (b : Bpb) : Type 0 where
  pub few : total_clusters b ≤ 65525
  pub filled : 0 < b.sectors_per_cluster
  pub tables : (k : ℕ) → k < total_clusters b + 2 → InTable b k
  pub behind :
      b.reserved_sectors + b.sectors_per_fat + b.sectors_per_fat ≤ fat16_first_data_sector b
  pub reach : fat16_first_data_sector b + total_clusters b * b.sectors_per_cluster ≤ 2 ^ 28

-- a cluster of the volume
pub record IsCluster (b : Bpb) (c : ℕ) : Type 0 where
  pub above : 2 ≤ c
  pub below : c < total_clusters b + 2

-- sector `l` is none of cluster `c`
abbrev pub IsOutside : Bpb → ℕ → ℕ → Type 0
IsOutside b c l =
    (l < fat16_cluster_to_sector b c) ⊎ (fat16_cluster_to_sector b c + b.sectors_per_cluster ≤ l)

module _ (b : Bpb) (v : IsVolume b) where
  abbrev start : ℕ → ℕ
  start c = fat16_first_data_sector b + (c - 2) * b.sectors_per_cluster

  start_step : (c k : ℕ) → 2 ≤ c → c < k → start c + b.sectors_per_cluster ≤ start k
  start_step c k two lt =
      let le : (c - 2 + 1) * b.sectors_per_cluster ≤ (k - 2) * b.sectors_per_cluster =
        mul-le-mul_right b.sectors_per_cluster (omega arith) in
      omega (arith, le)

  start_reach : (c : ℕ) → IsCluster b c → start c + b.sectors_per_cluster ≤ 2 ^ 28
  start_reach c i =
      let le : (c - 2 + 1) * b.sectors_per_cluster ≤ total_clusters b * b.sectors_per_cluster =
        mul-le-mul_right b.sectors_per_cluster (omega (arith, i.above, i.below)) in
      omega (arith, le, v.reach)

  cluster_to_sector_lem : (c : ℕ) → IsCluster b c → fat16_cluster_to_sector b c ≡ start c
  unfolding fat16_cluster_to_sector
  cluster_to_sector_lem c i =
      let shift : (c + 2 ^ 32 - 2) * b.sectors_per_cluster
          ≡ (c - 2) * b.sectors_per_cluster + 2 ^ 32 * b.sectors_per_cluster =
        ap (◌* b.sectors_per_cluster) (omega (arith, i.above)) ∙ add_mul (c - 2) in
      omega (arith, shift, start_reach c i, v.filled)
    where
      add_mul :
          (n : ℕ)
          → (n + 2 ^ 32) * b.sectors_per_cluster
            ≡ n * b.sectors_per_cluster + 2 ^ 32 * b.sectors_per_cluster
      add_mul n = omega arith

  -- a cluster lies behind the table and within reach
  pub cluster-behind :
      (c : ℕ)
      → IsCluster b c
      → b.reserved_sectors + b.sectors_per_fat + b.sectors_per_fat ≤ fat16_cluster_to_sector b c
  cluster-behind c i = rw (cluster_to_sector_lem c i) (omega (arith, v.behind))

  pub cluster-reach :
      (c : ℕ) → IsCluster b c → fat16_cluster_to_sector b c + b.sectors_per_cluster ≤ 2 ^ 28
  cluster-reach c i = rw (cluster_to_sector_lem c i) (start_reach c i)

  -- the sectors of two clusters are not the same
  pub clusters-apart :
      (c k j : ℕ)
      → IsCluster b c
      → IsCluster b k
      → c ≢ k
      → j < b.sectors_per_cluster
      → IsOutside b c (fat16_cluster_to_sector b k + j)
  clusters-apart c k j ic ik ne lt =
      rw (cluster_to_sector_lem c ic, cluster_to_sector_lem k ik)
        (elim (either c k ne) [
          | inl less ↦ inr (omega (arith, start_step c k ic.above less))
          | inr more ↦ inl (omega (arith, start_step k c ik.above more))
        ])
    where
      either : (c k : ℕ) → c ≢ k → (c < k) ⊎ (k < c)
      either c k ne = ground arith
