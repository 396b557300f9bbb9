-- ===== src/Fs/Fat16/Write/Chain.antt =====
-- What `write_chain` writes, as `copy_chain` reads it.
use astra_os.Base.{
  ℕ, zero, suc, ◌+◌, ◌-◌, ◌*◌, ◌^◌, ◌≤◌, ◌<◌, ◌≡◌, ◌≢◌, ◌∙◌, ◌⊎◌, refl, sym, ap, arith, true, false,
  ◌==◌, ltb, if◌then◌else◌, if_ind, ==→eq, ltb→lt, u32, List, [], ◌∷◌, length, take, drop, take-all,
  length-drop, append-take-drop, Option, none, some, Run, done,
}
use astra_os.Fs.Fat16.Layout.{Disk, Bpb, ata_read_sector, fat16_cluster_to_sector}
use astra_os.Fs.Fat16.Table.{total_clusters, fat16_get_fat_entry, fat16_alloc_cluster}
use astra_os.Fs.Fat16.Table.Alloc.{InUse}
use astra_os.Fs.Fat16.Read.{copy_sectors, copy_chain}
use astra_os.Fs.Fat16.Volume.{IsCluster}
use astra_os.Fs.Fat16.Write.{write_chain}
use astra_os.Fs.Fat16.Write.Round.{filled_round}

-- the copy depends on the sectors that it reads
pub copy_sectors-same :
    (left lba : ℕ) (d d' : Disk) (skip remaining : ℕ)
    → lba + left ≤ 2 ^ 28
    → ((j : ℕ) → j < left → ata_read_sector d' (lba + j) ≡ ata_read_sector d (lba + j))
    → copy_sectors left lba d' skip remaining ≡ copy_sectors left lba d skip remaining
unfolding copy_sectors
copy_sectors-same zero lba d d' skip remaining small same = refl
copy_sectors-same (suc left) lba d d' skip remaining small same =
    let next : u32 (lba + 1) ≡ lba + 1 = omega arith in
    let here : ata_read_sector d' lba ≡ ata_read_sector d lba =
      ap (ata_read_sector d') (omega arith)
      ∙ same 0 (omega arith)
      ∙ ap (ata_read_sector d) (omega arith) in
    let later : (s r : ℕ) → copy_sectors left (lba + 1) d' s r ≡ copy_sectors left (lba + 1) d s r =
      λ s r. copy_sectors-same left (lba + 1) d d' s r (omega arith) (λ j lt.
        ap (ata_read_sector d') (omega arith)
        ∙ same (suc j) (omega arith)
        ∙ ap (ata_read_sector d) (omega arith)) in
    rw (next, here, later _ _) refl

-- a cluster whose entry is not 0
abbrev pub IsUsed : Bpb → Disk → ℕ → Type 0
IsUsed b d k = IsCluster b k × (fat16_get_fat_entry b d k ≢ 0)

-- the clusters in use keep their entries, but for that of `prev`, and their bytes
pub record IsKept (b : Bpb) (prev : ℕ) (d d' : Disk) : Type 0 where
  pub entries :
      (k : ℕ) → IsUsed b d k → k ≢ prev → fat16_get_fat_entry b d' k ≡ fat16_get_fat_entry b d k
  pub bytes :
      (k j : ℕ)
      → IsUsed b d k
      → j < b.sectors_per_cluster
      → ata_read_sector d' (fat16_cluster_to_sector b k + j)
        ≡ ata_read_sector d (fat16_cluster_to_sector b k + j)

-- the content is read from cluster `c` on, if the fuel is more than its length
abbrev pub IsContent : Bpb → Disk → ℕ → List ℕ → Type 0
IsContent b d c content =
    (fuel : ℕ) → length content < fuel → copy_chain fuel b d c 0 (length content) ≡ done content

-- the start of a file, or the cluster behind which it goes on
abbrev pub IsPrev : Bpb → Disk → ℕ → ℕ → Type 0
IsPrev b d first prev = ((prev ≡ 0) × (first ≡ 0)) ⊎ (IsUsed b d prev × (first ≢ 0))

-- the outcome: no cluster is left, or the content can be read
pub data IsWritten (b : Bpb) (first prev : ℕ) (content : List ℕ) (r : Option ℕ) (d' : Disk)
    : Type 0 where
  no_room : r ≡ none → InUse b d' 2 (total_clusters b + 2) → IsWritten b first prev content r d'
  written :
      (c : ℕ)
      → r ≡ some (if first == 0 then c else first)
      → (IsCluster b prev → fat16_get_fat_entry b d' prev ≡ c)
      → IsContent b d' c content
      → IsWritten b first prev content r d'

pub IsKept-refl : (b : Bpb) (prev : ℕ) (d : Disk) → IsKept b prev d d
IsKept-refl b prev d = record { entries = λ k u ne. refl; bytes = λ k j u lt. refl }

pub copy_chain-nil : (b : Bpb) (d : Disk) (c : ℕ) → IsContent b d c []
unfolding copy_chain
copy_chain-nil b d c zero lt = absurd (omega arith)
copy_chain-nil b d c (suc fuel) lt = ground arith

pub write_chain_step :
    (rounds fuel : ℕ) (b : Bpb) (first prev new : ℕ) (d allocated : Disk) (x : ℕ) (xs : List ℕ)
    → fat16_alloc_cluster fuel b d ≡ done (new, allocated)
    → (new == 0) ≡ false
    → let w = filled_round b prev new allocated (x ∷ xs) in
      write_chain (suc rounds) fuel b first prev d (x ∷ xs)
      ≡ write_chain rounds fuel b (if first == 0 then new else first) new w.0 w.1
unfolding write_chain
write_chain_step rounds fuel b first prev new d allocated x xs e ne = rw (e, ne) refl

pub write_chain_full :
    (rounds fuel : ℕ) (b : Bpb) (first prev : ℕ) (d : Disk) (x : ℕ) (xs : List ℕ)
    → fat16_alloc_cluster fuel b d ≡ done (0, d)
    → write_chain (suc rounds) fuel b first prev d (x ∷ xs) ≡ done (none, d)
unfolding write_chain
write_chain_full rounds fuel b first prev d x xs e = rw e refl

-- the first cluster of a chain and the rest of it
pub copy_chain_step :
    (b : Bpb) (d : Disk) (c next : ℕ) (content : List ℕ)
    → ltb c 0xFFF8 ≡ true
    → ltb 0 (length content) ≡ true
    → copy_sectors b.sectors_per_cluster (fat16_cluster_to_sector b c) d 0 (length content)
      ≡ (take (b.sectors_per_cluster * 512) content, length content - b.sectors_per_cluster * 512)
    → fat16_get_fat_entry b d c ≡ next
    → 0 < b.sectors_per_cluster
    → IsContent b d next (drop (b.sectors_per_cluster * 512) content)
    → IsContent b d c content
unfolding copy_chain
copy_chain_step b d c next content within pos here link filled rest zero lt = absurd (omega arith)
copy_chain_step b d c next content within pos here link filled rest (suc fuel) lt =
    let size = b.sectors_per_cluster * 512 in
    let no_skip : 0 - size ≡ 0 = omega arith in
    let left : length content - size ≡ length (drop size content) =
      sym (length-drop size content) in
    let shorter : length (drop size content) < fuel =
      omega (arith, length-drop size content, ltb→lt 0 (length content) pos) in
    rw (within, pos, here, link, no_skip)
      (if_ind (λ t (r : Run (List ℕ)). r ≡ done content) (length content - size == 0)
        (λ z. ap done (take-all size content (omega (arith, ==→eq (length content - size) 0 z))))
        (λ _. rw (left, rest fuel shorter) (ap done (append-take-drop size content))))
