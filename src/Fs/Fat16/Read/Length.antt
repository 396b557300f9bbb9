-- ===== src/Fs/Fat16/Read/Length.antt =====
-- How many bytes `fat16_read_at` stores.
use astra_os.Base.{
  ℕ, zero, suc, ◌+◌, ◌-◌, ◌*◌, ◌≡◌, ◌≤◌, refl, inl, inr, arith, ◌&&◌, ◌==◌, leb, ltb, if◌then◌else◌,
  Bool-cases, List, [], ◌∷◌, ◌++◌, length, length-append, u32, Option, none, some, Run, done, fault,
  out_of_fuel, ◌>>=◌, if_some, Ends, Ends-bind, Ends-any, Ends-if, Ends-done,
}
use astra_os.Fs.Fat16.Layout.{
  Disk, Sector, Bpb, Fs, Entry, file_size, first_cluster_low, ata_read_sector,
  fat16_cluster_to_sector,
}
use astra_os.Fs.Fat16.Table.{fat16_get_fat_entry}
use astra_os.Fs.Fat16.Path.{slash, str_eq, fat16_normalize_path}
use astra_os.Fs.Fat16.Read.{
  bytes_from, min_ℕ, copy_sectors, copy_chain, skip_clusters, read_entry_at, fat16_read_at,
  entry_of_path, file_only,
}

length-bytes_from : (buf : Sector) (i count : ℕ) → length (bytes_from buf i count) ≡ count
unfolding bytes_from
length-bytes_from buf i zero = refl
length-bytes_from buf i (suc count) = omega (arith, length-bytes_from buf (i + 1) count)

-- what is copied and what is left make up what was to be copied
length-copy_sectors :
    (left lba : ℕ) (d : Disk) (skip remaining : ℕ)
    → let r = copy_sectors left lba d skip remaining in length r.0 + r.1 ≡ remaining
unfolding copy_sectors
length-copy_sectors zero lba d skip remaining = omega arith
length-copy_sectors (suc left) lba d skip remaining =
    let start = if leb 512 skip then 512 else skip in
    let count = min_ℕ (512 - start) remaining in
    let more = copy_sectors left (u32 (lba + 1)) d (skip - start) (remaining - count) in
    let here = bytes_from (ata_read_sector d lba) start count in
    let ih = length-copy_sectors left (u32 (lba + 1)) d (skip - start) (remaining - count) in
    elim (Bool-cases (remaining == 0)) [
      | inl nothing ↦ rw nothing (ground arith)
      | inr some_bytes ↦ rw some_bytes (
          sum here more.0 count more.1 (length-bytes_from (ata_read_sector d lba) start count) ih
            (count_le (512 - start)))
    ]
  where
    count_le : (room : ℕ) → min_ℕ room remaining ≤ remaining
    count_le room = ground arith

    sum :
        (here more : List ℕ) (count left : ℕ)
        → length here ≡ count
        → length more + left ≡ remaining - count
        → count ≤ remaining
        → length (here ++ more) + left ≡ remaining
    sum here more count left p q le = omega (arith, length-append here more)

copy_chain-Ends :
    (fuel : ℕ) (b : Bpb) (d : Disk) (cluster skip remaining : ℕ)
    → Ends (λ bytes. length bytes ≤ remaining) (copy_chain fuel b d cluster skip remaining)
unfolding copy_chain
copy_chain-Ends zero b d cluster skip remaining = tt
copy_chain-Ends (suc fuel) b d cluster skip remaining =
    let here =
      copy_sectors b.sectors_per_cluster (fat16_cluster_to_sector b cluster) d skip remaining in
    let all =
      length-copy_sectors b.sectors_per_cluster (fat16_cluster_to_sector b cluster) d skip
        remaining in
    let rest =
      copy_chain fuel b d (fat16_get_fat_entry b d cluster) (skip - b.sectors_per_cluster * 512)
        here.1 in
    let Short = λ (bytes : List ℕ). length bytes ≤ remaining in
    Ends-if Short (ltb cluster 0xFFF8 && ltb 0 remaining) _ _
      (λ _.
        Ends-if Short (here.1 == 0) _ _ (λ _. omega (arith, all))
          (λ _.
            Ends-bind (λ bytes. length bytes ≤ here.1) Short rest _
              (copy_chain-Ends fuel b d (fat16_get_fat_entry b d cluster)
                (skip - b.sectors_per_cluster * 512) here.1)
              λ more e k. omega (arith, all, length-append here.0 more)))
      (λ _. omega arith)

abbrev ShortAll : ℕ → Option (List ℕ) → Type 0
ShortAll n none = Unit
ShortAll n (some bytes) = length bytes ≤ n

read_entry_at-Ends :
    (fuel : ℕ) (b : Bpb) (d : Disk) (e : Entry) (offset len : ℕ)
    → Ends (ShortAll (min_ℕ len (file_size e - offset))) (read_entry_at fuel b d e offset len)
unfolding read_entry_at
read_entry_at-Ends fuel b d e offset len =
    let remaining = min_ℕ len (file_size e - offset) in
    let skip = skip_clusters fuel b d (first_cluster_low e) offset in
    Ends-if (ShortAll remaining) (leb (file_size e) offset) _ _ (λ _. omega arith)
      λ _.
        Ends-if (ShortAll remaining) (remaining == 0) _ _ (λ _. omega arith)
          λ _.
            Ends-if (ShortAll remaining) (ltb (first_cluster_low e) 2) _ _ (λ _. tt)
              λ _.
                Ends-bind (λ _. Unit) (ShortAll remaining) skip _ (Ends-any skip) λ o _ _. copied o
  where
    copied :
        (o : Option (ℕ × ℕ))
        → Ends (ShortAll (min_ℕ len (file_size e - offset))) (
            if_some o λ (cluster, skip).
              copy_chain fuel b d cluster skip (min_ℕ len (file_size e - offset)) >>= λ bytes.
              done (some bytes))
    copied none = tt
    copied (some (cluster, skip)) =
        let remaining = min_ℕ len (file_size e - offset) in
        Ends-bind (λ bytes. length bytes ≤ remaining) (ShortAll remaining)
          (copy_chain fuel b d cluster skip remaining) _
          (copy_chain-Ends fuel b d cluster skip remaining) λ bytes _ k. k

read_at-Ends :
    (fuel : ℕ) (s : Fs) (path : List ℕ) (offset len : ℕ)
    → Ends (ShortAll len) (fat16_read_at fuel s path offset len)
unfolding fat16_read_at
read_at-Ends fuel s [] offset len = tt
read_at-Ends fuel s (c ∷ path) offset len =
    let normal = fat16_normalize_path s.current_path (c ∷ path) in
    Ends-bind (λ _. Unit) (ShortAll len) normal _ (Ends-any normal)
      λ abs _ _.
        let entry = entry_of_path fuel s abs in
        Ends-if (ShortAll len) (str_eq abs (slash ∷ [])) _ _ (λ _. tt)
          λ _.
            Ends-bind (λ _. Unit) (ShortAll len) entry _ (Ends-any entry)
              λ o _ _. file (file_only o)
  where
    shorter :
        (a n : ℕ) (r : Run (Option (List ℕ))) → Ends (ShortAll (min_ℕ n a)) r → Ends (ShortAll n) r
    shorter a n (done none) k = tt
    shorter a n (done (some bytes)) k = ground arith
    shorter a n fault k = tt
    shorter a n out_of_fuel k = tt

    file :
        (o : Option Entry)
        → Ends (ShortAll len) (if_some o λ e. read_entry_at fuel s.bpb s.disk e offset len)
    file none = tt
    file (some e) =
        shorter (file_size e - offset) len (read_entry_at fuel s.bpb s.disk e offset len)
          (read_entry_at-Ends fuel s.bpb s.disk e offset len)

-- `fat16_read_at` never stores more bytes than were asked for, whatever the disk holds.
pub length-read_at :
    (fuel : ℕ) (s : Fs) (path : List ℕ) (offset len : ℕ) (bytes : List ℕ)
    → fat16_read_at fuel s path offset len ≡ done (some bytes)
    → length bytes ≤ len
length-read_at fuel s path offset len bytes h =
    Ends-done (ShortAll len) (fat16_read_at fuel s path offset len) (some bytes)
      (read_at-Ends fuel s path offset len) h
