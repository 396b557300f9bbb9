-- ===== src/Fs/Fat16/Make.antt =====
-- fat16.c: `fat16_touch`, `fat16_mkdir` and `fat16_mkdir_p`.
use astra_os.Base.{
  ℕ, ◌==◌, ltb, if◌then◌else◌, List, [], ◌∷◌, ◌++◌, length, replicate, Option, none, some, Run,
  done, ◌>>=◌,
}
use astra_os.Fs.Fat16.Layout.{
  Disk, Sector, Fs, is_dir, first_cluster_low, ata_read_sector, ata_write_sector,
  fat16_cluster_to_sector,
}
use astra_os.Fs.Fat16.Table.{fat16_alloc_cluster, fat16_clear_cluster}
use astra_os.Fs.Fat16.Name.{fat16_format_filename}
use astra_os.Fs.Fat16.Path.{slash, fat16_normalize_path}
use astra_os.Fs.Fat16.Dir.{fat16_find_entry, fat16_find_free_dir_entry}
use astra_os.Fs.Fat16.Entries.{
  Status, one, Result, fail, or_fail, zero_entry, modify, fill_entry, new_file_entry,
}

unfoldable pub fat16_touch : ℕ → Fs → List ℕ → Result
unfolding new_file_entry fat16_find_entry fat16_find_free_dir_entry
fat16_touch fuel s [] = fail s.disk
fat16_touch fuel s (c ∷ name) = do
  existing ← fat16_find_entry fuel s.bpb s.disk s.current_dir_cluster (c ∷ name)
  let create = fat16_find_free_dir_entry fuel s.bpb s.disk s.current_dir_cluster >>= λ o.
      or_fail s.disk o λ (lba, off). done (one, new_file_entry s.disk lba off (c ∷ name))
  elim existing [ some e ↦ fail s.disk | none ↦ create ]

-- the entries "." and ".." that a new directory begins with
unfoldable pub dot_entries : ℕ → ℕ → Sector → Sector
unfolding fill_entry zero_entry
dot_entries new parent buf =
    fill_entry (b'.' ∷ b'.' ∷ replicate 9 b' ') 0x10 parent 0 32
      (fill_entry (b'.' ∷ replicate 10 b' ') 0x10 new 0 0 (zero_entry (zero_entry buf 0) 32))

-- The entry in the parent: its other bytes are not cleared first.
unfoldable pub link_dir : ℕ → Fs → Disk → ℕ → List ℕ → Result
unfolding fill_entry fat16_find_free_dir_entry fat16_format_filename ata_read_sector
    ata_write_sector
link_dir fuel s d new name = fat16_find_free_dir_entry fuel s.bpb d s.current_dir_cluster >>= λ o.
    or_fail d o λ (lba, off).
      done (one, modify d lba (fill_entry (fat16_format_filename name) 0x10 new 0 off))

unfoldable pub fat16_mkdir : ℕ → Fs → List ℕ → Result
unfolding link_dir dot_entries fat16_find_entry fat16_alloc_cluster fat16_clear_cluster
    fat16_cluster_to_sector
fat16_mkdir fuel s [] = fail s.disk
fat16_mkdir fuel s (c ∷ name) = do
  existing ← fat16_find_entry fuel s.bpb s.disk s.current_dir_cluster (c ∷ name)
  let create = fat16_alloc_cluster fuel s.bpb s.disk >>= λ (new, d).
      let cleared = fat16_clear_cluster s.bpb d new in
      let lba = fat16_cluster_to_sector s.bpb new in
      let dotted = modify cleared lba (dot_entries new s.current_dir_cluster) in
      if new == 0 then fail d else link_dir fuel s dotted new (c ∷ name)
  elim existing [ some e ↦ fail s.disk | none ↦ create ]

-- the outcome of `fat16_mkdir_p` at one part: the cluster to go on in, or the failure
abbrev pub Descent : Type 0
Descent = Run (Option ℕ × Disk)

abbrev pub created : ℕ → Fs → ℕ → List ℕ → Status × Disk → Descent
created fuel s cluster part (one, d) = fat16_find_entry fuel s.bpb d cluster part >>= λ o. elim o [
  | none ↦ done (none, d)
  | some e ↦ done (some (first_cluster_low e), d)
]
created fuel s cluster part (_, d) = done (none, d)

unfoldable pub make_part : ℕ → Fs → Disk → List ℕ → ℕ → Descent
unfolding fat16_mkdir fat16_find_entry
make_part fuel s d [] cluster = done (some cluster, d)
make_part fuel s d (c ∷ part) cluster = do
  existing ← fat16_find_entry fuel s.bpb d cluster (c ∷ part)
  let here = record s { disk = d; current_dir_cluster = cluster }
  let make = fat16_mkdir fuel here (c ∷ part) >>= created fuel s cluster (c ∷ part)
  elim existing [
    | some e ↦ done (if is_dir e then some (first_cluster_low e) else none, d)
    | none ↦ make
  ]

unfoldable pub mkdir_loop : ℕ → Fs → List ℕ → List ℕ → ℕ → Disk → Result
unfolding make_part
mkdir_loop fuel s [] part cluster d =
    make_part fuel s d part cluster >>= λ (o, d'). or_fail d' o λ sub. done (one, d')
mkdir_loop fuel s (c ∷ rest) part cluster d =
    let down = make_part fuel s d part cluster >>= λ (o, d').
    or_fail d' o λ sub. mkdir_loop fuel s rest [] sub d' in
    let longer = if ltb (length part) 31 then part ++ c ∷ [] else part in
    let along = mkdir_loop fuel s rest longer cluster d in if c == slash then down else along

-- `abs + 1` passes over the leading slash
abbrev pub behind_slash : List ℕ → List ℕ
behind_slash [] = []
behind_slash (c ∷ r) = r

unfoldable pub fat16_mkdir_p : ℕ → Fs → List ℕ → Result
unfolding mkdir_loop fat16_normalize_path
fat16_mkdir_p fuel s [] = fail s.disk
fat16_mkdir_p fuel s (c ∷ path) = do
  abs ← fat16_normalize_path s.current_path (c ∷ path)
  mkdir_loop fuel s (behind_slash abs) [] 0 s.disk
