-- ===== src/Fs/Fat16/Dir.antt =====
-- fat16.c: walks over directories, and the searches that are such walks.
pub mod Walk
pub mod Find
use astra_os.Base.{
  ℕ, zero, suc, ◌+◌, Bool, true, false, ◌&&◌, ◌||◌, ◌==◌, ltb, if◌then◌else◌, u32, List, [], ◌∷◌,
  ◌++◌, length, Option, none, some, Run, done, out_of_fuel, ◌>>=◌, if_some,
}
use mathlib.Core.Option
use astra_os.Fs.Fat16.Layout.{
  Disk, Sector, Bpb, Entry, entry_at, attr, is_dir, first_cluster_low, ata_read_sector,
  fat16_root_start_sector, fat16_root_dir_sectors, fat16_cluster_to_sector,
}
use astra_os.Fs.Fat16.Table.{fat16_get_fat_entry}
use astra_os.Fs.Fat16.Name.{fat16_format_filename, same_name}
use astra_os.Fs.Fat16.Path.{slash}

-- what the body of a scan does at an entry: go on, or leave the loops with a result
pub data Flow (A R : Type 0) : Type 0 where
  next : A → Flow A R
  ret : R → Flow A R

-- the body: sector number, offset in the sector, entry, and what the scan has gathered
abbrev pub Visit : Type 0 → Type 0 → Type 0
Visit A R = ℕ → ℕ → Entry → A → Flow A R

-- where an entry stands, with its bytes
pub record Located : Type 0 where
  pub sector : ℕ
  pub offset : ℕ
  pub entry : Entry

module _ {A R : Type 0} (visit : Visit A R) where
  -- `for (i = 0; i < 512; i += 32)`, with the rounds that are left
  unfoldable pub walk_entries : ℕ → ℕ → ℕ → Sector → A → Flow A R
  walk_entries zero lba off buf a = next a
  walk_entries (suc left) lba off buf a = elim (visit lba off (entry_at buf off) a) [
    | next a' ↦ walk_entries left lba (off + 32) buf a'
    | ret r ↦ ret r
  ]

  -- `for (s = 0; s < left; s++)` over the sectors from `lba` on
  unfoldable pub walk_sectors : ℕ → ℕ → Disk → A → Flow A R
  walk_sectors zero lba d a = next a
  walk_sectors (suc left) lba d a = elim (walk_entries 16 lba 0 (ata_read_sector d lba) a) [
    | next a' ↦ walk_sectors left (u32 (lba + 1)) d a'
    | ret r ↦ ret r
  ]

  -- `while (cluster < 0xFFF8)` along the chain of a directory's clusters
  unfoldable pub walk_chain : ℕ → Bpb → Disk → ℕ → A → Run (Flow A R)
  walk_chain zero b d cluster a = out_of_fuel
  walk_chain (suc fuel) b d cluster a =
      let here = walk_sectors b.sectors_per_cluster (fat16_cluster_to_sector b cluster) d a in
      let there = λ (a' : A). walk_chain fuel b d (fat16_get_fat_entry b d cluster) a' in
      if ltb cluster 0xFFF8
      then (elim here [ next a' ↦ there a' | ret r ↦ done (ret r) ])
      else done (next a)

  -- the root directory has its own sectors, and every other directory is a chain
  unfoldable pub walk_dir : ℕ → Bpb → Disk → ℕ → A → Run (Flow A R)
  unfolding walk_chain walk_sectors walk_entries
  walk_dir fuel b d dir_cluster a =
      if dir_cluster == 0
      then done (walk_sectors (fat16_root_dir_sectors b) (fat16_root_start_sector b) d a)
      else walk_chain fuel b d dir_cluster a

-- the result of a scan that gathers nothing: `return 0` when the loops end
abbrev pub found : {R : Type 0} → Flow (Unit {0}) (Option R) → Option R
found (next _) = none
found (ret r) = r

-- The tests that most scans begin with: a zero byte ends the directory, and deleted entries and
-- parts of long names are passed over.
abbrev pub at_live : {A R : Type 0} → Entry → A → R → Flow A R → Flow A R
at_live e a stop body =
    if e 0 == 0x00
    then ret stop
    else if e 0 == 0xE5
    then next a
    else if attr e == 0x0F
    then next a
    else body

unfoldable pub match_visit : List ℕ → Visit (Unit {0}) (Option Located)
unfolding same_name
match_visit fatname lba off e a = at_live e a none (
    if same_name 0 e fatname
    then ret (some (record { sector = lba; offset = off; entry = e }))
    else next a)

unfoldable pub fat16_find_entry_location : ℕ → Bpb → Disk → ℕ → List ℕ → Run (Option Located)
unfolding match_visit walk_dir fat16_format_filename
fat16_find_entry_location fuel b d dir_cluster name = do
  flow ← walk_dir (match_visit (fat16_format_filename name)) fuel b d dir_cluster tt
  done (found flow)

-- the same scan, whose caller wants the entry alone
unfoldable pub fat16_find_entry : ℕ → Bpb → Disk → ℕ → List ℕ → Run (Option Entry)
unfolding match_visit walk_dir fat16_format_filename
fat16_find_entry fuel b d dir_cluster name = do
  flow ← walk_dir (match_visit (fat16_format_filename name)) fuel b d dir_cluster tt
  done (Option.map (λ l. l.entry) (found flow))

unfoldable pub free_visit : Visit (Unit {0}) (Option (ℕ × ℕ))
free_visit lba off e a = if e 0 == 0x00 || e 0 == 0xE5 then ret (some (lba, off)) else next a

-- sector and offset of the first entry that is not in use
unfoldable pub fat16_find_free_dir_entry : ℕ → Bpb → Disk → ℕ → Run (Option (ℕ × ℕ))
unfolding free_visit walk_dir
fat16_find_free_dir_entry fuel b d dir_cluster = do
  flow ← walk_dir free_visit fuel b d dir_cluster tt
  done (found flow)

-- an entry other than "." and ".." makes the directory non-empty
unfoldable pub content_visit : Visit (Unit {0}) Bool
content_visit lba off e a =
    at_live e a true (if e 0 == b'.' && (e 1 == b' ' || e 1 == b'.') then next a else ret false)

abbrev pub empty_unless_ret : Flow (Unit {0}) Bool → Bool
empty_unless_ret (next _) = true
empty_unless_ret (ret r) = r

-- The directory is never the root here: the walk is along the chain.
unfoldable pub fat16_is_dir_empty : ℕ → Bpb → Disk → ℕ → Run Bool
unfolding content_visit walk_chain walk_sectors walk_entries
fat16_is_dir_empty fuel b d dir_cluster = do
  flow ← walk_chain content_visit fuel b d dir_cluster tt
  done (empty_unless_ret flow)

-- `if (!(entry.attr & 0x10)) return 0; cluster = entry.first_cluster_low;`
abbrev pub directory_of : Option Entry → Option ℕ
directory_of none = none
directory_of (some e) = if is_dir e then some (first_cluster_low e) else none

-- a step of `fat16_resolve_absolute` at a slash or at the end: `none` for its `return 0`
unfoldable pub resolve_part : ℕ → Bpb → Disk → List ℕ → ℕ → Run (Option ℕ)
unfolding fat16_find_entry
resolve_part fuel b d [] cluster = done (some cluster)
resolve_part fuel b d (c ∷ part) cluster = do
  entry ← fat16_find_entry fuel b d cluster (c ∷ part)
  done (directory_of entry)

-- The loop over the characters behind the leading slash; `part` is cut to 31 characters.
unfoldable pub resolve_loop : ℕ → Bpb → Disk → List ℕ → List ℕ → ℕ → Run (Option ℕ)
unfolding resolve_part
resolve_loop fuel b d [] part cluster = resolve_part fuel b d part cluster
resolve_loop fuel b d (c ∷ rest) part cluster =
    let down =
      resolve_part fuel b d part cluster >>= λ o. if_some o (resolve_loop fuel b d rest []) in
    let along =
      resolve_loop fuel b d rest (if ltb (length part) 31 then part ++ c ∷ [] else part) cluster in
    if c == slash then down else along

unfoldable pub fat16_resolve_absolute : ℕ → Bpb → Disk → List ℕ → Run (Option ℕ)
unfolding resolve_loop
fat16_resolve_absolute fuel b d [] = done none
fat16_resolve_absolute fuel b d (c ∷ path) =
    if c == slash then resolve_loop fuel b d path [] 0 else done none
