-- ===== src/Fs/Fat16/Dir/Find.antt =====
-- What the searches of a directory return.
use astra_os.Base.{
  ℕ, ◌≡◌, ◌≢◌, ◌<◌, ◌⊎◌, refl, inl, inr, arith, true, ◌||◌, ◌==◌, Bool-cases, List, Option, none,
  some, done, Ends-bind, Ends-done,
}
use astra_os.Fs.Fat16.Layout.{Disk, Bpb, entry_at, attr, ata_read_sector}
use astra_os.Fs.Fat16.Name.{same_name, fat16_format_filename}
use astra_os.Fs.Fat16.Dir.{
  Flow, next, ret, Located, found, match_visit, walk_dir, fat16_find_entry_location, free_visit,
  fat16_find_free_dir_entry,
}
use astra_os.Fs.Fat16.Dir.Walk.{Keeps, AtEntries, walk_dir-Keeps}

-- an entry of the disk that is in use, is no part of a long name, and has the name
pub record IsFound (d : Disk) (fatname : List ℕ) (l : Located) : Type 0 where
  pub stands : l.entry ≡ entry_at (ata_read_sector d l.sector) l.offset
  pub inside : l.offset < 512
  pub not_end : l.entry 0 ≢ 0
  pub not_deleted : l.entry 0 ≢ 0xE5
  pub not_long : attr l.entry ≢ 0x0F
  pub named : same_name 0 l.entry fatname ≡ true

-- if there is a result, it has `P`
abbrev pub IfSome : {R : Type 0} → (R → Type 0) → Option R → Type 0
IfSome P none = Unit
IfSome P (some r) = P r

found-Keeps :
    {R : Type 0} (P : R → Type 0) (flow : Flow (Unit {0}) (Option R))
    → Keeps (λ _. Unit) (IfSome P) flow
    → IfSome P (found flow)
found-Keeps P (next a) k = tt
found-Keeps P (ret r) k = k

module _ (d : Disk) (fatname : List ℕ) where
  match_visit-IsFound : AtEntries (match_visit fatname) (λ _. Unit) (IfSome (IsFound d fatname)) d
  unfolding match_visit
  match_visit-IsFound lba off a inside p =
      let e = entry_at (ata_read_sector d lba) off in
      elim (Bool-cases (e 0 == 0x00)) [
        | inl last ↦ rw last tt
        | inr used ↦ elim (Bool-cases (e 0 == 0xE5)) [
          | inl deleted ↦ rw (used, deleted) tt
          | inr live ↦ elim (Bool-cases (attr e == 0x0F)) [
            | inl long ↦ rw (used, live, long) tt
            | inr short ↦ elim (Bool-cases (same_name 0 e fatname)) [
              | inr other ↦ rw (used, live, short, other) tt
              | inl same ↦
                  rw (used, live, short, same)
                    (record {
                      stands = refl;
                      inside = inside;
                      not_end = ground arith;
                      not_deleted = ground arith;
                      not_long = ground arith;
                      named = same;
                    })
            ]
          ]
        ]
      ]

module _ (fuel : ℕ) (b : Bpb) (d : Disk) (dir_cluster : ℕ) where
  -- An entry that `fat16_find_entry_location` returns stands at the returned sector and offset of
  -- the disk, is neither the end mark nor deleted nor a part of a long name, and its 11 bytes are
  -- the formatted name.
  pub find_entry_location-IsFound :
      (name : List ℕ) (l : Located)
      → fat16_find_entry_location fuel b d dir_cluster name ≡ done (some l)
      → IsFound d (fat16_format_filename name) l
  unfolding fat16_find_entry_location
  find_entry_location-IsFound name l h =
      let fatname = fat16_format_filename name in
      Ends-done (IfSome (IsFound d fatname)) (fat16_find_entry_location fuel b d dir_cluster name)
        (some l)
        (Ends-bind (Keeps (λ _. Unit) (IfSome (IsFound d fatname))) (IfSome (IsFound d fatname))
          (walk_dir (match_visit fatname) fuel b d dir_cluster tt) _
          (walk_dir-Keeps (match_visit fatname) (λ _. Unit) (IfSome (IsFound d fatname)) d
            (match_visit-IsFound d fatname) fuel b dir_cluster tt tt)
          λ flow e k. found-Keeps (IsFound d fatname) flow k)
        h

  -- the entry at the place is the end mark or deleted
  abbrev pub IsFree : ℕ × ℕ → Type 0
  IsFree place =
      let first = entry_at (ata_read_sector d place.0) place.1 0 in
      (place.1 < 512) × ((first ≡ 0) ⊎ (first ≡ 0xE5))

  free_visit-IsFree : AtEntries free_visit (λ _. Unit) (IfSome IsFree) d
  unfolding free_visit
  free_visit-IsFree lba off a inside p =
      let e = entry_at (ata_read_sector d lba) off in
      elim (Bool-cases ((e 0 == 0x00) || (e 0 == 0xE5))) [
        | inr used ↦ rw used tt
        | inl free ↦ rw free (inside, ground arith)
      ]

  -- A place that `fat16_find_free_dir_entry` returns holds the end mark or a deleted entry: what is
  -- written there overwrites no entry in use.
  pub find_free_dir_entry-IsFree :
      (lba off : ℕ)
      → fat16_find_free_dir_entry fuel b d dir_cluster ≡ done (some (lba, off))
      → let first = entry_at (ata_read_sector d lba) off 0 in
        (off < 512) × ((first ≡ 0) ⊎ (first ≡ 0xE5))
  unfolding fat16_find_free_dir_entry
  find_free_dir_entry-IsFree lba off h =
      Ends-done (IfSome IsFree) (fat16_find_free_dir_entry fuel b d dir_cluster) (some (lba, off))
        (Ends-bind (Keeps (λ _. Unit) (IfSome IsFree)) (IfSome IsFree)
          (walk_dir free_visit fuel b d dir_cluster tt) _
          (walk_dir-Keeps free_visit (λ _. Unit) (IfSome IsFree) d free_visit-IsFree fuel b
            dir_cluster tt tt)
          λ flow e k. found-Keeps IsFree flow k)
        h
