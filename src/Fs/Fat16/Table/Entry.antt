-- ===== src/Fs/Fat16/Table/Entry.antt =====
-- Reading and storing the words of the file allocation table.
use astra_os.Base.{
  ℕ, ◌+◌, ◌*◌, ◌/◌, ◌%◌, ◌^◌, ◌≤◌, ◌<◌, ◌≡◌, ◌≢◌, ◌∙◌, refl, ◌&&◌, inl, inr, arith, ◌==◌,
  if◌then◌else◌, u16, update, update_self, update_ne, Bool-cases, ==→eq,
}
use native.Mathlib.Nat.{mul-le-mul_right}
use astra_os.Fs.Fat16.Layout.{
  fat16_root_start_sector, Disk, Sector, Bpb, u16_at, set_u16, ata_read_sector, ata_write_sector,
}
use astra_os.Fs.Fat16.Table.{fat16_get_fat_entry, fat16_set_fat_entry, store_word}

-- words at even offsets do not overlap
u16_at-set_u16 :
    (buf : Sector) (o p v : ℕ)
    → o % 2 ≡ 0
    → p % 2 ≡ 0
    → u16_at (set_u16 buf o v) p ≡ (if p == o then u16 v else u16_at buf p)
unfolding set_u16 update
u16_at-set_u16 buf o p v ho hp = ground arith

module _ (d : Disk) (lba : ℕ) (buf : Sector) where
  pub read-write_self : ata_read_sector (ata_write_sector d lba buf) lba ≡ buf
  unfolding ata_read_sector ata_write_sector
  read-write_self = update_self d (lba % 2 ^ 28) buf

  pub read-write_ne :
      (l : ℕ)
      → l % 2 ^ 28 ≢ lba % 2 ^ 28
      → ata_read_sector (ata_write_sector d lba buf) l ≡ ata_read_sector d l
  unfolding ata_read_sector ata_write_sector
  read-write_ne l h = update_ne d (lba % 2 ^ 28) buf (l % 2 ^ 28) h

-- the word at `p` of sector `l`
abbrev word : Disk → ℕ → ℕ → ℕ
word d l p = u16_at (ata_read_sector d l) p

word-store_word :
    (d : Disk) (lba o v l p : ℕ)
    → lba < 2 ^ 28
    → l < 2 ^ 28
    → o % 2 ≡ 0
    → p % 2 ≡ 0
    → word (store_word d lba o v) l p ≡ (if (l == lba) && (p == o) then u16 v else word d l p)
unfolding store_word
word-store_word d lba o v l p hb hl ho hp = elim (Bool-cases (l == lba)) [
  | inl same ↦
      rw (==→eq l lba same, read-write_self d lba (set_u16 (ata_read_sector d lba) o v))
        (ground (arith, u16_at-set_u16 (ata_read_sector d lba) o p v))
  | inr other ↦
      rw (other, read-write_ne d lba (set_u16 (ata_read_sector d lba) o v) l (ground arith)) refl
]

-- the table of `b` lies in the first 2^28 sectors, and cluster `c` has an entry in it
pub record InTable (b : Bpb) (c : ℕ) : Type 0 where
  pub in_table : c * 2 / 512 < b.sectors_per_fat
  pub in_reach : b.reserved_sectors + b.sectors_per_fat + b.sectors_per_fat ≤ 2 ^ 28

-- A value stored for a cluster of the table is read back for it, cut to 16 bits, and the entries of
-- all other clusters of the table are as they were.
pub get-set_fat_entry :
    (b : Bpb) (d : Disk) (c v k : ℕ)
    → InTable b c
    → InTable b k
    → fat16_get_fat_entry b (fat16_set_fat_entry b d c v) k
      ≡ (if k == c then u16 v else fat16_get_fat_entry b d k)
unfolding fat16_get_fat_entry fat16_set_fat_entry
get-set_fat_entry b d c v k ic ik =
    let first = store_word d (b.reserved_sectors + c * 2 / 512) (c * 2 % 512) v in
    ground (
      arith,
      word-store_word first (b.reserved_sectors + b.sectors_per_fat + c * 2 / 512) (c * 2 % 512) v
          (b.reserved_sectors + k * 2 / 512) (k * 2 % 512),
      word-store_word d (b.reserved_sectors + c * 2 / 512) (c * 2 % 512) v
          (b.reserved_sectors + k * 2 / 512) (k * 2 % 512),
    )

-- the entry of a cluster in the second copy of the table
abbrev pub mirror_entry : Bpb → Disk → ℕ → ℕ
mirror_entry b d k = word d (b.reserved_sectors + b.sectors_per_fat + k * 2 / 512) (k * 2 % 512)

-- The second copy of the table changes in the same entry and to the same value as the first.
pub mirror-set_fat_entry :
    (b : Bpb) (d : Disk) (c v k : ℕ)
    → InTable b c
    → InTable b k
    → mirror_entry b (fat16_set_fat_entry b d c v) k
      ≡ (if k == c then u16 v else mirror_entry b d k)
unfolding fat16_set_fat_entry
mirror-set_fat_entry b d c v k ic ik =
    let first = store_word d (b.reserved_sectors + c * 2 / 512) (c * 2 % 512) v in
    ground (
      arith,
      word-store_word first (b.reserved_sectors + b.sectors_per_fat + c * 2 / 512) (c * 2 % 512) v
          (b.reserved_sectors + b.sectors_per_fat + k * 2 / 512) (k * 2 % 512),
      word-store_word d (b.reserved_sectors + c * 2 / 512) (c * 2 % 512) v
          (b.reserved_sectors + b.sectors_per_fat + k * 2 / 512) (k * 2 % 512),
    )

-- every sector behind two copies of the table is kept
pub read-set_fat_entry :
    (b : Bpb) (d : Disk) (c v l : ℕ)
    → InTable b c
    → l < 2 ^ 28
    → b.reserved_sectors + b.sectors_per_fat + b.sectors_per_fat ≤ l
    → ata_read_sector (fat16_set_fat_entry b d c v) l ≡ ata_read_sector d l
unfolding fat16_set_fat_entry store_word
read-set_fat_entry b d c v l ic hl behind =
    let offset = c * 2 % 512 in
    let lba = b.reserved_sectors + c * 2 / 512 in
    let first = store_word d lba offset v in
    let lba2 = b.reserved_sectors + b.sectors_per_fat + c * 2 / 512 in
    read-write_ne first lba2 (set_u16 (ata_read_sector first lba2) offset v) l
      (omega (arith, ic.in_table, ic.in_reach))
    ∙ read-write_ne d lba (set_u16 (ata_read_sector d lba) offset v) l
        (omega (arith, ic.in_table, ic.in_reach))

-- If the boot sector names two copies of the table or more, a store in the table leaves every sector
-- from the root directory on as it was: no directory and no file is touched.
pub read_root-set_fat_entry :
    (b : Bpb) (d : Disk) (c v l : ℕ)
    → InTable b c
    → 2 ≤ b.num_fats
    → fat16_root_start_sector b ≤ l
    → l < 2 ^ 28
    → ata_read_sector (fat16_set_fat_entry b d c v) l ≡ ata_read_sector d l
unfolding fat16_root_start_sector
read_root-set_fat_entry b d c v l ic two root low =
    let copies : 2 * b.sectors_per_fat ≤ b.num_fats * b.sectors_per_fat =
      mul-le-mul_right b.sectors_per_fat two in
    read-set_fat_entry b d c v l ic low (omega (arith, copies))
