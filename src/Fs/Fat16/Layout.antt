-- ===== src/Fs/Fat16/Layout.antt =====
-- fat16.c: the disk, the boot sector, the state and where the regions of the disk begin.
use astra_os.Base.{
  ℕ, ◌+◌, ◌-◌, ◌*◌, ◌/◌, ◌%◌, ◌^◌, Bool, true, false, ◌||◌, ◌!=◌, ◌==◌, if◌then◌else◌, List, u8,
  u32, update,
}

-- a buffer of 512 bytes, by index
abbrev pub Sector : Type 0
Sector = ℕ → ℕ

-- the drive's sectors, by the 28 bits of address that ata.c hands to it
abbrev pub Disk : Type 0
Disk = ℕ → Sector

unfoldable pub ata_read_sector : Disk → ℕ → Sector
ata_read_sector d lba = d (lba % 2 ^ 28)

unfoldable pub ata_write_sector : Disk → ℕ → Sector → Disk
ata_write_sector d lba buf = update d (lba % 2 ^ 28) buf

-- `*(uint16_t *)&buf[o]` and `*(uint32_t *)&buf[o]` on a little-endian machine
abbrev pub u16_at : Sector → ℕ → ℕ
u16_at buf o = buf o + buf (o + 1) * 256

abbrev pub u32_at : Sector → ℕ → ℕ
u32_at buf o = buf o + buf (o + 1) * 256 + buf (o + 2) * 65536 + buf (o + 3) * 16777216

unfoldable pub set_u16 : Sector → ℕ → ℕ → Sector
set_u16 buf o v = update (update buf o (u8 v)) (o + 1) (u8 (v / 256))

unfoldable pub set_u32 : Sector → ℕ → ℕ → Sector
unfolding set_u16
set_u32 buf o v = set_u16 (set_u16 buf o v) (o + 2) (v / 65536)

-- `fat16_bpb_t`
pub record Bpb : Type 0 where
  pub bytes_per_sector : ℕ
  pub sectors_per_cluster : ℕ
  pub reserved_sectors : ℕ
  pub num_fats : ℕ
  pub root_entries : ℕ
  pub total_sectors_16 : ℕ
  pub sectors_per_fat : ℕ
  pub total_sectors_32 : ℕ

-- the static variables of fat16.c beside the disk
pub record Fs : Type 0 where
  pub disk : Disk
  pub bpb : Bpb
  pub current_dir_cluster : ℕ
  pub current_path : List ℕ

-- `fat16_dir_entry_t`: the 32 bytes of an entry, by offset
abbrev pub Entry : Type 0
Entry = ℕ → ℕ

abbrev pub entry_at : Sector → ℕ → Entry
entry_at buf off i = buf (off + i)

abbrev pub attr : Entry → ℕ
attr e = e 11

abbrev pub first_cluster_low : Entry → ℕ
first_cluster_low e = u16_at e 26

abbrev pub file_size : Entry → ℕ
file_size e = u32_at e 28

-- `entry.attr & 0x10`
abbrev pub is_dir : Entry → Bool
is_dir e = attr e / 16 % 2 == 1

unfoldable pub fat16_root_start_sector : Bpb → ℕ
fat16_root_start_sector b = b.reserved_sectors + b.num_fats * b.sectors_per_fat

unfoldable pub fat16_root_dir_sectors : Bpb → ℕ
fat16_root_dir_sectors b = (b.root_entries * 32 + (b.bytes_per_sector - 1)) / b.bytes_per_sector

unfoldable pub fat16_first_data_sector : Bpb → ℕ
unfolding fat16_root_start_sector fat16_root_dir_sectors
fat16_first_data_sector b = fat16_root_start_sector b + fat16_root_dir_sectors b

-- `(cluster - 2)` is an `int`, and may be negative before it is added to a `uint32_t`.
unfoldable pub fat16_cluster_to_sector : Bpb → ℕ → ℕ
unfolding fat16_first_data_sector
fat16_cluster_to_sector b cluster =
    u32 (fat16_first_data_sector b + (cluster + 2 ^ 32 - 2) * b.sectors_per_cluster)

-- `fat16_init`: the fields are stored before they are checked.
unfoldable pub read_bpb : Sector → Bpb
read_bpb sector = record {
  bytes_per_sector = u16_at sector 11;
  sectors_per_cluster = sector 13;
  reserved_sectors = u16_at sector 14;
  num_fats = sector 16;
  root_entries = u16_at sector 17;
  total_sectors_16 = u16_at sector 19;
  sectors_per_fat = u16_at sector 22;
  total_sectors_32 = u32_at sector 32;
}

unfoldable pub fat16_init : Fs → Bool × Fs
unfolding read_bpb ata_read_sector
fat16_init s =
    let sector = ata_read_sector s.disk 0 in
    let b = read_bpb sector in
    let ok =
      if sector 510 != 0x55 || sector 511 != 0xAA
      then false
      else if b.bytes_per_sector != 512
      then false
      else true in
    (ok, record s { bpb = b })

unfoldable pub fat16_get_path : Fs → List ℕ
fat16_get_path s = s.current_path
