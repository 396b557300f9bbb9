-- ===== src/Fs/Fat16/Entries.antt =====
-- fat16.c: directory entries as the functions that write make and change them, and their results.
use astra_os.Base.{
  ℕ, ◌+◌, ◌&&◌, ltb, leb, if◌then◌else◌, update, List, [], ◌∷◌, Option, none, some, Run, done,
}
use astra_os.Fs.Fat16.Layout.{Disk, Sector, set_u16, set_u32, ata_read_sector, ata_write_sector}
use astra_os.Fs.Fat16.Name.{fat16_format_filename}

-- the `int` that a function returns
pub data Status : Type 0 where
  one zero_ minus_one minus_two : Status

-- a function that may change the disk
abbrev pub Result : Type 0
Result = Run (Status × Disk)

abbrev pub fail : Disk → Result
fail d = done (zero_, d)

-- a lookup that failed is `return 0` with the disk as it was
abbrev pub or_fail : {A : Type 0} → Disk → Option A → (A → Result) → Result
or_fail d none f = fail d
or_fail d (some a) f = f a

-- the bytes of a list, stored from `off` on
unfoldable pub set_bytes : Sector → ℕ → List ℕ → Sector
set_bytes buf off [] = buf
set_bytes buf off (c ∷ cs) = set_bytes (update buf off c) (off + 1) cs

-- `for (i = 0; i < 32; i++) ((uint8_t *)entry)[i] = 0;`
unfoldable pub zero_entry : Sector → ℕ → Sector
zero_entry buf off i = if leb off i && ltb i (off + 32) then 0 else buf i

-- a sector read, changed and written back
abbrev pub modify : Disk → ℕ → (Sector → Sector) → Disk
modify d lba f = ata_write_sector d lba (f (ata_read_sector d lba))

-- name, attributes, first cluster and size of an entry
unfoldable pub fill_entry : List ℕ → ℕ → ℕ → ℕ → ℕ → Sector → Sector
unfolding set_bytes set_u16 set_u32
fill_entry fatname attributes cluster size off buf =
    set_u32 (set_u16 (update (set_bytes buf off fatname) (off + 11) attributes) (off + 26) cluster)
      (off + 28) size

-- `disk_entry->name[0] = 0xE5`
unfoldable pub mark_deleted : Disk → ℕ → ℕ → Disk
unfolding ata_read_sector ata_write_sector
mark_deleted d lba off = modify d lba (λ buf. update buf off 0xE5)

-- a new entry for an empty file
unfoldable pub new_file_entry : Disk → ℕ → ℕ → List ℕ → Disk
unfolding fill_entry zero_entry ata_read_sector ata_write_sector fat16_format_filename
new_file_entry d lba off name =
    modify d lba (λ buf. fill_entry (fat16_format_filename name) 0x20 0 0 off (zero_entry buf off))
