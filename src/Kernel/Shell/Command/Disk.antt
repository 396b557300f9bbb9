-- ===== src/Kernel/Shell/Command/Disk.antt =====
-- shell.c: the commands on the disk's sectors and on the heap.
use astra_os.Base.{
  ℕ, zero, suc, ◌+◌, ◌-◌, ◌/◌, ◌%◌, ltb, leb, ◌&&◌, codes, if◌then◌else◌, update, [], ◌∷◌, Run,
  ◌>>=◌,
}
use astra_os.Fs.Fat16.Layout.{Sector, Bpb, ata_read_sector, ata_write_sector}
use astra_os.Memory.Heap.{kmalloc, kfree}
use astra_os.Kernel.Bytes.{Mem, write_bytes, memset}
use astra_os.Kernel.Shell.State.{Machine}
use astra_os.Kernel.Shell.Command.Report.{After, put, say, put_uint, reply, with_init, with_disk}

-- the 512 bytes of a sector in a buffer of the memory, and back
unfoldable pub store_sector : Mem → ℕ → Sector → Mem
store_sector mem buf sector a = if leb buf a && ltb a (buf + 512) then sector (a - buf) else mem a

abbrev pub sector_of : Mem → ℕ → Sector
sector_of mem buf i = mem (buf + i)

-- `digits[n]`
unfoldable pub hex_digit : ℕ → ℕ
hex_digit n = if ltb n 10 then b'0' + n else b'A' + (n - 10)

-- the bytes from `a` on, each as two digits and a space
unfoldable pub put_hex : ℕ → ℕ → Machine → Machine
unfolding hex_digit put say
put_hex zero a m = m
put_hex (suc left) a m =
    let b = m.mem a in
    put_hex left (a + 1) (say " " (put (hex_digit (b / 16 % 16) ∷ hex_digit (b % 16) ∷ []) m))

module _ (fuel : ℕ) where
  unfoldable pub run_diskread : Machine → Run After
  unfolding kmalloc ata_read_sector store_sector put_hex say
  run_diskread m = do
    (buf, heap) ← kmalloc fuel 512 m.heap
    let mem = store_sector m.mem buf (ata_read_sector m.fs.disk 0)
    let read = say "\nDisk Sector 0 (first 64 bytes):\n" (record m { heap = heap; mem = mem })
    reply "\n" (put_hex 64 buf read)

  -- "ASTRA" goes to sector 20479 and is read back into the buffer that was cleared.
  unfoldable pub run_disktest : Machine → Run After
  unfolding kmalloc ata_read_sector ata_write_sector store_sector write_bytes memset put say
  run_disktest m = do
    (buf, heap) ← kmalloc fuel 512 m.heap
    let filled = write_bytes (memset m.mem buf 0 512) buf (codes "ASTRA")
    let disk = ata_write_sector m.fs.disk 20479 (sector_of filled buf)
    let mem = store_sector (memset filled buf 0 512) buf (ata_read_sector disk 20479)
    let read = say "\nRead back: " (with_disk disk (record m { heap = heap; mem = mem }))
    reply "\n"
        (put (mem buf ∷ mem (buf + 1) ∷ mem (buf + 2) ∷ mem (buf + 3) ∷ mem (buf + 4) ∷ []) read)

  unfoldable pub run_heaptest : Machine → Run After
  unfolding kmalloc kfree update say
  run_heaptest m = do
    (a, heap) ← kmalloc fuel 32 m.heap
    (b, heap') ← kmalloc fuel 64 heap
    let mem = update (update m.mem a b'A') b b'B'
    freed ← kfree fuel a heap'
    freed' ← kfree fuel b freed
    let allocated = say "Allocated A and B\n" (say "\nTesting heap...\n" m)
    reply "Freed A and B\n" (record allocated { heap = freed'; mem = mem })

-- the fields of the boot sector
unfoldable pub fatinfo_lines : Bpb → Machine → Run After
unfolding put_uint say
fatinfo_lines info m = do
  m1 ← put_uint info.bytes_per_sector (say "Bytes/Sector: " (say "\nFAT16 Boot Sector Info:\n" m))
  m2 ← put_uint info.sectors_per_cluster (say "\nSectors/Cluster: " m1)
  m3 ← put_uint info.reserved_sectors (say "\nReserved Sectors: " m2)
  m4 ← put_uint info.num_fats (say "\nFAT Count: " m3)
  m5 ← put_uint info.root_entries (say "\nRoot Entries: " m4)
  m6 ← put_uint info.sectors_per_fat (say "\nSectors/FAT: " m5)
  m7 ← put_uint info.total_sectors_16 (say "\nTotal Sectors (16): " m6)
  m8 ← put_uint info.total_sectors_32 (say "\nTotal Sectors (32): " m7)
  reply "\n" m8

unfoldable pub run_fatinfo : Machine → Run After
unfolding with_init fatinfo_lines
run_fatinfo = with_init λ m. fatinfo_lines m.fs.bpb m
