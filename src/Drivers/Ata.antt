-- ===== src/Drivers/Ata.antt =====
-- src/drivers/ata.c: the reads and writes of the drive's ports.
pub mod Sector
use astra_os.Base.{
  ℕ, zero, suc, ◌+◌, ◌*◌, ◌/◌, ◌^◌, ◌==◌, if◌then◌else◌, u8, u16, update, bit_and, bit_or, List, [],
  ◌∷◌, ◌++◌, Run, done, out_of_fuel, ◌>>=◌,
}

-- The drive as the driver sees it: the answers that the status register will give, the words that
-- the data register will give, and what has been written to the ports.
pub record Drive : Type 0 where
  pub statuses : List ℕ
  pub data_words : ℕ → ℕ
  pub written : List (ℕ × ℕ)

abbrev pub out : ℕ → ℕ → Drive → Drive
out port value d = record d { written = d.written ++ (port, value) ∷ [] }

-- `while (inb(0x1F7) & 0x80);` over the answers to come
unfoldable pub wait_bsy : List ℕ → Run (List ℕ)
wait_bsy [] = out_of_fuel
wait_bsy (status ∷ rest) =
    let later = wait_bsy rest in if bit_and status 0x80 == 0 then done rest else later

-- `while (!(inb(0x1F7) & 0x08));`
unfoldable pub wait_drq : List ℕ → Run (List ℕ)
wait_drq [] = out_of_fuel
wait_drq (status ∷ rest) =
    let later = wait_drq rest in if bit_and status 0x08 == 0 then later else done rest

-- one of the two loops, on the drive
unfoldable pub await : (List ℕ → Run (List ℕ)) → Drive → Run Drive
await wait d = wait d.statuses >>= λ rest. done (record d { statuses = rest })

-- the drive, the count of 1, the address and the command
unfoldable pub send_command : ℕ → ℕ → Drive → Drive
send_command lba command d =
    let selected = out 0x1F6 (bit_or 0xE0 (bit_and (lba / 16777216) 0x0F)) d in
    let counted = out 0x1F2 1 selected in
    let low = out 0x1F3 (u8 lba) counted in
    let mid = out 0x1F4 (u8 (lba / 256)) low in
    let high = out 0x1F5 (u8 (lba / 65536)) mid in out 0x1F7 command high

-- the loop over the data register, with the rounds that are left
unfoldable pub read_words : ℕ → ℕ → (ℕ → ℕ) → (ℕ → ℕ) → ℕ → ℕ
unfolding update
read_words zero i words buffer = buffer
read_words (suc left) i words buffer =
    let low = update buffer (i * 2) (u8 (words i)) in
    read_words left (i + 1) words (update low (i * 2 + 1) (u8 (words i / 256)))

-- the word that is written in round `i`
unfoldable pub packed_word : (ℕ → ℕ) → ℕ → ℕ
packed_word buffer i = u16 (bit_or (buffer (i * 2)) (buffer (i * 2 + 1) * 2 ^ 8))

-- `outw(0x1F0, word);`, with the rounds that are left
unfoldable pub write_words : ℕ → ℕ → (ℕ → ℕ) → Drive → Drive
unfolding packed_word
write_words zero i buffer d = d
write_words (suc left) i buffer d =
    write_words left (i + 1) buffer (out 0x1F0 (packed_word buffer i) d)

-- the buffer and the drive after `ata_read_sector`
unfoldable pub read_sector : ℕ → (ℕ → ℕ) → Drive → Run ((ℕ → ℕ) × Drive)
unfolding await wait_bsy wait_drq send_command read_words
read_sector lba buffer d = do
  idle ← await wait_bsy d
  started ← await wait_bsy (send_command lba 0x20 idle)
  fetched ← await wait_drq started
  done (read_words 256 0 fetched.data_words buffer, fetched)

unfoldable pub write_sector : ℕ → (ℕ → ℕ) → Drive → Run Drive
unfolding await wait_bsy wait_drq send_command write_words
write_sector lba buffer d = do
  idle ← await wait_bsy d
  asked ← await wait_drq (send_command lba 0x30 idle)
  await wait_bsy (out 0x1F7 0xE7 (write_words 256 0 buffer asked))
