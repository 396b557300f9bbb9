-- ===== src/Kernel/Storage.antt =====
-- fat16.c as the file system of the loader.
use astra_os.Base.{ℕ}
use astra_os.Fs.Fat16.Layout.{Fs, fat16_init}
use astra_os.Fs.Fat16.Read.{fat16_filesize, fat16_read_at}
use astra_os.Fs.Fat16.Read.Length.{length-read_at}
use astra_os.Kernel.Files.{Files}

-- the functions of fat16.c, each on `fuel` for its loops along chains
unfoldable pub fat16_files : ℕ → Files
unfolding fat16_init fat16_filesize fat16_read_at
fat16_files fuel = record {
  State = Fs;
  init = fat16_init;
  filesize = fat16_filesize fuel;
  read_at = fat16_read_at fuel;
  read_at-length = length-read_at fuel;
}
