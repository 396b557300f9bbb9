-- ===== src/Fs/Fat16/Browse.antt =====
-- fat16.c: the functions that list a directory or change the current one.
pub mod Listed
use astra_os.Base.{
  ℕ, zero, suc, ◌+◌, ◌-◌, ◌*◌, Bool, true, false, ◌&&◌, ◌||◌, ◌==◌, ltb, leb, if◌then◌else◌, u32,
  List, [], ◌∷◌, ◌++◌, map, length, Option, none, some, Run, done, out_of_fuel, ◌>>=◌, if_some,
}
use astra_os.Fs.Fat16.Layout.{
  Disk, Sector, Bpb, Fs, Entry, is_dir, first_cluster_low, file_size, ata_read_sector,
  fat16_cluster_to_sector,
}
use astra_os.Fs.Fat16.Table.{fat16_get_fat_entry}
use astra_os.Fs.Fat16.Name.{fat16_entry_to_name}
use astra_os.Fs.Fat16.Path.{slash, str_eq, fat16_normalize_path, fat16_split_path}
use astra_os.Fs.Fat16.Dir.{
  Flow, next, ret, Visit, at_live, walk_dir, fat16_find_entry, fat16_resolve_absolute,
}

-- `fat16_ls`: the entries that it prints a line for, a flag for a directory, name and size
unfoldable pub ls_visit : Visit (List (Bool × List ℕ × ℕ)) (List (Bool × List ℕ × ℕ))
unfolding fat16_entry_to_name
ls_visit lba off e lines =
    at_live e lines lines (next (lines ++ (is_dir e, fat16_entry_to_name e, file_size e) ∷ []))

abbrev pub gathered : {A : Type 0} → Flow A A → A
gathered (next a) = a
gathered (ret a) = a

unfoldable pub fat16_ls : ℕ → Fs → Run (List (Bool × List ℕ × ℕ))
unfolding ls_visit walk_dir
fat16_ls fuel s = do
  flow ← walk_dir ls_visit fuel s.bpb s.disk s.current_dir_cluster []
  done (gathered flow)

-- the directory is changed for the call of `fat16_ls` and then put back
unfoldable pub fat16_ls_path : ℕ → Fs → List ℕ → Run (Option (List (Bool × List ℕ × ℕ)))
unfolding fat16_ls fat16_resolve_absolute fat16_normalize_path
fat16_ls_path fuel s path = do
  abs ← fat16_normalize_path s.current_path path
  cluster ← fat16_resolve_absolute fuel s.bpb s.disk abs
  if_some cluster
      λ dir. fat16_ls fuel (record s { current_dir_cluster = dir }) >>= λ lines. done (some lines)

-- What `out` holds: the bytes that are counted in `written`, and whether a NUL stands behind them.
abbrev pub Listing : Type 0
Listing = List ℕ × Bool

-- APPEND_LINE: a character is stored while two more fit, over the NUL of the line before; the flag
-- says that the line is complete, and then a NUL stands behind it.
unfoldable pub append_line : ℕ → List ℕ → Listing → Listing × Bool
append_line out_size [] (out, nul) =
    if leb out_size (length out + 2) then ((out, nul), false) else ((out ++ 10 ∷ [], true), true)
append_line out_size (c ∷ name) (out, nul) =
    let more = append_line out_size name (out ++ c ∷ [], false) in
    if leb out_size (length out + 2) then ((out, nul), false) else more

unfoldable pub list_visit : ℕ → Visit Listing Listing
unfolding append_line fat16_entry_to_name
list_visit out_size lba off e out =
    let (out', complete) = append_line out_size (fat16_entry_to_name e) out in
    at_live e out out (if complete then next out' else ret out')

-- `out[0] = '\0'`, with no byte counted
abbrev pub begun : Listing
begun = ([], true)

-- the part of `fat16_list_dir` behind the lookup: what it returns, and what is stored to `out`
unfoldable pub list_cluster : ℕ → Fs → ℕ → Option ℕ → Run (Bool × Listing)
unfolding list_visit walk_dir
list_cluster fuel s out_size none = done (false, begun)
list_cluster fuel s out_size (some dir) =
    walk_dir (list_visit out_size) fuel s.bpb s.disk dir begun >>= λ flow.
    done (true, gathered flow)

-- `out` is not NULL; nothing is stored to a buffer of no bytes
unfoldable pub fat16_list_dir : ℕ → Fs → List ℕ → ℕ → Run (Bool × Listing)
unfolding list_cluster fat16_resolve_absolute fat16_normalize_path
fat16_list_dir fuel s path zero = done (false, ([], false))
fat16_list_dir fuel s [] (suc room) = done (false, begun)
fat16_list_dir fuel s (c ∷ path) (suc room) = do
  abs ← fat16_normalize_path s.current_path (c ∷ path)
  cluster ← fat16_resolve_absolute fuel s.bpb s.disk abs
  list_cluster fuel s (suc room) cluster

abbrev pub moved_to : Fs → List ℕ → Option ℕ → Bool × Fs
moved_to s abs none = (false, s)
moved_to s abs (some dir) = (true, record s { current_dir_cluster = dir; current_path = abs })

-- `fat16_cd_path`: whether it returns 1, and the new state
unfoldable pub fat16_cd_path : ℕ → Fs → List ℕ → Run (Bool × Fs)
unfolding fat16_resolve_absolute fat16_normalize_path
fat16_cd_path fuel s [] = done (false, s)
fat16_cd_path fuel s (c ∷ path) = do
  abs ← fat16_normalize_path s.current_path (c ∷ path)
  cluster ← fat16_resolve_absolute fuel s.bpb s.disk abs
  done (moved_to s abs cluster)
