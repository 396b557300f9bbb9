-- ===== src/Kernel/Shell/Command/Files.antt =====
-- shell.c: the commands on files and directories, `pwd` to `mv`.
use Prim.Native.String.{String}
use astra_os.Base.{
  ℕ, codes, Bool, true, false, if◌then◌else◌, List, [], ◌∷◌, Option, none, some, Run, done, ◌>>=◌,
}
use astra_os.Fs.Fat16.Layout.{fat16_get_path}
use astra_os.Fs.Fat16.Path.{str_eq}
use astra_os.Fs.Fat16.Entries.{Status, one, zero_, minus_one, minus_two, Result}
use astra_os.Fs.Fat16.Read.{fat16_cat}
use astra_os.Fs.Fat16.Browse.{fat16_ls, fat16_ls_path, fat16_cd_path}
use astra_os.Fs.Fat16.Make.{fat16_touch, fat16_mkdir, fat16_mkdir_p}
use astra_os.Fs.Fat16.Remove.{fat16_rm, fat16_rmdir, fat16_rm_rf}
use astra_os.Fs.Fat16.Write.{fat16_write_file, fat16_append_file}
use astra_os.Fs.Fat16.Move.{fat16_cp, fat16_mv}
use astra_os.Kernel.Shell.State.{Machine}
use astra_os.Kernel.Shell.Token.{text_loop}
use astra_os.Kernel.Shell.Command.Report.{
  After, ready, put, say, put_uint, reply, with_init, with_disk, report,
}

-- `fat16_pwd`
unfoldable pub run_pwd : Machine → Run After
unfolding put say fat16_get_path
run_pwd m = reply "\n" (put (fat16_get_path m.fs) (say "\n" m))

-- the lines that `fat16_ls` prints: the flag of a directory, the name and the size
unfoldable pub put_entries : List (Bool × List ℕ × ℕ) → Machine → Run Machine
unfolding put say put_uint
put_entries [] m = done m
put_entries ((true, name, size) ∷ lines) m =
    put_entries lines (say "\n" (put name (say "DIR   " m)))
put_entries ((false, name, size) ∷ lines) m =
    put_uint size (say "  " (put name (say "FILE  " m))) >>= λ shown.
    put_entries lines (say " bytes\n" shown)

abbrev pub list_entries : Machine → Option (List (Bool × List ℕ × ℕ)) → Run After
list_entries m none = reply "\nDirectory not found.\n" m
list_entries m (some lines) = put_entries lines m >>= λ shown. done (ready shown)

module _ (fuel : ℕ) where
  unfoldable pub run_ls : List (List ℕ) → Machine → Run After
  unfolding with_init fat16_ls fat16_ls_path put_entries
  run_ls [] = with_init λ m. fat16_ls fuel m.fs >>= λ lines. list_entries m (some lines)
  run_ls (path ∷ args) = with_init λ m. fat16_ls_path fuel m.fs path >>= list_entries m

  unfoldable pub run_cd : List (List ℕ) → Machine → Run After
  unfolding with_init fat16_cd_path say
  run_cd [] m = reply "\nUsage: cd <path>\n" m
  run_cd (path ∷ args) m =
      with_init
        (λ m. fat16_cd_path fuel m.fs path >>= λ (ok, fs).
          if ok
          then done (ready (record m { fs = fs }))
          else reply "\nDirectory not found.\n" (record m { fs = fs }))
        m

  unfoldable pub run_cat : List (List ℕ) → Machine → Run After
  unfolding with_init fat16_cat put say
  run_cat [] m = reply "\nUsage: cat <file>\n" m
  run_cat (path ∷ args) m =
      with_init
        (λ m. fat16_cat fuel m.fs path >>= λ (shown, ok).
          if ok then done (ready (put shown m)) else reply "\nFile not found.\n" (put shown m))
        m

  unfoldable pub run_touch : List (List ℕ) → Machine → Run After
  unfolding with_init fat16_touch report say
  run_touch [] m = reply "\nUsage: touch <file>\n" m
  run_touch (path ∷ args) m =
      with_init (λ m. report "\nFile created.\n" "\nTouch failed.\n" (fat16_touch fuel m.fs path) m)
        m

  -- `mkdir -p` on what stands behind the flag
  abbrev pub mkdir_p : List (List ℕ) → Machine → Run After
  mkdir_p [] m = reply "\nUsage: mkdir -p <path>\n" m
  mkdir_p (path ∷ args) m =
      report "\nDirectory tree created.\n" "\nmkdir -p failed.\n" (fat16_mkdir_p fuel m.fs path) m

  unfoldable pub run_mkdir : List (List ℕ) → Machine → Run After
  unfolding with_init fat16_mkdir fat16_mkdir_p report say
  run_mkdir [] m = reply "\nUsage: mkdir [-p] <path>\n" m
  run_mkdir (path ∷ args) m =
      with_init
        (λ m.
          if str_eq path (codes "-p")
          then mkdir_p args m
          else report "\nDirectory created.\n" "\nmkdir failed.\n" (fat16_mkdir fuel m.fs path) m)
        m

  -- `rm -r` and `rmdir -r` on what stands behind the flag, with their texts
  abbrev pub remove_flagged : String → String → String → List (List ℕ) → Machine → Run After
  remove_flagged usage good bad [] m = reply usage m
  remove_flagged usage good bad (path ∷ args) m = report good bad (fat16_rm_rf fuel m.fs path) m

  abbrev pub rm_text : Status → String
  rm_text one = "\nFile deleted.\n"
  rm_text zero_ = "\nrm failed.\n"
  rm_text minus_one = "\nrm: cannot remove directory. Use rm -r.\n"
  rm_text minus_two = "\nrm failed.\n"

  abbrev pub rmdir_text : Status → String
  rmdir_text one = "\nDirectory removed.\n"
  rmdir_text zero_ = "\nrmdir failed.\n"
  rmdir_text minus_one = "\nrmdir: not a directory.\n"
  rmdir_text minus_two = "\nrmdir: directory not empty.\n"

  -- the text for each of the results
  abbrev pub by_status : (Status → String) → Result → Machine → Run After
  by_status status_text result m =
      result >>= λ (status, d). reply (status_text status) (with_disk d m)

  unfoldable pub run_rm : List (List ℕ) → Machine → Run After
  unfolding with_init fat16_rm fat16_rm_rf report say
  run_rm [] m = reply "\nUsage: rm [-r] <file/dir>\n" m
  run_rm (path ∷ args) m =
      with_init
        (λ m.
          if str_eq path (codes "-r")
          then remove_flagged "\nUsage: rm -r <path>\n" "\nDeleted recursively.\n"
              "\nrm -r failed.\n" args m
          else by_status rm_text (fat16_rm fuel m.fs path) m)
        m

  unfoldable pub run_rmdir : List (List ℕ) → Machine → Run After
  unfolding with_init fat16_rmdir fat16_rm_rf report say
  run_rmdir [] m = reply "\nUsage: rmdir [-r] <dirname>\n" m
  run_rmdir (path ∷ args) m =
      with_init
        (λ m.
          if str_eq path (codes "-r")
          then remove_flagged "\nUsage: rmdir -r <path>\n" "\nDirectory removed recursively.\n"
              "\nrmdir -r failed.\n" args m
          else by_status rmdir_text (fat16_rmdir fuel m.fs path) m)
        m

  unfoldable pub run_write : List (List ℕ) → Machine → Run After
  unfolding with_init text_loop fat16_write_file report say
  run_write (path ∷ word ∷ words) m = text_loop (word ∷ words) [] >>= λ content.
      with_init
        (λ m.
          report "\nFile written.\n" "\nWrite failed.\n" (fat16_write_file fuel m.fs path content)
            m)
        m
  run_write _ m = reply "\nUsage: write <file> <text>\n" m

  unfoldable pub run_append : List (List ℕ) → Machine → Run After
  unfolding with_init text_loop fat16_append_file report say
  run_append (path ∷ word ∷ words) m = text_loop (word ∷ words) [] >>= λ content.
      with_init
        (λ m.
          report "\nAppended.\n" "\nAppend failed.\n" (fat16_append_file fuel m.fs path content) m)
        m
  run_append _ m = reply "\nUsage: append <file> <text>\n" m

  unfoldable pub run_cp : List (List ℕ) → Machine → Run After
  unfolding with_init fat16_cp report say
  run_cp (src ∷ dst ∷ args) m =
      with_init
        (λ m. fat16_cp fuel m.fs m.heap src dst >>= λ (result, h).
          report "\nCopied.\n" "\ncp failed.\n" (done result) (record m { heap = h }))
        m
  run_cp _ m = reply "\nUsage: cp <src> <dst>\n" m

  unfoldable pub run_mv : List (List ℕ) → Machine → Run After
  unfolding with_init fat16_mv report say
  run_mv (src ∷ dst ∷ args) m =
      with_init (λ m. report "\nMoved.\n" "\nmv failed.\n" (fat16_mv fuel m.fs src dst) m) m
  run_mv _ m = reply "\nUsage: mv <src> <dst>\n" m
