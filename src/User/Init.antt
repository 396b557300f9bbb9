-- ===== src/User/Init.antt =====
-- src/user/init.c: the program that the kernel carries itself.
use Prim.Native.String.{String}
use astra_os.Base.{ℕ, ◌+◌, ◌==◌, if◌then◌else◌}
use astra_os.User.Program.{Program, ret, store, ◌>>◌}
use astra_os.User.Api.{
  api_write, api_clear, api_exit, api_open, api_read, api_writefd, api_close, api_getcwd,
}
use astra_os.User.Apps.{negative}

module _ (at : String → ℕ) (cwd buf : ℕ) where
  -- a message and `sys_exit(0)`
  unfoldable pub give_up : String → Program ℕ
  unfolding api_write api_exit
  give_up message = api_write (at message) >> λ _. api_exit 0

  -- the same with a descriptor that is closed in between
  unfoldable pub give_up_open : String → ℕ → Program ℕ
  unfolding api_write api_close api_exit
  give_up_open message fd = api_write (at message) >> λ _. api_close fd >> λ _. api_exit 0

  unfoldable pub show_cwd : Program ℕ
  unfolding api_getcwd api_write
  show_cwd = api_getcwd cwd 128 >> λ got.
      let show = api_write (at "cwd: ") >> λ _. api_write cwd >> λ _. api_write (at "\n") in
      if got == 0 then show else ret 0

  unfoldable pub read_back : Program ℕ
  unfolding api_open api_read api_write api_close api_exit give_up give_up_open
  read_back = api_open (at "/HELLO.TXT") 0 >> λ fdr.
      let reading = api_read fdr buf 95 >> λ n.
      let show = store (buf + n) 0 (
        api_write (at "read back: ") >> λ _.
        api_write buf >> λ _. api_close fdr >> λ _. api_exit 0) in
      if negative n then give_up_open "read failed\n" fdr else show in
      if negative fdr then give_up "open(r) failed\n" else reading

  unfoldable pub user_init : Program ℕ
  unfolding api_clear api_write api_open api_writefd api_close show_cwd read_back give_up
      give_up_open
  user_init = api_clear >> λ _. api_write (at "Hello from USER MODE!\n") >> λ _. show_cwd >> λ _.
      api_open (at "/HELLO.TXT") 13 >> λ fdw.
      let writing = api_writefd fdw (at "AstraOS usermode write works.\n") 30 >> λ n.
      let finish = api_close fdw >> λ _. read_back in
      if negative n then give_up_open "writefd failed\n" fdw else finish in
      if negative fdw then give_up "open(w) failed\n" else writing
