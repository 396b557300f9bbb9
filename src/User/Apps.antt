-- ===== src/User/Apps.antt =====
-- user/apps: the example programs, with `user_main` and the exit of user/start.asm.
use Prim.Native.String.{String}
use astra_os.Base.{ℕ, zero, suc, ◌+◌, ◌^◌, ◌==◌, leb, ltb, if◌then◌else◌, Bool, List, [], ◌∷◌}
use astra_os.User.Program.{Program, ret, load, store, ◌>>◌}
use astra_os.User.Api.{
  api_write, api_clear, api_exit, api_open, api_read, api_writefd, api_close, api_getcwd,
  api_listdir,
}

-- an `int` below 0
abbrev pub negative : ℕ → Bool
negative n = leb (2 ^ 31) n

-- `at` gives the address of a string literal, and `buf` is the array on the stack. `argv` holds
-- the addresses of the arguments.
module _ (at : String → ℕ) (buf : ℕ) where
  -- a message and a return of 1
  unfoldable pub complain : String → Program ℕ
  unfolding api_write
  complain message = api_write (at message) >> λ _. ret 1

  unfoldable pub pwd_main : Program ℕ
  unfolding api_getcwd api_write complain
  pwd_main = api_getcwd buf 128 >> λ got.
      let show = api_write buf >> λ _. api_write (at "\n") >> λ _. ret 0 in
      if negative got then complain "pwd: failed\n" else show

  -- the path: the argument, if there is one that is not empty
  unfoldable pub chosen_path : String → List ℕ → Program ℕ
  chosen_path default (_ ∷ arg ∷ argv) =
      if arg == 0 then ret (at default) else load arg λ c. ret (if c == 0 then at default else arg)
  chosen_path default _ = ret (at default)

  unfoldable pub ls_main : List ℕ → Program ℕ
  unfolding chosen_path api_listdir api_write complain
  ls_main argv = chosen_path "/" argv >> λ path. api_listdir path buf 1024 >> λ n.
      let show = store (buf + (if ltb n 1023 then n else 1023)) 0 (api_write buf >> λ _. ret 0) in
      if negative n then complain "ls: failed\n" else show

  -- the arguments from `argv[1]` on
  unfoldable pub echo_loop : List ℕ → Program ℕ
  unfolding api_write
  echo_loop [] = api_write (at "\n") >> λ _. ret 0
  echo_loop (arg ∷ []) =
      (if arg == 0 then ret 0 else api_write arg) >> λ _. api_write (at "\n") >> λ _. ret 0
  echo_loop (arg ∷ next ∷ argv) =
      let later = echo_loop (next ∷ argv) in
      (if arg == 0 then ret 0 else api_write arg) >> λ _. api_write (at " ") >> λ _. later

  unfoldable pub echo_main : List ℕ → Program ℕ
  unfolding echo_loop api_write
  echo_main [] = api_write (at "\n") >> λ _. ret 0
  echo_main (name ∷ argv) = echo_loop argv

  -- the endless loop of `cat`, for `rounds` rounds; `none_left` stands behind them
  unfoldable pub cat_loop : ℕ → ℕ → Program ℕ → Program ℕ
  unfolding api_read api_write api_close complain
  cat_loop zero fd none_left = none_left
  cat_loop (suc rounds) fd none_left =
      let later = cat_loop rounds fd none_left in
      api_read fd buf 255 >> λ n.
      let failed = api_write (at "cat: read failed\n") >> λ _. api_close fd >> λ _. ret 1 in
      let finished = api_close fd >> λ _. ret 0 in
      if negative n
      then failed
      else if n == 0
      then finished
      else store (buf + n) 0 (api_write buf >> λ _. later)

  unfoldable pub cat_main : ℕ → List ℕ → Program ℕ → Program ℕ
  unfolding chosen_path api_open cat_loop complain
  cat_main rounds argv none_left = chosen_path "/HELLO.TXT" argv >> λ path. api_open path 0 >> λ fd.
      if negative fd then complain "cat: open failed\n" else cat_loop rounds fd none_left

  unfoldable pub init_main : Program ℕ
  unfolding api_clear api_write api_open api_writefd api_close
  init_main = api_clear >> λ _. api_write (at "INIT.ELF: userland ready\n") >> λ _.
      api_open (at "/HELLO.TXT") 13 >> λ fd.
      let write =
        api_writefd fd (at "hello from /HELLO.TXT\n") 22 >> λ _. api_close fd >> λ _. ret 0 in
      if negative fd then ret 0 else write

-- `_start`: the exit with what `user_main` returns
unfoldable pub start_program : Program ℕ → Program ℕ
unfolding api_exit
start_program user_main = user_main >> api_exit
