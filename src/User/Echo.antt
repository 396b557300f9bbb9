-- ===== src/User/Echo.antt =====
-- user/apps/echo.c: what the program prints.
use Prim.Native.String.{String}
use astra_os.Base.{
  ℕ, ◌≡◌, ◌≢◌, ◌∙◌, refl, ap, arith, false, ◌==◌, codes, List, [], ◌∷◌, ◌++◌, Run, done,
}
use astra_os.Kernel.Bytes.{Mem}
use astra_os.Kernel.Syscall.{Shown, text, cleared, Sys, c_string}
use astra_os.Kernel.Syscall.Calls.{syscall_handler, sys_write}
use astra_os.Kernel.Shell.Token.Joined.{join_words}
use astra_os.User.Program.{Program, ret, ◌>>◌, Ended, returned, run}
use astra_os.User.Api.{api_write}
use astra_os.User.Apps.{echo_loop, echo_main}

-- the characters that reach the screen
abbrev pub characters : List Shown → List ℕ
characters [] = []
characters (text cs ∷ shown) = cs ++ characters shown
characters (cleared ∷ shown) = characters shown

-- pointers that are not NULL, and the strings that stand there
abbrev pub AreStrings : ℕ → Mem → List ℕ → List (List ℕ) → Type 0
AreStrings fuel m [] [] = Unit
AreStrings fuel m (a ∷ rest) (t ∷ ts) =
    (a ≢ 0) × (c_string fuel m a ≡ done t) × AreStrings fuel m rest ts
AreStrings fuel m [] (t ∷ ts) = ⊥
AreStrings fuel m (a ∷ rest) [] = ⊥

-- the run ends with 0 and has shown these characters, and changed nothing else
abbrev pub Prints : Run (Ended ℕ) → Sys → List ℕ → Type 0
Prints r s cs =
    (shown : List Shown) × (r ≡ done (returned 0 (record s { screen = s.screen ++ shown })))
    × (characters shown ≡ cs)

append_assoc : {A : Type 0} (xs ys zs : List A) → (xs ++ ys) ++ zs ≡ xs ++ (ys ++ zs)
append_assoc [] ys zs = refl
append_assoc (x ∷ xs) ys zs = ap (x ∷◌) (append_assoc xs ys zs)

module _ (fuel : ℕ) (at : String → ℕ) (buf : ℕ) (m : Mem) where
  -- the machine's state with a text shown
  abbrev showing : List ℕ → Sys → Sys
  showing cs s = record s { screen = s.screen ++ text cs ∷ [] }

  write_step :
      (a : ℕ) (cs : List ℕ) (f : ℕ → Program ℕ) (s : Sys)
      → c_string fuel s.mem a ≡ done cs
      → run fuel (api_write a >> f) s ≡ run fuel (f 0) (showing cs s)
  unfolding run ◌>>◌ api_write syscall_handler sys_write
  write_step a cs f s e = rw e refl

  Prints-showing :
      (r : Run (Ended ℕ)) (cs more : List ℕ) (s : Sys)
      → Prints r (showing cs s) more
      → Prints r s (cs ++ more)
  Prints-showing r cs more s (shown, e, same) = (
    text cs ∷ shown,
    e
        ∙ ap (λ screen. done (returned 0 (record s { screen = screen })))
            (append_assoc s.screen (text cs ∷ []) shown),
    ap (cs ++◌) same,
  )

  -- a text is shown, and then what the rest of the program shows
  Prints-write :
      (a : ℕ) (cs more : List ℕ) (f : ℕ → Program ℕ) (s : Sys)
      → c_string fuel s.mem a ≡ done cs
      → Prints (run fuel (f 0) (showing cs s)) (showing cs s) more
      → Prints (run fuel (api_write a >> f) s) s (cs ++ more)
  Prints-write a cs more f s e rest =
      let (shown, run_rest, same) = Prints-showing (run fuel (f 0) (showing cs s)) cs more s rest in
      (shown, write_step a cs f s e ∙ run_rest, same)

  module _ (newline : c_string fuel m (at "\n") ≡ done (codes "\n"))
      (blank : c_string fuel m (at " ") ≡ done (codes " ")) where
    end_line :
        (s : Sys)
        → s.mem ≡ m
        → Prints (run fuel (api_write (at "\n") >> λ _. ret 0) s) s (codes "\n")
    unfolding run
    end_line s same =
        let nl = ap (λ m. c_string fuel m (at "\n")) same ∙ newline in
        (text (codes "\n") ∷ [], write_step (at "\n") (codes "\n") (λ _. ret 0) s nl, refl)

    echo_loop-Prints :
        (args : List ℕ) (texts : List (List ℕ)) (s : Sys)
        → s.mem ≡ m
        → AreStrings fuel m args texts
        → Prints (run fuel (echo_loop at buf args) s) s (join_words texts ++ codes "\n")
    unfolding echo_loop join_words
    echo_loop-Prints [] [] s same h = end_line s same
    echo_loop-Prints (a ∷ []) (t ∷ []) s same (ne, e, h) =
        let there : (a == 0) ≡ false = ground arith in
        let here = ap (λ m. c_string fuel m a) same ∙ e in
        rw there (
          Prints-write a t (codes "\n") (λ _. api_write (at "\n") >> λ _. ret 0) s here
            (end_line (showing t s) same))
    echo_loop-Prints (a ∷ b ∷ args) (t ∷ u ∷ texts) s same (ne, e, h) =
        let there : (a == 0) ≡ false = ground arith in
        let here = ap (λ m. c_string fuel m a) same ∙ e in
        let gap = ap (λ m. c_string fuel m (at " ")) same ∙ blank in
        let later = echo_loop at buf (b ∷ args) in
        let more = join_words (u ∷ texts) ++ codes "\n" in
        rw (there, append_assoc t (codes " " ++ join_words (u ∷ texts)) (codes "\n"))
          (Prints-write a t (codes " " ++ more) (λ _. api_write (at " ") >> λ _. later) s here
            (Prints-write (at " ") (codes " ") more (λ _. later) (showing t s) gap
              (echo_loop-Prints (b ∷ args) (u ∷ texts) (showing (codes " ") (showing t s)) same h)))
    echo_loop-Prints [] (t ∷ texts) s same h = absurd h
    echo_loop-Prints (a ∷ args) [] s same h = absurd h
    echo_loop-Prints (a ∷ []) (t ∷ u ∷ texts) s same (ne, e, h) = absurd h
    echo_loop-Prints (a ∷ b ∷ args) (t ∷ []) s same (ne, e, h) = absurd h

-- `echo` shows its arguments with a space between each two and a newline behind them, whatever they
-- are and however many, returns 0 and changes nothing else, if the pointers of `argv` behind its own
-- name and the two literals point to strings whose NULs are met within the fuel.
pub echo_main-join_words :
    (fuel : ℕ) (at : String → ℕ) (buf name : ℕ) (args : List ℕ) (texts : List (List ℕ)) (s : Sys)
    → c_string fuel s.mem (at "\n") ≡ done (codes "\n")
    → c_string fuel s.mem (at " ") ≡ done (codes " ")
    → AreStrings fuel s.mem args texts
    → (shown : List Shown) × (run fuel (echo_main at buf (name ∷ args)) s
        ≡ done (returned 0 (record s { screen = s.screen ++ shown })))
      × (characters shown ≡ join_words texts ++ codes "\n")
unfolding echo_main
echo_main-join_words fuel at buf name args texts s newline blank strings =
    echo_loop-Prints fuel at buf s.mem newline blank args texts s refl strings
