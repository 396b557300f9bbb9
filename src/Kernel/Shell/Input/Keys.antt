-- ===== src/Kernel/Shell/Input/Keys.antt =====
-- The keys that edit the line, as edits of a list of characters; and the command that comes back.
use mathlib.Core.Path.{subst}
use astra_os.Base.{
  ℕ, ◌+◌, ◌-◌, ◌≤◌, ◌≡◌, ◌≢◌, ◌∙◌, refl, sym, ap, arith, Bool, true, false, ◌==◌, ne→==, ==→eq, ltb,
  ltb→le, ◌⊎◌, if_ind, List-cases, inl, inr, if◌then◌else◌, update_self, u8, List, [], ◌∷◌, length,
  take, take-all, Run, done, fault, out_of_fuel, bind-done,
}
use astra_os.Kernel.Shell.State.{Machine, Shell, text}
use astra_os.Kernel.Shell.Line.{key_left, key_right, key_delete, key_backspace, key_char}
use astra_os.Kernel.Shell.Line.Edit.{Line, line, left, right, delete, back, insert}
use astra_os.Kernel.Shell.Line.Stored.{length-text}
use astra_os.Kernel.Shell.Line.Keys.{
  line-key_left, line-key_right, line-key_delete, line-key_backspace, line-key_char,
  line-load_command,
}
use astra_os.Kernel.Shell.History.{make_room, history_add, key_up}
use astra_os.Kernel.Shell.Command.Report.{After, ready, stopped}
use astra_os.Kernel.Shell.Input.{
  Turn, waiting, halted, next_turn, shell_prompt, key_enter, shell_handle_input,
}

-- the keys but for Enter and the arrows up and down
unfoldable pub key_edit : ℕ → Line → Line
key_edit key l =
    if key == 1003
    then left l
    else if key == 1004
    then right l
    else if key == 1005
    then delete l
    else if u8 key == 8
    then back l
    else insert (u8 key) l

-- the turn ends with a shell whose line is `l`
abbrev pub WaitsWith : Line → Run Turn → Type 0
WaitsWith l r = (s : Shell) × (r ≡ done (waiting s)) × (line s ≡ l)

key_up-last :
    (s : Shell) (n : ℕ)
    → s.history_count ≡ n + 1
    → s.history_index ≡ n + 1
    → length (s.history n) ≤ 255
    → line (key_up s) ≡ record { chars = s.history n; cursor = length (s.history n) }
unfolding key_up
key_up-last s n count index short =
    if_ind (λ b (t : Shell). line t ≡ last) (s.history_count == 0)
      (λ h. absurd (omega (arith, ==→eq s.history_count 0 h)))
      (λ h.
        if_ind (λ b (t : Shell). line t ≡ last) (ltb 0 s.history_index)
          (λ some_left.
            line-load_command (s.history (s.history_index - 1))
              (record s { history_index = s.history_index - 1 })
            ∙ ap
                (λ i. record {
                  chars = take 255 (s.history i);
                  cursor = length (take 255 (s.history i));
                })
                (omega arith)
            ∙ ap (λ cs. record { chars = cs; cursor = length cs })
                (take-all 255 (s.history n) short))
          (λ none_left. absurd (omega (arith, ltb→le 0 s.history_index none_left))))
  where
    last : Line
    last = record { chars = s.history n; cursor = length (s.history n) }

-- the command that was added is the one that comes back at the next prompt
key_up-history_add :
    (c : ℕ) (cmd : List ℕ) (s : Shell) (m : Machine)
    → length (c ∷ cmd) ≤ 255
    → line (key_up (shell_prompt (record (history_add (c ∷ cmd) s) { machine = m })))
      ≡ record { chars = c ∷ cmd; cursor = length (c ∷ cmd) }
unfolding shell_prompt history_add
key_up-history_add c cmd s m short =
    let added = update_self (make_room s).history (make_room s).history_count (c ∷ cmd) in
    key_up-last (shell_prompt (record (history_add (c ∷ cmd) s) { machine = m }))
      (make_room s).history_count refl refl (subst (λ cs. length cs ≤ 255) (sym added) short)
    ∙ ap (λ cs. record { chars = cs; cursor = length cs }) added

shell_of : Shell → Run Turn → Shell
shell_of s (done (waiting t)) = t
shell_of s (done (halted m)) = s
shell_of s fault = s
shell_of s out_of_fuel = s

waiting-inj : {s t : Shell} → ◌≡◌ {A = Run Turn} (done (waiting s)) (done (waiting t)) → s ≡ t
unfolding shell_of
waiting-inj {s = s} e = ap (shell_of s) e

waits_if :
    (b : Bool) {l k : Line} {r q : Run Turn}
    → WaitsWith l r
    → WaitsWith k q
    → WaitsWith (if b then l else k) (if b then r else q)
waits_if true hl hk = hl
waits_if false hl hk = hk

waits_else :
    (b : Bool) {l : Line} (r : Run Turn) {q : Run Turn}
    → b ≡ false
    → WaitsWith l q
    → WaitsWith l (if b then r else q)
waits_else true r h w = cc
waits_else false r h w = w

module _ (fuel kernel_start kernel_end : ℕ) (user_mode : ℕ → ℕ → Machine → Run (ℕ × Machine)) where
  -- A key other than Enter and the arrows up and down always comes to an end, and edits the line
  -- as a list of characters at the cursor: the arrows move the cursor within the line; Delete and
  -- Backspace take out the character at and before the cursor; a printable character is put in at
  -- the cursor, if the line has fewer than 255; and any other key changes nothing. The cursor is
  -- within the line before.
  pub shell_handle_input-line :
      (key : ℕ) (s : Shell)
      → s.cursor_pos ≤ s.buffer_length
      → key ≢ 1001
      → key ≢ 1002
      → u8 key ≢ 10
      → WaitsWith
          (key_edit key (line s))
          (shell_handle_input fuel kernel_start kernel_end user_mode key s)
  unfolding shell_handle_input key_edit
  shell_handle_input-line key s le up down enter = waits_else (key == 1001) _ (ne→== key 1001 up) (
      waits_else (key == 1002) _ (ne→== key 1002 down) (
        waits_if (key == 1003) (key_left s, refl, line-key_left s)
          (waits_if (key == 1004) (key_right s, refl, line-key_right s)
            (waits_if (key == 1005) (key_delete s, refl, line-key_delete s)
              (waits_else (u8 key == 10) _ (ne→== (u8 key) 10 enter) (
                waits_if (u8 key == 8) (key_backspace s, refl, line-key_backspace s le)
                  (key_char (u8 key) s, refl, line-key_char (u8 key) s le)))))))

  -- The command line that Enter runs comes back with the arrow up, with the cursor behind its
  -- last character, if the line is not empty and the command returns.
  pub key_up-key_enter :
      (s t : Shell)
      → s.buffer_length ≤ 255
      → text s ≢ []
      → key_enter fuel kernel_start kernel_end user_mode s ≡ done (waiting t)
      → line (key_up t) ≡ record { chars = text s; cursor = s.buffer_length }
  unfolding key_enter
  key_up-key_enter s t short some_text e =
      let (after, ran, next) = bind-done _ (λ after. done (next_turn kept after)) e in
      last_turn after (List-cases (text s)) next
    where
      kept : Shell
      kept = history_add (text s) s

      last_turn :
          (after : After)
          → (text s ≡ []) ⊎ ((c : ℕ) × (cs : List ℕ) × (text s ≡ c ∷ cs))
          → ◌≡◌ {A = Run Turn} (done (next_turn kept after)) (done (waiting t))
          → line (key_up t) ≡ record { chars = text s; cursor = s.buffer_length }
      last_turn (stopped m) cases same = cc
      last_turn (ready m) (inl nothing) same = absurd (some_text nothing)
      last_turn (ready m) (inr (c, cs, found)) same =
          sym (ap (λ u. line (key_up u)) (waiting-inj same))
          ∙ ap (λ cmd. line (key_up (shell_prompt (record (history_add cmd s) { machine = m }))))
              found
          ∙ key_up-history_add c cs s m (omega (arith, ap length found, length-text s))
          ∙ sym (ap (λ cmd. record { chars = cmd; cursor = length cmd }) found)
          ∙ ap (λ n. record { chars = text s; cursor = n }) (length-text s)
