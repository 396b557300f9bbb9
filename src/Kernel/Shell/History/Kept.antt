-- ===== src/Kernel/Shell/History/Kept.antt =====
-- What the history keeps, and how a command comes back.
use astra_os.Base.{
  ℕ, zero, suc, ◌+◌, ◌-◌, ◌≤◌, ◌<◌, ◌≡◌, ◌∙◌, refl, sym, ap, arith, leb, leb→le, leb→lt, if_ind,
  update, update_self, update_ne, List, [], ◌∷◌, ◌++◌, drop,
}
use astra_os.Kernel.Shell.State.{Shell, slice}
use astra_os.Kernel.Shell.Line.{shift_left}
use astra_os.Kernel.Shell.Line.Shift.{
  slice-same, slice-append, drop-slice, shift_left-inside, slice_at,
}
use astra_os.Kernel.Shell.History.{move_history, make_room, history_add}

-- the commands that are kept, the oldest first
abbrev pub commands : Shell → List (List ℕ)
commands s = slice s.history 0 s.history_count

move_history-shift_left :
    (left i : ℕ) (h : ℕ → List ℕ) → move_history left (i + 1) h ≡ shift_left left i h
unfolding move_history shift_left
move_history-shift_left zero i h = refl
move_history-shift_left (suc left) i h =
    ap (λ k. move_history left (i + 1 + 1) (update h k (h (i + 1)))) (omega arith)
    ∙ move_history-shift_left left (i + 1) (update h i (h (i + 1)))

pub move_history-at :
    (left : ℕ) (h : ℕ → List ℕ) (i : ℕ) → i < left → move_history left 1 h i ≡ h (i + 1)
move_history-at left h i lt =
    ap (λ f. f i) (move_history-shift_left left 0 h)
    ∙ ap (shift_left left 0 h) (omega arith)
    ∙ shift_left-inside left 0 h i lt
    ∙ ap h (omega arith)

-- the shift drops the oldest command
slice-move_history :
    (left : ℕ) (h : ℕ → List ℕ)
    → slice (move_history left 1 h) 0 left ≡ drop 1 (slice h 0 (left + 1))
slice-move_history left h =
    ap (λ f. slice f 0 left) (move_history-shift_left left 0 h)
    ∙ slice-same (shift_left left 0 h) h 0 (0 + 1) left
        (λ k lt. shift_left-inside left 0 h k lt ∙ ap h (omega arith))
    ∙ slice_at h left (left + 1 - 1) (0 + 1) (0 + 1) (omega arith) refl
    ∙ sym (drop-slice h 0 1 (left + 1))

-- one more command behind those that are kept
slice-update :
    (h : ℕ → List ℕ) (n : ℕ) (cmd : List ℕ)
    → slice (update h n cmd) 0 (n + 1) ≡ slice h 0 n ++ cmd ∷ []
slice-update h n cmd =
    slice-append (update h n cmd) 0 n 1
    ∙ ap (◌++ slice (update h n cmd) (0 + n) 1)
        (slice-same (update h n cmd) h 0 0 n (λ k lt. update_ne h n cmd (0 + k) (omega arith)))
    ∙ ap (slice h 0 n ++◌)
        (unfold slice in ap (λ c. c ∷ []) (ap (update h n cmd) (omega arith) ∙ update_self h n cmd))

commands-make_room :
    (s : Shell)
    → s.history_count ≤ 10
    → commands (make_room s) ≡ drop (s.history_count + 1 - 10) (commands s)
unfolding make_room
commands-make_room s le =
    if_ind (λ b (t : Shell). commands t ≡ drop (s.history_count + 1 - 10) (commands s))
      (leb 10 s.history_count)
      (λ h.
        let full : s.history_count ≡ 10 = omega (arith, leb→le 10 s.history_count h) in
        slice-move_history 9 s.history
        ∙ sym (ap (λ n. drop (n + 1 - 10) (slice s.history 0 n)) full))
      (λ h.
        let roomy : 0 ≡ s.history_count + 1 - 10 = omega (arith, leb→lt 10 s.history_count h) in
        ap (λ n. drop n (commands s)) roomy)

-- A command that is not empty is added as the last of those that are kept. They are the last 10
-- commands, so the oldest goes when there are 10.
pub commands-history_add :
    (c : ℕ) (cmd : List ℕ) (s : Shell)
    → s.history_count ≤ 10
    → commands (history_add (c ∷ cmd) s)
      ≡ drop (s.history_count + 1 - 10) (commands s) ++ (c ∷ cmd) ∷ []
unfolding history_add
commands-history_add c cmd s le =
    slice-update (make_room s).history (make_room s).history_count (c ∷ cmd)
    ∙ ap (◌++ (c ∷ cmd) ∷ []) (commands-make_room s le)
