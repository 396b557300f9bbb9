-- ===== src/Kernel/Shell/Input/Past.antt =====
-- The history within its array.
use mathlib.Core.Path.{subst}
use astra_os.Base.{
  ℕ, ◌+◌, ◌≤◌, ◌<◌, ◌≡◌, ◌≢◌, sym, arith, false, ◌==◌, leb, leb→le, leb→lt, if_ind, List, [], ◌∷◌,
}
use astra_os.Kernel.Shell.State.{Shell}
use astra_os.Kernel.Shell.Line.Bounds.{IsText}
use astra_os.Kernel.Shell.History.{make_room, history_add}
use astra_os.Kernel.Shell.History.Kept.{move_history-at}

-- at most 10 commands, each of them a text that is not empty, and an index among or behind them
pub record IsPast (h : ℕ → List ℕ) (count index : ℕ) : Type 0 where
  pub few : count ≤ 10
  pub indexed : index ≤ count
  pub commands : (i : ℕ) → i < count → IsText (h i) × (h i ≢ [])

abbrev pub HasPast : Shell → Type 0
HasPast s = IsPast s.history s.history_count s.history_index

-- room for one more command
abbrev HasRoom : (ℕ → List ℕ) → ℕ → Type 0
HasRoom h n = (n ≤ 9) × ((i : ℕ) → i < n → IsText (h i) × (h i ≢ []))

make_room-HasRoom :
    (s : Shell) → HasPast s → HasRoom (make_room s).history (make_room s).history_count
unfolding make_room
make_room-HasRoom s h =
    if_ind (λ b (t : Shell). HasRoom t.history t.history_count) (leb 10 s.history_count)
      (λ full. (
        omega arith,
        λ i lt.
            subst (λ cmd. IsText cmd × (cmd ≢ [])) (sym (move_history-at 9 s.history i lt))
              (h.commands (i + 1) (omega (arith, leb→le 10 s.history_count full))),
      ))
      (λ room. (omega (arith, leb→lt 10 s.history_count room), h.commands))

before_last : (i n : ℕ) → i < n + 1 → (i == n) ≡ false → i < n
before_last i n lt h = ground arith

pub history_add-HasPast :
    (cmd : List ℕ) (s : Shell) → IsText cmd → HasPast s → HasPast (history_add cmd s)
unfolding history_add
history_add-HasPast [] s t h = h
history_add-HasPast (c ∷ cmd) s t h =
    let (few, kept) = make_room-HasRoom s h in
    record {
      few = omega arith;
      indexed = omega arith;
      commands = λ i lt.
          if_ind (λ b (x : List ℕ). IsText x × (x ≢ [])) (i == (make_room s).history_count)
            (λ same. (t, λ e. cc))
            (λ differs. kept i (before_last i (make_room s).history_count lt differs));
    }
