-- ===== src/Kernel/Shell/Line/Bounds.antt =====
-- The line and its cursor within the command buffer, and the edits that keep them there.
use mathlib.Core.Path.{subst, sym}
use astra_os.Base.{
  ℕ, zero, suc, ◌+◌, ◌-◌, ◌≤◌, ◌<◌, ◌≡◌, refl, ap, arith, false, ◌||◌, ltb, ltb→lt, leb, leb→lt,
  if_ind, List, [], ◌∷◌, ◌++◌, length, length-append, length-drop, take, take-all, drop, All,
}
use astra_os.Kernel.Shell.Line.Edit.{Line, left, right, delete, back, insert, without}

-- printable characters that fit a buffer of 256 with the NUL
pub record IsText (cs : List ℕ) : Type 0 where
  pub fits : length cs ≤ 255
  pub printable : All (λ c. (32 ≤ c) × (c ≤ 126)) cs

-- the cursor is within a line that fits
pub record IsLine (l : Line) : Type 0 where
  pub within : l.cursor ≤ length l.chars
  pub chars : IsText l.chars

module _ {ℓ} (P : ℕ → Type ℓ) where
  All-take : (n : ℕ) (cs : List ℕ) → All P cs → All P (take n cs)
  All-take zero cs all = tt
  All-take (suc n) [] all = tt
  All-take (suc n) (c ∷ cs) (p, all) = (p, All-take n cs all)

  All-drop : (n : ℕ) (cs : List ℕ) → All P cs → All P (drop n cs)
  All-drop zero cs all = all
  All-drop (suc n) [] all = tt
  All-drop (suc n) (c ∷ cs) (p, all) = All-drop n cs all

  All-append : (cs ds : List ℕ) → All P cs → All P ds → All P (cs ++ ds)
  All-append [] ds hc hd = hd
  All-append (c ∷ cs) ds (p, hc) hd = (p, All-append cs ds hc hd)

length-take : (n : ℕ) (cs : List ℕ) → n ≤ length cs → length (take n cs) ≡ n
length-take zero cs le = refl
length-take (suc n) [] le = absurd (omega arith)
length-take (suc n) (c ∷ cs) le = ap suc (length-take n cs (omega arith))

length-without : (i : ℕ) (cs : List ℕ) → i < length cs → length (without i cs) + 1 ≡ length cs
length-without i cs lt = omega (
  arith,
  length-append (take i cs) (drop (i + 1) cs),
  length-take i cs (omega arith),
  length-drop (i + 1) cs,
)

IsText-without : (i : ℕ) (cs : List ℕ) → i < length cs → IsText cs → IsText (without i cs)
IsText-without i cs lt t = record {
  fits = omega (arith, length-without i cs lt, t.fits);
  printable =
      All-append _ (take i cs) (drop (i + 1) cs) (All-take _ i cs t.printable)
        (All-drop _ (i + 1) cs t.printable);
}

length-inserted :
    (i c : ℕ) (cs : List ℕ) → i ≤ length cs → length (take i cs ++ c ∷ drop i cs) ≡ length cs + 1
length-inserted i c cs le =
    omega (arith, length-append (take i cs) (c ∷ drop i cs), length-take i cs le, length-drop i cs)

printable_range : (c : ℕ) → (ltb c 32 || ltb 126 c) ≡ false → (32 ≤ c) × (c ≤ 126)
printable_range c h = ground arith

pub left-IsLine : (l : Line) → IsLine l → IsLine (left l)
left-IsLine l h = record { within = omega (arith, h.within); chars = h.chars }

pub right-IsLine : (l : Line) → IsLine l → IsLine (right l)
right-IsLine l h =
    if_ind (λ b (k : Line). IsLine k) (ltb l.cursor (length l.chars))
      (λ lt. record {
        within = omega (arith, ltb→lt l.cursor (length l.chars) lt);
        chars = h.chars;
      })
      (λ _. h)

pub delete-IsLine : (l : Line) → IsLine l → IsLine (delete l)
delete-IsLine l h =
    if_ind (λ b (k : Line). IsLine k) (ltb l.cursor (length l.chars))
      (λ lt.
        let inside = ltb→lt l.cursor (length l.chars) lt in
        record {
          within = omega (arith, length-without l.cursor l.chars inside);
          chars = IsText-without l.cursor l.chars inside h.chars;
        })
      (λ _. h)

pub back-IsLine : (l : Line) → IsLine l → IsLine (back l)
back-IsLine l h =
    if_ind (λ b (k : Line). IsLine k) (ltb 0 l.cursor)
      (λ lt.
        let some_left = ltb→lt 0 l.cursor lt in
        let inside : l.cursor - 1 < length l.chars = omega (arith, h.within) in
        record {
          within = omega (arith, length-without (l.cursor - 1) l.chars inside);
          chars = IsText-without (l.cursor - 1) l.chars inside h.chars;
        })
      (λ _. h)

pub insert-IsLine : (c : ℕ) (l : Line) → IsLine l → IsLine (insert c l)
insert-IsLine c l h =
    if_ind (λ b (k : Line). IsLine k) (ltb c 32 || ltb 126 c) (λ _. h)
      (λ ok.
        if_ind (λ b (k : Line). IsLine k) (leb 255 (length l.chars)) (λ _. h)
          (λ room.
            let longer = length-inserted l.cursor c l.chars h.within in
            record {
              within = omega (arith, longer, h.within);
              chars = record {
                fits = omega (arith, longer, leb→lt 255 (length l.chars) room);
                printable =
                    All-append _ (take l.cursor l.chars) (c ∷ drop l.cursor l.chars)
                      (All-take _ l.cursor l.chars h.chars.printable)
                      (printable_range c ok, All-drop _ l.cursor l.chars h.chars.printable);
              };
            }))

-- a command that is loaded whole, with the cursor behind it
pub loaded-IsLine :
    (cmd : List ℕ)
    → IsText cmd
    → IsLine (record { chars = take 255 cmd; cursor = length (take 255 cmd) })
loaded-IsLine cmd t =
    subst (λ cs. IsLine (record { chars = cs; cursor = length cs })) (sym (take-all 255 cmd t.fits))
      (record { within = omega arith; chars = t })
