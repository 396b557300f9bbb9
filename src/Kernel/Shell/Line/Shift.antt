-- ===== src/Kernel/Shell/Line/Shift.antt =====
-- The loops that shift and copy the command buffer, as lists of its characters.
use astra_os.Base.{
  ℕ, zero, suc, ◌+◌, ◌-◌, ◌≤◌, ◌<◌, ◌≡◌, ◌⊎◌, ◌∙◌, refl, ap, arith, Bool-cases, inl, inr, ltb,
  ltb→lt, ltb→le, update, update_self, update_ne, List, [], ◌∷◌, ◌++◌, length, take, drop,
}
use astra_os.Kernel.Shell.State.{slice}
use astra_os.Kernel.Shell.Line.{shift_left, shift_right, copy_string}

module _ {ℓ} {A : Type ℓ} where
  pub length-slice : (f : ℕ → A) (i n : ℕ) → length (slice f i n) ≡ n
  unfolding slice
  length-slice f i zero = refl
  length-slice f i (suc n) = ap suc (length-slice f (i + 1) n)

  pub slice_at : (f : ℕ → A) (m n i j : ℕ) → m ≡ n → i ≡ j → slice f i m ≡ slice f j n
  slice_at f m n i j d e = ap (slice f i) d ∙ ap (λ k. slice f k n) e

  -- equal characters, perhaps at other indices
  pub slice-same :
      (f g : ℕ → A) (i j n : ℕ)
      → ((k : ℕ) → k < n → f (i + k) ≡ g (j + k))
      → slice f i n ≡ slice g j n
  unfolding slice
  slice-same f g i j zero same = refl
  slice-same f g i j (suc n) same =
      let here : f i ≡ g j = ap f (omega arith) ∙ same 0 (omega arith) ∙ ap g (omega arith) in
      ap (λ c. c ∷ slice f (i + 1) n) here
      ∙ ap (g j ∷◌) (
          slice-same f g (i + 1) (j + 1) n
            (λ k lt. ap f (omega arith) ∙ same (k + 1) (omega arith) ∙ ap g (omega arith)))

  pub slice-append : (f : ℕ → A) (i m n : ℕ) → slice f i (m + n) ≡ slice f i m ++ slice f (i + m) n
  unfolding slice
  slice-append f i zero n = slice_at f (0 + n) n i (i + 0) (omega arith) (omega arith)
  slice-append f i (suc m) n =
      slice_at f (suc m + n) (suc (m + n)) i i (omega arith) refl
      ∙ ap (f i ∷◌) (
          slice-append f (i + 1) m n
          ∙ ap (slice f (i + 1) m ++◌) (slice_at f n n (i + 1 + m) (i + suc m) refl (omega arith)))

  pub take-slice : (f : ℕ → A) (i m n : ℕ) → m ≤ n → take m (slice f i n) ≡ slice f i m
  unfolding slice
  take-slice f i zero n le = refl
  take-slice f i (suc m) zero le = absurd (omega arith)
  take-slice f i (suc m) (suc n) le = ap (f i ∷◌) (take-slice f (i + 1) m n (omega arith))

  pub drop-slice : (f : ℕ → A) (i m n : ℕ) → drop m (slice f i n) ≡ slice f (i + m) (n - m)
  unfolding slice
  drop-slice f i zero n = slice_at f n (n - 0) i (i + 0) (omega arith) (omega arith)
  drop-slice f i (suc m) zero = slice_at f 0 (0 - suc m) (i + suc m) (i + suc m) (omega arith) refl
  drop-slice f i (suc m) (suc n) =
      drop-slice f (i + 1) m n
      ∙ slice_at f (n - m) (suc n - suc m) (i + 1 + m) (i + suc m) (omega arith) (omega arith)

  pub shift_left-before :
      (left i : ℕ) (buf : ℕ → A) (j : ℕ) → j < i → shift_left left i buf j ≡ buf j
  unfolding shift_left
  shift_left-before zero i buf j lt = refl
  shift_left-before (suc left) i buf j lt =
      shift_left-before left (i + 1) (update buf i (buf (i + 1))) j (omega arith)
      ∙ update_ne buf i (buf (i + 1)) j (omega arith)

  pub shift_left-inside :
      (left i : ℕ) (buf : ℕ → A) (k : ℕ)
      → k < left
      → shift_left left i buf (i + k) ≡ buf (i + k + 1)
  unfolding shift_left
  shift_left-inside zero i buf k lt = absurd (omega arith)
  shift_left-inside (suc left) i buf zero lt =
      let e : i + 0 ≡ i = omega arith in
      rw e (
        shift_left-before left (i + 1) (update buf i (buf (i + 1))) i (omega arith)
        ∙ update_self buf i (buf (i + 1)))
  shift_left-inside (suc left) i buf (suc k) lt =
      let e : i + suc k ≡ i + 1 + k = omega arith in
      rw e (
        shift_left-inside left (i + 1) (update buf i (buf (i + 1))) k (omega arith)
        ∙ update_ne buf i (buf (i + 1)) (i + 1 + k + 1) (omega arith))

-- outside of the `left` cells that end with cell `i`
pub shift_right-outside :
    (left i : ℕ) (buf : ℕ → ℕ) (j : ℕ)
    → left ≤ i
    → (i < j) ⊎ (j + left ≤ i)
    → shift_right left i buf j ≡ buf j
unfolding shift_right
shift_right-outside zero i buf j le out = refl
shift_right-outside (suc left) i buf j le out =
    shift_right-outside left (i - 1) (update buf i (buf (i - 1))) j (omega arith) (omega arith)
    ∙ update_ne buf i (buf (i - 1)) j (omega arith)

pub shift_right-inside :
    (left i : ℕ) (buf : ℕ → ℕ) (j : ℕ)
    → left ≤ i
    → j ≤ i
    → i < j + left
    → shift_right left i buf j ≡ buf (j - 1)
unfolding shift_right
shift_right-inside zero i buf j le to from = absurd (omega arith)
shift_right-inside (suc left) i buf j le to from = elim (Bool-cases (ltb j i)) [
  | inl h ↦
      let lt = ltb→lt j i h in
      shift_right-inside left (i - 1) (update buf i (buf (i - 1))) j (omega arith) (omega arith)
        (omega arith)
      ∙ update_ne buf i (buf (i - 1)) (j - 1) (omega arith)
  | inr h ↦
      let e : j ≡ i = omega (arith, ltb→le j i h) in
      shift_right-outside left (i - 1) (update buf i (buf (i - 1))) j (omega arith)
        (inl (omega arith))
      ∙ rw e (update_self buf i (buf (i - 1)))
]

pub copy_string-before :
    (i : ℕ) (cs : List ℕ) (buf : ℕ → ℕ) (j : ℕ) → j < i → copy_string i cs buf j ≡ buf j
unfolding copy_string
copy_string-before i [] buf j lt = update_ne buf i 0 j (omega arith)
copy_string-before i (c ∷ cs) buf j lt =
    copy_string-before (i + 1) cs (update buf i c) j (omega arith)
    ∙ update_ne buf i c j (omega arith)

-- the copy reads as the string
pub slice-copy_string :
    (i : ℕ) (cs : List ℕ) (buf : ℕ → ℕ) → slice (copy_string i cs buf) i (length cs) ≡ cs
unfolding copy_string slice
slice-copy_string i [] buf = refl
slice-copy_string i (c ∷ cs) buf =
    ap (λ d. d ∷ slice (copy_string (i + 1) cs (update buf i c)) (i + 1) (length cs))
      (copy_string-before (i + 1) cs (update buf i c) i (omega arith) ∙ update_self buf i c)
    ∙ ap (c ∷◌) (slice-copy_string (i + 1) cs (update buf i c))
