-- ===== src/Kernel/Text/Compare.antt =====
-- The strings in memory as lists of characters, and the comparison of both.
use astra_os.Base.{
  ℕ, zero, suc, ◌+◌, ◌<◌, ◌≡◌, ◌≢◌, ◌∙◌, refl, ap, arith, Bool, true, false, ◌&&◌, ◌||◌, ◌==◌,
  ==→eq, if◌then◌else◌, sub32, if_ind, List, [], ◌∷◌, length, Run, done, ◌>>=◌,
}
use astra_os.Kernel.Bytes.{Mem}
use astra_os.Fs.Fat16.Path.{str_eq}
use astra_os.Kernel.Text.{strlen, signed, strcmp}

-- the characters of `cs` stand at an address, with a NUL behind them
abbrev pub HasString : Mem → ℕ → List ℕ → Type 0
HasString m a [] = m a ≡ 0
HasString m a (c ∷ cs) = (m a ≡ c) × (0 < c) × (c < 256) × HasString m (a + 1) cs

-- the result is a word that is 0 exactly if `b` holds
abbrev pub TestsFor : Bool → Run ℕ → Type 0
TestsFor b r = (n : ℕ) × (r ≡ done n) × ((n == 0) ≡ b)

differ : (c d : ℕ) → (c == d) ≡ false → c ≢ d
differ c d h e = ground arith

strcmp_differs : (c d : ℕ) → c < 256 → d < 256 → c ≢ d → (sub32 (signed c) (signed d) == 0) ≡ false
strcmp_differs c d hc hd differs = ground arith

-- a round of `strcmp` at the characters `c` and `d`, with the rest of the loop
abbrev round : ℕ → ℕ → Run ℕ → Run ℕ
round c d more =
    if (c == 0) || (d == 0)
    then done (sub32 (signed c) (signed d))
    else if c == d
    then more
    else done (sub32 (signed c) (signed d))

round-stop : (c d : ℕ) (more : Run ℕ) → c < 256 → d < 256 → c ≢ d → TestsFor false (round c d more)
round-stop c d more hc hd differs =
    let stopped : TestsFor false (done (sub32 (signed c) (signed d))) =
      (sub32 (signed c) (signed d), refl, strcmp_differs c d hc hd differs) in
    if_ind (λ b r. TestsFor false r) ((c == 0) || (d == 0)) (λ _. stopped)
      (λ _.
        if_ind (λ b r. TestsFor false r) (c == d) (λ h. absurd (differs (==→eq c d h)))
          (λ _. stopped))

round-both :
    (c d : ℕ) (more : Run ℕ) (b : Bool)
    → 0 < c
    → 0 < d
    → c < 256
    → d < 256
    → TestsFor b more
    → TestsFor ((c == d) && b) (round c d more)
round-both c d more b hc hd bc bd h =
    if_ind (λ _ r. TestsFor ((c == d) && b) r) ((c == 0) || (d == 0))
      (λ nul. absurd (no_nul c d hc hd nul))
      (λ _.
        if_ind (λ x r. TestsFor (x && b) r) (c == d) (λ _. h)
          (λ e. (sub32 (signed c) (signed d), refl, strcmp_differs c d bc bd (differ c d e))))
  where
    no_nul : (c d : ℕ) → 0 < c → 0 < d → ((c == 0) || (d == 0)) ≡ true → ⊥
    no_nul c d hc hd h = ground arith

-- `strcmp` of two strings ends, with 0 exactly if they have the same characters, as the models of
-- its callers compare lists; a round of fuel for each character of the first string and its NUL
-- is enough.
pub strcmp-str_eq :
    (fuel : ℕ) (m : Mem) (a b : ℕ) (cs ds : List ℕ)
    → HasString m a cs
    → HasString m b ds
    → length cs < fuel
    → TestsFor (str_eq cs ds) (strcmp fuel m a b)
unfolding strcmp
strcmp-str_eq zero m a b cs ds hc hd enough = absurd (omega arith)
strcmp-str_eq (suc fuel) m a b [] [] hc hd enough = rw (hc, hd) (0, refl, refl)
strcmp-str_eq (suc fuel) m a b [] (d ∷ ds) hc (at, some_char, byte, more) enough =
    rw (hc, at) (round-stop 0 d (strcmp fuel m (a + 1) (b + 1)) (omega arith) byte (omega arith))
strcmp-str_eq (suc fuel) m a b (c ∷ cs) [] (at, some_char, byte, more) hd enough =
    rw (at, hd) (round-stop c 0 (strcmp fuel m (a + 1) (b + 1)) byte (omega arith) (omega arith))
strcmp-str_eq (suc fuel) m a b (c ∷ cs) (d ∷ ds) (at, hc, bc, more) (at', hd, bd, more') enough =
    rw (at, at')
      (round-both c d (strcmp fuel m (a + 1) (b + 1)) (str_eq cs ds) hc hd bc bd
        (strcmp-str_eq fuel m (a + 1) (b + 1) cs ds more more' (omega arith)))

-- `strlen` counts the characters of a string.
pub strlen-HasString :
    (fuel : ℕ) (m : Mem) (a : ℕ) (cs : List ℕ)
    → HasString m a cs
    → length cs < fuel
    → strlen fuel m a ≡ done (length cs)
unfolding strlen
strlen-HasString zero m a cs h enough = absurd (omega arith)
strlen-HasString (suc fuel) m a [] h enough = rw h refl
strlen-HasString (suc fuel) m a (c ∷ cs) (at, hc, bc, more) enough = rw at (
    if_ind (λ b r. r ≡ done (suc (length cs))) (c == 0)
      (λ nul. absurd (omega (arith, ==→eq c 0 nul)))
      (λ _.
        ap (λ (r : Run ℕ). r >>= λ i. done (i + 1))
          (strlen-HasString fuel m (a + 1) cs more (omega arith))
        ∙ ap done (omega arith)))
