-- ===== src/Kernel/Shell/Token/Words.antt =====
-- The tokens are the words of the line.
use astra_os.Base.{
  ℕ, zero, suc, ◌≡◌, ◌∙◌, refl, sym, ap, arith, true, false, if_ind, ◌==◌, if◌then◌else◌, List, [],
  ◌∷◌, take, List-cases, inl, inr,
}
use astra_os.Kernel.Shell.Token.{space, skip_spaces, cut_token, shell_tokenize}

-- `c` before the first of the parts
abbrev pub onto_first : ℕ → List (List ℕ) → List (List ℕ)
onto_first c [] = (c ∷ []) ∷ []
onto_first c (part ∷ parts) = (c ∷ part) ∷ parts

-- the parts between the spaces, empty ones included
unfoldable pub split_spaces : List ℕ → List (List ℕ)
split_spaces [] = [] ∷ []
split_spaces (c ∷ input) =
    let parts = split_spaces input in if c == space then [] ∷ parts else onto_first c parts

abbrev pub keep_words : List (List ℕ) → List (List ℕ)
keep_words [] = []
keep_words ([] ∷ parts) = keep_words parts
keep_words ((c ∷ part) ∷ parts) = (c ∷ part) ∷ keep_words parts

-- the words of a line: the parts that are not empty
unfoldable pub words : List ℕ → List (List ℕ)
unfolding split_spaces
words input = keep_words (split_spaces input)

pub split_at_space :
    (c : ℕ) (input : List ℕ)
    → (c == space) ≡ true
    → split_spaces (c ∷ input) ≡ [] ∷ split_spaces input
unfolding split_spaces
split_at_space c input h = ground (arith, h)

pub split_at_char :
    (c : ℕ) (input : List ℕ)
    → (c == space) ≡ false
    → split_spaces (c ∷ input) ≡ onto_first c (split_spaces input)
unfolding split_spaces
split_at_char c input h = ground (arith, h)

words-skip_spaces : (input : List ℕ) → words (skip_spaces input) ≡ words input
unfolding words skip_spaces
words-skip_spaces [] = refl
words-skip_spaces (c ∷ input) =
    if_ind
      (λ b (rest : List ℕ). keep_words (split_spaces rest) ≡ keep_words (split_spaces (c ∷ input)))
      (c == space) {x = skip_spaces input} {y = c ∷ input}
      (λ h. words-skip_spaces input ∙ ap keep_words (sym (split_at_space c input h))) (λ h. refl)

-- what `skip_spaces` stops at is no space
skip_spaces-stop :
    (input : List ℕ) (c : ℕ) (rest : List ℕ) → skip_spaces input ≡ c ∷ rest → (c == space) ≡ false
unfolding skip_spaces
skip_spaces-stop [] c rest h = cc
skip_spaces-stop (d ∷ input) c rest h = ground (arith, skip_spaces-stop input c rest)

-- The first part is the token, and the words behind it are those of the rest.
split_spaces-cut_token :
    (input : List ℕ)
    → (parts : List (List ℕ)) × (split_spaces input ≡ (cut_token input).0 ∷ parts)
      × (keep_words parts ≡ words (cut_token input).1)
unfolding words split_spaces cut_token
split_spaces-cut_token [] = ([], refl, refl)
split_spaces-cut_token (c ∷ input) =
    if_ind
      (λ b (t : List ℕ × List ℕ).
        (parts : List (List ℕ)) × (split_spaces (c ∷ input) ≡ t.0 ∷ parts)
        × (keep_words parts ≡ keep_words (split_spaces t.1)))
      (c == space) {x = ([], input)} {y = (c ∷ (cut_token input).0, (cut_token input).1)}
      (λ h. (split_spaces input, split_at_space c input h, refl))
      (λ h.
        let (parts, e, k) = split_spaces-cut_token input in
        (parts, split_at_char c input h ∙ ap (onto_first c) e, k))

words-cut_token :
    (c : ℕ) (rest : List ℕ)
    → (c == space) ≡ false
    → words (c ∷ rest) ≡ (cut_token (c ∷ rest)).0 ∷ words (cut_token (c ∷ rest)).1
unfolding words cut_token
words-cut_token c rest h =
    let (parts, e, k) = split_spaces-cut_token rest in
    let cut : cut_token (c ∷ rest) ≡ (c ∷ (cut_token rest).0, (cut_token rest).1) =
      ground (arith, h) in
    ap keep_words (split_at_char c rest h ∙ ap (onto_first c) e)
    ∙ ap ((c ∷ (cut_token rest).0) ∷◌) k
    ∙ sym (ap (λ t. t.0 ∷ words t.1) cut)

-- `argv` holds the words of the line, its parts between spaces that are not empty; of more words
-- than `argv` has room for, it holds the first ones.
pub shell_tokenize-words :
    (room : ℕ) (input : List ℕ) → shell_tokenize room input ≡ take room (words input)
unfolding shell_tokenize words
shell_tokenize-words zero input = refl
shell_tokenize-words (suc room) input = elim (List-cases (skip_spaces input)) [
  | inl e ↦ tokens_of e ∙ ap (take (suc room)) (sym (ap words e) ∙ words-skip_spaces input)
  | inr (c, rest, e) ↦
      tokens_of e
      ∙ ap ((cut_token (c ∷ rest)).0 ∷◌) (shell_tokenize-words room (cut_token (c ∷ rest)).1)
      ∙ ap (take (suc room)) (
          sym (words-cut_token c rest (skip_spaces-stop input c rest e))
          ∙ sym (ap words e)
          ∙ words-skip_spaces input)
]
  where
    from_word : List ℕ → List (List ℕ)
    from_word [] = []
    from_word (c ∷ rest) = (cut_token (c ∷ rest)).0 ∷ shell_tokenize room (cut_token (c ∷ rest)).1

    tokens_of :
        {cs : List ℕ} → skip_spaces input ≡ cs → shell_tokenize (suc room) input ≡ from_word cs
    tokens_of e = ap from_word e
