-- ===== src/Kernel/Shell/Token/Joined.antt =====
-- The words of a line put together again, and the room that this takes.
use mathlib.Core.List.{append_assoc, append-nil}
use astra_os.Base.{
  ℕ, zero, suc, ◌+◌, ◌≤◌, ◌<◌, ◌≡◌, ◌≢◌, ◌∙◌, refl, sym, ap, arith, false, if_ind, ◌⊎◌, inl, inr,
  ◌==◌, ltb, ltb→le, List, [], ◌∷◌, ◌++◌, length, length-append, take, take-all, drop, All, Run,
  done, ◌>>=◌,
}
use astra_os.Kernel.Shell.Token.{
  space, skip_spaces, cut_token, shell_tokenize, strcat_text, text_loop,
}
use astra_os.Kernel.Shell.Token.Words.{
  onto_first, split_spaces, keep_words, words, split_at_space, split_at_char, shell_tokenize-words,
}

-- the words with a space between them
unfoldable pub join_words : List (List ℕ) → List ℕ
join_words [] = []
join_words (word ∷ []) = word
join_words (word ∷ next ∷ rest) = word ++ space ∷ join_words (next ∷ rest)

-- the characters of the words, and one more for each
abbrev pub total : List (List ℕ) → ℕ
total [] = 0
total (word ∷ rest) = length word + 1 + total rest

length-join_words : (ws : List (List ℕ)) → length (join_words ws) ≤ total ws
unfolding join_words
length-join_words [] = omega arith
length-join_words (word ∷ []) = omega arith
length-join_words (word ∷ next ∷ rest) =
    omega (
      arith,
      length-append word (space ∷ join_words (next ∷ rest)),
      length-join_words (next ∷ rest),
    )

length-skip_spaces : (input : List ℕ) → length (skip_spaces input) ≤ length input
unfolding skip_spaces
length-skip_spaces [] = omega arith
length-skip_spaces (c ∷ input) =
    if_ind (λ b (rest : List ℕ). length rest ≤ suc (length input)) (c == space)
      {x = skip_spaces input} {y = c ∷ input} (λ h. omega (arith, length-skip_spaces input))
      (λ h. omega arith)

-- the space behind a token is gone, or the input is
length-cut_token :
    (input : List ℕ)
    → (length (cut_token input).0 + length (cut_token input).1 + 1 ≤ length input)
      ⊎ ((length (cut_token input).0 ≤ length input) × ((cut_token input).1 ≡ []))
unfolding cut_token
length-cut_token [] = inr (omega arith, refl)
length-cut_token (c ∷ input) =
    if_ind
      (λ b (t : List ℕ × List ℕ).
        (length t.0 + length t.1 + 1 ≤ suc (length input))
        ⊎ ((length t.0 ≤ suc (length input)) × (t.1 ≡ [])))
      (c == space) {x = ([], input)} {y = (c ∷ (cut_token input).0, (cut_token input).1)}
      (λ h. inl (omega arith))
      (λ h. elim (length-cut_token input) [
        | inl le ↦ inl (omega arith)
        | inr (le, e) ↦ inr (omega arith, e)
      ])

total_of_nothing : (room : ℕ) → total (shell_tokenize room []) ≡ 0
unfolding shell_tokenize skip_spaces
total_of_nothing zero = refl
total_of_nothing (suc room) = refl

total-shell_tokenize :
    (room : ℕ) (input : List ℕ) → total (shell_tokenize room input) ≤ length input + 1
unfolding shell_tokenize
total-shell_tokenize zero input = omega arith
total-shell_tokenize (suc room) input =
    from (total-shell_tokenize room) (skip_spaces input) (length-skip_spaces input)
  where
    from :
        ((rest : List ℕ) → total (shell_tokenize room rest) ≤ length rest + 1)
        → (cs : List ℕ) → length cs ≤ length input
        → total (elim cs as (λ _. List (List ℕ)) [
          | [] ↦ []
          | c ∷ rest ↦ (cut_token (c ∷ rest)).0 ∷ shell_tokenize room (cut_token (c ∷ rest)).1
        ])
          ≤ length input + 1
    from later [] le = omega arith
    from later (c ∷ rest) le = elim (length-cut_token (c ∷ rest)) [
      | inl short ↦ omega (arith, later (cut_token (c ∷ rest)).1)
      | inr (short, e) ↦
          let none_left : total (shell_tokenize room (cut_token (c ∷ rest)).1) ≡ 0 =
            ap (λ r. total (shell_tokenize room r)) e ∙ total_of_nothing room in
          omega (arith, none_left)
    ]

total-drop : (n : ℕ) (ws : List (List ℕ)) → total (drop n ws) ≤ total ws
total-drop zero ws = omega arith
total-drop (suc n) [] = omega arith
total-drop (suc n) (w ∷ ws) = omega (arith, total-drop n ws)

strcat_text_lem :
    (text src : List ℕ) → length text + length src < 256 → strcat_text text src ≡ done (text ++ src)
unfolding strcat_text
strcat_text_lem text src lt =
    if_ind (λ b (r : Run (List ℕ)). r ≡ done (text ++ src)) (ltb (length (text ++ src)) 256)
      (λ h. refl) (λ h. absurd (omega (arith, length-append text src, ltb→le _ _ h)))

text_loop-join_words :
    (ws : List (List ℕ)) (text : List ℕ)
    → length text + total ws ≤ 256
    → text_loop ws text ≡ done (text ++ join_words ws)
unfolding text_loop join_words
text_loop-join_words [] text le = ap done (sym (append-nil text))
text_loop-join_words (w ∷ []) text le = strcat_text_lem text w (omega arith)
text_loop-join_words (w ∷ v ∷ ws) text le =
    ap (λ r. r >>= λ added. strcat_text added (space ∷ []) >>= text_loop (v ∷ ws))
      (strcat_text_lem text w (omega arith))
    ∙ ap (λ r. r >>= text_loop (v ∷ ws))
        (strcat_text_lem (text ++ w) (space ∷ []) (omega (arith, length-append text w)))
    ∙ text_loop-join_words (v ∷ ws) ((text ++ w) ++ space ∷ [])
        (omega (arith, length-append text w, length-append (text ++ w) (space ∷ [])))
    ∙ ap done (
        append_assoc (text ++ w) (space ∷ []) (join_words (v ∷ ws))
        ∙ append_assoc text w (space ∷ join_words (v ∷ ws)))

-- The text of `write` and `append` is the words behind the file name with one space between
-- them, and it never runs past the 256 bytes of `text`, if the line fits the command buffer.
pub text_loop-shell_tokenize :
    (input : List ℕ)
    → length input < 256
    → text_loop (drop 2 (shell_tokenize 16 input)) []
      ≡ done (join_words (drop 2 (shell_tokenize 16 input)))
text_loop-shell_tokenize input lt =
    text_loop-join_words (drop 2 (shell_tokenize 16 input)) []
      (omega (arith, total-drop 2 (shell_tokenize 16 input), total-shell_tokenize 16 input))

-- not empty, and no space in it
abbrev pub IsWord : List ℕ → Type 0
IsWord w = (w ≢ []) × All (λ c. (c == space) ≡ false) w

split_spaces-word : (w : List ℕ) → All (λ c. (c == space) ≡ false) w → split_spaces w ≡ w ∷ []
unfolding split_spaces
split_spaces-word [] all = refl
split_spaces-word (c ∷ w) (h, all) =
    split_at_char c w h ∙ ap (onto_first c) (split_spaces-word w all)

split_spaces-append :
    (w rest : List ℕ)
    → All (λ c. (c == space) ≡ false) w
    → split_spaces (w ++ space ∷ rest) ≡ w ∷ split_spaces rest
split_spaces-append [] rest all = split_at_space space rest refl
split_spaces-append (c ∷ w) rest (h, all) =
    split_at_char c (w ++ space ∷ rest) h ∙ ap (onto_first c) (split_spaces-append w rest all)

keep_words-IsWord :
    (w : List ℕ) (parts : List (List ℕ)) → IsWord w → keep_words (w ∷ parts) ≡ w ∷ keep_words parts
keep_words-IsWord [] parts word = absurd (word.0 refl)
keep_words-IsWord (c ∷ w) parts word = refl

words-join_words : (ws : List (List ℕ)) → All IsWord ws → words (join_words ws) ≡ ws
unfolding words join_words split_spaces
words-join_words [] all = refl
words-join_words (w ∷ []) (word, all) =
    ap keep_words (split_spaces-word w word.1) ∙ keep_words-IsWord w [] word
words-join_words (w ∷ v ∷ ws) (word, all) =
    ap keep_words (split_spaces-append w (join_words (v ∷ ws)) word.1)
    ∙ keep_words-IsWord w (split_spaces (join_words (v ∷ ws))) word
    ∙ ap (w ∷◌) (words-join_words (v ∷ ws) all)

-- A line of at most 16 words with one space between them is cut into these words again.
pub shell_tokenize-join_words :
    (ws : List (List ℕ)) → All IsWord ws → length ws ≤ 16 → shell_tokenize 16 (join_words ws) ≡ ws
shell_tokenize-join_words ws all le =
    shell_tokenize-words 16 (join_words ws)
    ∙ ap (take 16) (words-join_words ws all)
    ∙ take-all 16 ws le
