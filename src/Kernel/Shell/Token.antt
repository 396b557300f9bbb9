-- ===== src/Kernel/Shell/Token.antt =====
-- shell.c: `shell_tokenize`, and the texts that are put together from its tokens.
pub mod Words
pub mod Joined
use astra_os.Base.{
  ℕ, zero, suc, ◌==◌, ltb, if◌then◌else◌, List, [], ◌∷◌, ◌++◌, length, Run, done, fault, ◌>>=◌,
}

abbrev pub space : ℕ
space = b' '

-- `while (*input == ' ') input++;`
unfoldable pub skip_spaces : List ℕ → List ℕ
skip_spaces [] = []
skip_spaces (c ∷ input) = let rest = skip_spaces input in if c == space then rest else c ∷ input

-- The characters up to the next space or the NUL, and the input behind that space, which a NUL
-- replaces.
unfoldable pub cut_token : List ℕ → List ℕ × List ℕ
cut_token [] = ([], [])
cut_token (c ∷ input) =
    let (token, rest) = cut_token input in if c == space then ([], input) else (c ∷ token, rest)

-- `argv`, with the number of tokens that still fit
unfoldable pub shell_tokenize : ℕ → List ℕ → List (List ℕ)
unfolding skip_spaces cut_token
shell_tokenize zero input = []
shell_tokenize (suc left) input = elim (skip_spaces input) [
  | [] ↦ []
  | c ∷ rest ↦ (cut_token (c ∷ rest)).0 ∷ shell_tokenize left (cut_token (c ∷ rest)).1
]

abbrev pub max_args : ℕ
max_args = 16

-- `strcat` to `text[256]`
unfoldable pub strcat_text : List ℕ → List ℕ → Run (List ℕ)
strcat_text text src = if ltb (length (text ++ src)) 256 then done (text ++ src) else fault

-- the loop from `argv[2]` on, with a space behind every word but the last
unfoldable pub text_loop : List (List ℕ) → List ℕ → Run (List ℕ)
unfolding strcat_text
text_loop [] text = done text
text_loop (word ∷ []) text = strcat_text text word
text_loop (word ∷ next ∷ words) text = do
  added ← strcat_text text word
  spaced ← strcat_text added (space ∷ [])
  text_loop (next ∷ words) spaced
