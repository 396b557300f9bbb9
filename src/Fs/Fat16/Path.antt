-- ===== src/Fs/Fat16/Path.antt =====
-- fat16.c: paths. A C string is the list of its characters before the NUL.
pub mod Canonical
pub mod Rejoin
pub mod Normal
pub mod Total
use astra_os.Base.{
  ℕ, Bool, true, false, not, ◌&&◌, ◌==◌, ltb, if◌then◌else◌, List, [], ◌∷◌, ◌++◌, take, length,
  Option, none, some, Run, done, fault, ◌>>=◌,
}

abbrev pub slash : ℕ
slash = b'/'

-- `strcmp(a, b) == 0`
abbrev pub str_eq : List ℕ → List ℕ → Bool
str_eq [] [] = true
str_eq [] (_ ∷ _) = false
str_eq (_ ∷ _) [] = false
str_eq (a ∷ as') (b ∷ bs) = (a == b) && str_eq as' bs

abbrev pub starts_with_slash : List ℕ → Bool
starts_with_slash [] = false
starts_with_slash (c ∷ _) = c == slash

abbrev pub ends_with_slash : List ℕ → Bool
ends_with_slash [] = false
ends_with_slash (c ∷ []) = c == slash
ends_with_slash (c ∷ d ∷ r) = ends_with_slash (d ∷ r)

-- what `temp` holds when the copy loops end
unfoldable pub join_input : List ℕ → List ℕ → List ℕ
join_input base input =
    if starts_with_slash input
    then slash ∷ input
    else if ltb 1 (length base) && not (ends_with_slash base)
    then base ++ slash ∷ input
    else base ++ input

-- `if (top > 0) top--;`
abbrev pub pop_part : List (List ℕ) → List (List ℕ)
pop_part [] = []
pop_part (_ ∷ r) = r

-- A finished part: "." is dropped, ".." pops, and a push onto 16 parts writes past `stack`.
-- The top of the stack is the head of the list.
unfoldable pub push_part : List ℕ → List (List ℕ) → Run (List (List ℕ))
push_part part stack =
    if str_eq part (b'.' ∷ [])
    then done stack
    else if str_eq part (b'.' ∷ b'.' ∷ [])
    then done (pop_part stack)
    else if ltb (length stack) 16
    then done (part ∷ stack)
    else fault

-- The scan of `temp`, a character at a time. `part` is what has been read of the current part,
-- of which characters past the 31st are dropped.
unfoldable pub scan_parts : List ℕ → List ℕ → List (List ℕ) → Run (List (List ℕ))
scan_parts [] [] stack = done stack
scan_parts [] (p ∷ part) stack = push_part (p ∷ part) stack
scan_parts (c ∷ rest) [] stack = scan_parts rest (if c == slash then [] else c ∷ []) stack
scan_parts (c ∷ rest) (p ∷ part) stack =
    let ended = push_part (p ∷ part) stack >>= scan_parts rest [] in
    let longer =
      scan_parts rest (if ltb (length (p ∷ part)) 31 then (p ∷ part) ++ c ∷ [] else p ∷ part)
        stack in
    if c == slash then ended else longer

-- the last loop, from the bottom of the stack: the parts with a slash between them
unfoldable pub join_parts : List (List ℕ) → List ℕ → List ℕ
join_parts [] out = out
join_parts (part ∷ []) out = part ++ out
join_parts (part ∷ below ∷ stack) out = join_parts (below ∷ stack) (slash ∷ part ++ out)

unfoldable pub fat16_normalize_path : List ℕ → List ℕ → Run (List ℕ)
fat16_normalize_path base input =
    let temp = join_input base input in
    if ltb (length temp) 128
    then (do stack ← scan_parts temp [] []; done (slash ∷ join_parts stack []))
    else fault

-- the index of the last slash splits the path: what stands before it and what behind it
unfoldable pub split_last : List ℕ → Option (List ℕ × List ℕ)
split_last [] = none
split_last (c ∷ rest) = elim (split_last rest) [
  | none ↦ if c == slash then some ([], rest) else none
  | some (before, behind) ↦ some (c ∷ before, behind)
]

abbrev pub root_if_empty : List ℕ → List ℕ
root_if_empty [] = slash ∷ []
root_if_empty (c ∷ r) = c ∷ r

-- `if (name_out[0] == '\0') return 0;`
abbrev pub unless_empty : List ℕ → List ℕ → Option (List ℕ × List ℕ)
unless_empty parent [] = none
unless_empty parent (c ∷ name) = some (parent, c ∷ name)

-- the parent directory and the file name, which is cut to 31 characters
unfoldable pub fat16_split_path : List ℕ → Option (List ℕ × List ℕ)
unfolding split_last
fat16_split_path path = elim (split_last path) [
  | none ↦ none
  | some (before, behind) ↦ unless_empty (root_if_empty before) (take 31 behind)
]
