-- ===== src/Kernel/Shell/Line/Edit.antt =====
-- The edits of a line, as a list of characters with a cursor.
use astra_os.Base.{ℕ, ◌+◌, ◌-◌, ◌||◌, ltb, leb, if◌then◌else◌, List, ◌∷◌, ◌++◌, length, take, drop}
use astra_os.Kernel.Shell.State.{Shell, text}

-- a line and its cursor
pub record Line : Type 0 where
  pub chars : List ℕ
  pub cursor : ℕ

abbrev pub line : Shell → Line
line s = record { chars = text s; cursor = s.cursor_pos }

-- the line without the character at an index
abbrev pub without : ℕ → List ℕ → List ℕ
without i cs = take i cs ++ drop (i + 1) cs

-- the keys as edits
abbrev pub left : Line → Line
left l = record l { cursor = l.cursor - 1 }

abbrev pub right : Line → Line
right l = if ltb l.cursor (length l.chars) then record l { cursor = l.cursor + 1 } else l

abbrev pub delete : Line → Line
delete l =
    if ltb l.cursor (length l.chars) then record l { chars = without l.cursor l.chars } else l

abbrev pub back : Line → Line
back l =
    if ltb 0 l.cursor
    then record { chars = without (l.cursor - 1) l.chars; cursor = l.cursor - 1 }
    else l

abbrev pub insert : ℕ → Line → Line
insert c l = if ltb c 32 || ltb 126 c then l else if leb 255 (length l.chars) then l else record {
  chars = take l.cursor l.chars ++ c ∷ drop l.cursor l.chars;
  cursor = l.cursor + 1;
}
