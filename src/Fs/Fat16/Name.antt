-- ===== src/Fs/Fat16/Name.antt =====
-- fat16.c: file names, as a user writes them and as an entry stores them.
use astra_os.Base.{
  ℕ, zero, suc, ◌+◌, ◌-◌, Bool, true, ◌&&◌, ◌==◌, leb, if◌then◌else◌, List, [], ◌∷◌, ◌++◌, map,
  take, replicate, length,
}
use astra_os.Fs.Fat16.Layout.{Entry}

-- `if (c >= 'a' && c <= 'z') c -= 32;`
abbrev pub upper : ℕ → ℕ
upper c = if leb b'a' c && leb c b'z' then c - 32 else c

-- The first loop: up to `left` characters before a dot or the end, and where it stopped.
unfoldable pub base_loop : ℕ → List ℕ → List ℕ × List ℕ
base_loop zero input = ([], input)
base_loop (suc left) [] = ([], [])
base_loop (suc left) (c ∷ rest) =
    let more = base_loop left rest in
    if c == b'.' then ([], c ∷ rest) else (upper c ∷ more.0, more.1)

-- the second: up to three characters behind the dot at which the first loop stopped
unfoldable pub ext_chars : List ℕ → List ℕ
ext_chars [] = []
ext_chars (c ∷ rest) = if c == b'.' then map upper (take 3 rest) else []

-- `out11` is filled with blanks before the loops write.
abbrev pub blank_fill : ℕ → List ℕ → List ℕ
blank_fill width chars = chars ++ replicate (width - length chars) b' '

unfoldable pub fat16_format_filename : List ℕ → List ℕ
unfolding base_loop ext_chars
fat16_format_filename input =
    let (name, rest) = base_loop 8 input in blank_fill 8 name ++ blank_fill 3 (ext_chars rest)

-- `for (j = 0; j < left; j++) { if (field[j] == ' ') break; out[pos++] = field[j]; }`
unfoldable pub field_loop : ℕ → ℕ → Entry → List ℕ
field_loop zero j e = []
field_loop (suc left) j e =
    let more = field_loop left (j + 1) e in if e j == b' ' then [] else e j ∷ more

unfoldable pub fat16_entry_to_name : Entry → List ℕ
unfolding field_loop
fat16_entry_to_name e = field_loop 8 0 e ++ (if e 8 == b' ' then [] else b'.' ∷ field_loop 3 8 e)

-- the two comparison loops of the directory searches, over the 11 bytes of an entry
unfoldable pub same_name : ℕ → Entry → List ℕ → Bool
same_name j e [] = true
same_name j e (c ∷ fatname) = (e j == c) && same_name (j + 1) e fatname
