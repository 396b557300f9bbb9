-- ===== src/Tests/FatPath.antt =====
-- src/fs/fat16.c: paths.
use astra_os.Base.{ℕ, ◌≤◌, ◌≡◌, refl, arith, List, [], ◌∷◌, length, done}
use astra_os.Fs.Fat16.Path.{fat16_normalize_path, join_input, scan_parts, push_part, join_parts}
use astra_os.Fs.Fat16.Path.Total.{normalize_path-done}
use astra_os.Fs.Fat16.Path.Normal.{IsCanonical, normalize_path-IsCanonical, normalize_path_again}

-- "/A", "b/../c" and "/A/c"
abbrev base_path : List ℕ
base_path = b'/' ∷ b'A' ∷ []

abbrev input_path : List ℕ
input_path = b'b' ∷ b'/' ∷ b'.' ∷ b'.' ∷ b'/' ∷ b'c' ∷ []

abbrev normal_path : List ℕ
normal_path = b'/' ∷ b'A' ∷ b'/' ∷ b'c' ∷ []

normalized : fat16_normalize_path base_path input_path ≡ done normal_path
unfolding fat16_normalize_path join_input scan_parts push_part join_parts
normalized = refl

normalize_path-IsCanonical_example : IsCanonical normal_path × (length normal_path ≤ 127)
normalize_path-IsCanonical_example =
    normalize_path-IsCanonical base_path input_path normal_path refl normalized

normalize_path_again_example : fat16_normalize_path input_path normal_path ≡ done normal_path
normalize_path_again_example =
    normalize_path_again input_path input_path normal_path normalize_path-IsCanonical_example.0
      (omega arith)

short : length (join_input base_path input_path) ≤ 32
unfolding join_input
short = omega arith

normalize_path-done_example :
    (path : List ℕ) × (fat16_normalize_path base_path input_path ≡ done path)
normalize_path-done_example = normalize_path-done base_path input_path short
