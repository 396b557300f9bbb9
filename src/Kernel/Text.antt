-- ===== src/Kernel/Text.antt =====
-- src/kernel/string.c: the functions on C strings in memory, a round of fuel for each character.
pub mod Compare
use astra_os.Base.{
  ℕ, zero, suc, ◌+◌, ◌-◌, ◌^◌, ◌==◌, ltb, ◌||◌, if◌then◌else◌, sub32, update, Run, done,
  out_of_fuel, ◌>>=◌,
}
use astra_os.Kernel.Bytes.{Mem}

unfoldable pub strlen : ℕ → Mem → ℕ → Run ℕ
strlen zero m str = out_of_fuel
strlen (suc fuel) m str =
    let more = strlen fuel m (str + 1) >>= λ i. done (i + 1) in if m str == 0 then done 0 else more

-- a `char` as an `int`
abbrev pub signed : ℕ → ℕ
signed c = if ltb c 128 then c else c + (2 ^ 32 - 256)

unfoldable pub strcmp : ℕ → Mem → ℕ → ℕ → Run ℕ
strcmp zero m a b = out_of_fuel
strcmp (suc fuel) m a b =
    let more = strcmp fuel m (a + 1) (b + 1) in
    let difference = done (sub32 (signed (m a)) (signed (m b))) in
    if (m a == 0) || (m b == 0) then difference else if m a == m b then more else difference

unfoldable pub strcpy : ℕ → Mem → ℕ → ℕ → Run Mem
unfolding update
strcpy zero m dest src = out_of_fuel
strcpy (suc fuel) m dest src =
    let more = strcpy fuel (update m dest (m src)) (dest + 1) (src + 1) in
    if m src == 0 then done (update m dest 0) else more

unfoldable pub strcat : ℕ → Mem → ℕ → ℕ → Run Mem
unfolding strlen strcpy
strcat fuel m dest src = strlen fuel m dest >>= λ i. strcpy fuel m (dest + i) src
