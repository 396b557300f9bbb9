-- ===== src/Kernel/Print.antt =====
-- src/kernel/print.c: a number in decimal.
pub mod Value
use astra_os.Base.{
  ℕ, zero, suc, ◌+◌, ◌*◌, ◌/◌, ◌%◌, ◌==◌, if◌then◌else◌, List, [], ◌∷◌, ◌++◌, Run, done,
  out_of_fuel, ◌>>=◌,
}

-- `while (num > 0)`: what `buf` holds, the last digit first
unfoldable pub digit_loop : ℕ → ℕ → Run (List ℕ)
digit_loop zero num = out_of_fuel
digit_loop (suc fuel) num =
    let more = digit_loop fuel (num / 10) >>= λ buf. done ((b'0' + num % 10) ∷ buf) in
    if num == 0 then done [] else more

-- the loop that prints `buf` from its end
unfoldable pub reversed : List ℕ → List ℕ
reversed [] = []
reversed (c ∷ buf) = reversed buf ++ c ∷ []

-- The characters that are printed. A `uint32_t` has at most 10 digits, so 11 rounds are enough.
unfoldable pub print_uint : ℕ → Run (List ℕ)
unfolding digit_loop reversed
print_uint num =
    let digits = digit_loop 11 num >>= λ buf. done (reversed buf) in
    if num == 0 then done (b'0' ∷ []) else digits
