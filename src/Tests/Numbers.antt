-- ===== src/Tests/Numbers.antt =====
-- src/kernel/print.c: a number of three digits.
use astra_os.Base.{ℕ, ◌≡◌, ◌≤◌, arith, List, length, done}
use astra_os.Kernel.Print.{print_uint}
use astra_os.Kernel.Print.Value.{IsDecimal, print_uint_lem}

print_uint_lem_example :
    (text : List ℕ) × (print_uint 907 ≡ done text) × IsDecimal 907 text × (length text ≤ 10)
print_uint_lem_example = print_uint_lem 907 (omega arith)
