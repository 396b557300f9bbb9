-- ===== src/User/Api.antt =====
-- src/kernel/syscall_api.c: the wrappers, which set the registers and trap; what they leave alone
-- is 0 here.
use astra_os.Base.{ℕ}
use astra_os.User.Program.{Program, ret, trap}

-- `int $0x80` with a number and up to three arguments
abbrev pub int_80 : ℕ → ℕ → ℕ → ℕ → Program ℕ
int_80 number ebx ecx edx = trap (record { eax = number; ebx = ebx; ecx = ecx; edx = edx }) ret

unfoldable pub api_write : ℕ → Program ℕ
api_write msg = int_80 0 msg 0 0

unfoldable pub api_clear : Program ℕ
api_clear = int_80 1 0 0 0

unfoldable pub api_exit : ℕ → Program ℕ
api_exit code = int_80 2 code 0 0

unfoldable pub api_open : ℕ → ℕ → Program ℕ
api_open path flags = int_80 3 path flags 0

unfoldable pub api_read : ℕ → ℕ → ℕ → Program ℕ
api_read fd buf count = int_80 4 fd buf count

unfoldable pub api_writefd : ℕ → ℕ → ℕ → Program ℕ
api_writefd fd buf count = int_80 8 fd buf count

unfoldable pub api_close : ℕ → Program ℕ
api_close fd = int_80 5 fd 0 0

unfoldable pub api_chdir : ℕ → Program ℕ
api_chdir path = int_80 6 path 0 0

unfoldable pub api_getcwd : ℕ → ℕ → Program ℕ
api_getcwd buf size = int_80 7 buf size 0

unfoldable pub api_listdir : ℕ → ℕ → ℕ → Program ℕ
api_listdir path out out_size = int_80 9 path out out_size
