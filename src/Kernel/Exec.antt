-- ===== src/Kernel/Exec.antt =====
-- src/kernel/exec.c: the start of a user program.
pub mod Isolation
pub mod Stack
use astra_os.Base.{
  ℕ, zero, suc, ◌+◌, ◌-◌, ◌*◌, ◌/◌, ◌%◌, Bool, true, false, ◌||◌, ltb, leb, if◌then◌else◌, u8,
  sub32, List, [], ◌∷◌, ◌++◌, length, take, Option, none, some, Run, done, ◌>>=◌,
}
use astra_os.Memory.Paging.{Paging, paging_mark_user, paging_clear_user, paging_protect_kernel}
use astra_os.Kernel.Bytes.{Mem, write_bytes, memset}
use astra_os.Kernel.Files.{Files}
use astra_os.Kernel.Elf.{Image, elf32_load_from_fat16}

abbrev pub user_stack_base : ℕ
user_stack_base = 0x003FC000

abbrev pub user_stack_top : ℕ
user_stack_top = 0x00400000

-- a stack pointer, and the memory that the stack stands in
pub record Stacked : Type 0 where
  pub sp : ℕ
  pub mem : Mem

unfoldable pub push_bytes : Stacked → List ℕ → Stacked
unfolding write_bytes
push_bytes s bytes =
    let sp = sub32 s.sp (length bytes) in record { sp = sp; mem = write_bytes s.mem sp bytes }

-- the bytes of a `uint32_t` in memory
abbrev pub word_bytes : ℕ → List ℕ
word_bytes v = u8 v ∷ u8 (v / 256) ∷ u8 (v / 65536) ∷ u8 (v / 16777216) ∷ []

unfoldable pub push_u32 : Stacked → ℕ → Stacked
unfolding push_bytes
push_u32 s v = push_bytes s (word_bytes v)

-- `sp & ~(align - 1)` for a power of two
unfoldable pub align_down : ℕ → ℕ → ℕ
align_down sp align = sp / align * align

-- an argument as it is copied: cut to 255 characters, with its NUL
abbrev pub arg_bytes : List ℕ → List ℕ
arg_bytes s = take 255 s ++ 0 ∷ []

-- The loop from the last argument to the first; `arg_ptrs` in the order of the arguments.
unfoldable pub push_args : List (List ℕ) → Stacked → List ℕ × Stacked
unfolding push_bytes
push_args [] s = ([], s)
push_args (arg ∷ args) s =
    let (ptrs, s') = push_args args s in
    let pushed = push_bytes s' (arg_bytes arg) in (pushed.sp ∷ ptrs, pushed)

-- the same for the words of `argv`, from the last to the first
unfoldable pub push_words : List ℕ → Stacked → Stacked
unfolding push_u32
push_words [] s = s
push_words (v ∷ vs) s = push_u32 (push_words vs s) v

-- `argc` is the length of the list, and a NULL in `argv` is the empty string.
unfoldable pub build_user_stack : List (List ℕ) → ℕ → Mem → Stacked
unfolding push_args push_words align_down
build_user_stack argv stack_top m =
    let args = take 32 argv in
    let (ptrs, s) = push_args args (record { sp = stack_top; mem = m }) in
    let aligned = record s { sp = align_down s.sp 16 } in
    let vector = push_words ptrs (push_u32 aligned 0) in
    push_u32 (push_u32 vector vector.sp) (length args)

-- The state that a run of the function leaves. `jump` is the entry point and the stack pointer that
-- `switch_to_user_mode` gets, or `none` for a return of -1.
pub record Launch : Type 0 where
  pub jump : Option (ℕ × ℕ)
  pub paging : Paging
  pub mem : Mem

-- the calls of paging.c, in their order
unfoldable pub exec_paging : ℕ → ℕ → Image → Paging → Paging
unfolding paging_clear_user paging_mark_user paging_protect_kernel
exec_paging kernel_start kernel_end img p =
    let cleared = paging_clear_user 0x00200000 0x003F0000 p in
    let stack_cleared = paging_clear_user user_stack_base user_stack_top cleared in
    let marked = paging_mark_user img.low img.high stack_cleared in
    let stack_marked = paging_mark_user user_stack_base user_stack_top marked in
    paging_protect_kernel kernel_start kernel_end stack_marked

-- the part behind the loader
unfoldable pub launch : ℕ → ℕ → List (List ℕ) → Paging → Option Image × Mem → Launch
unfolding exec_paging build_user_stack memset
launch kernel_start kernel_end argv p (none, m) = record { jump = none; paging = p; mem = m }
launch kernel_start kernel_end argv p (some img, m) =
    let zeroed = memset m user_stack_base 0 (user_stack_top - user_stack_base) in
    let s = build_user_stack argv user_stack_top zeroed in
    record {
      jump =
          if ltb s.sp user_stack_base || leb user_stack_top s.sp
          then none
          else some (img.entry, s.sp);
      paging = exec_paging kernel_start kernel_end img p;
      mem = s.mem;
    }

module _ (files : Files) (kernel_start kernel_end : ℕ) where
  unfoldable pub kernel_exec_elf_argv :
      files.State → List ℕ → List (List ℕ) → Paging → Mem → Run Launch
  unfolding elf32_load_from_fat16 launch
  kernel_exec_elf_argv s path argv p m = do
    loaded ← elf32_load_from_fat16 files s path m
    done (launch kernel_start kernel_end argv p loaded)

  unfoldable pub kernel_exec_elf : files.State → List ℕ → Paging → Mem → Run Launch
  unfolding kernel_exec_elf_argv
  kernel_exec_elf s path = kernel_exec_elf_argv s path (path ∷ [])
