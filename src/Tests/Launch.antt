-- ===== src/Tests/Launch.antt =====
-- src/kernel/elf32.c and src/kernel/exec.c: the load and the start of a small program.
use astra_os.Base.{
  ℕ, ◌+◌, ◌≤◌, ◌<◌, ◌≡◌, refl, sym, arith, true, List, [], ◌∷◌, ◌++◌, length, take, drop, get_or,
  replicate, length-take-le, some, done,
}
use astra_os.Memory.Paging.{Paging}
use astra_os.Memory.Paging.Access.{user_bit, other_bits}
use astra_os.Kernel.Bytes.{Mem, write_bytes, memset}
use astra_os.Kernel.Files.{Files}
use astra_os.Kernel.Elf.{
  Phdr, Loaded, Image, elf32_load_from_fat16, load_program, load_segments, load_segment, load_bytes,
  finish_load, check_header, elf32_check_ident, ehdr_of, phdrs_of, phdr_of, user_min_vaddr,
  user_max_vaddr,
}
use astra_os.Kernel.Elf.Bounds.{IsKept, load_segments_window}
use astra_os.Kernel.Elf.Entry.{elf32_load-IsImage}
use astra_os.Kernel.Elf.Content.{load_segment_content}
use astra_os.Kernel.Exec.{exec_paging, build_user_stack, user_stack_top}
use astra_os.Kernel.Exec.Isolation.{exec_paging-user_bit}
use astra_os.Kernel.Exec.Stack.Layout.{IsLayout, build_user_stack-IsLayout}

-- a header with one program header behind it, and two bytes of code
abbrev program : List ℕ
program =
    0x7F ∷ b'E' ∷ b'L' ∷ b'F' ∷ 1 ∷ 1 ∷ 1 ∷ replicate 9 0
    ++ 2 ∷ 0 ∷ 3 ∷ 0 ∷ 1 ∷ 0 ∷ 0 ∷ 0 ∷ 1 ∷ 0 ∷ 0x20 ∷ 0 ∷ 52 ∷ 0 ∷ 0 ∷ 0 ∷ replicate 10 0
    ++ 32 ∷ 0 ∷ 1 ∷ 0 ∷ replicate 6 0
    ++ 1 ∷ 0 ∷ 0 ∷ 0 ∷ 84 ∷ 0 ∷ 0 ∷ 0 ∷ 0 ∷ 0 ∷ 0x20 ∷ 0 ∷ replicate 4 0
    ++ 2 ∷ 0 ∷ 0 ∷ 0 ∷ 3 ∷ 0 ∷ 0 ∷ 0 ∷ replicate 8 0
    ++ 0xEB ∷ 0xFE ∷ []

read_length :
    (offset len : ℕ) (bytes : List ℕ)
    → done (some (take len (drop offset program))) ≡ done (some bytes)
    → length bytes ≤ len
read_length offset len bytes e =
    let same : take len (drop offset program) ≡ bytes = cc e in
    rw (sym same) (length-take-le len (drop offset program))

-- a file system with that one file
abbrev one_file : Files
one_file = record {
  State = Unit;
  init = λ s. (true, s);
  filesize = λ s path. done (some 86);
  read_at = λ s path offset len. done (some (take len (drop offset program)));
  read_at-length = λ s path offset len bytes e. read_length offset len bytes e;
}

abbrev no_memory : Mem
no_memory a = 0

abbrev code : Phdr
code = record { p_type = 1; p_offset = 84; p_vaddr = 0x00200000; p_filesz = 2; p_memsz = 3 }

abbrev start : Loaded
start = record { low = 0xFFFFFFFF; high = 0; mem = no_memory }

abbrev loaded_memory : Mem
loaded_memory = memset (write_bytes no_memory 0x00200000 (0xEB ∷ 0xFE ∷ [])) 0x00200002 0 1

abbrev image : Image
image = record { entry = 0x00200001; low = 0x00200000; high = 0x00200003 }

abbrev loaded : Loaded
loaded = record { low = 0x00200000; high = 0x00200003; mem = loaded_memory }

load_segments_run : load_segments one_file tt [] 86 (code ∷ []) start ≡ done (true, loaded)
unfolding load_segments load_segment load_bytes
load_segments_run = refl

load_segments_window_example : IsKept no_memory loaded
load_segments_window_example =
    load_segments_window one_file tt [] 86 no_memory (code ∷ []) true loaded
      (record { file_fits = omega arith; is_word = omega arith }, tt) load_segments_run

load_run : elf32_load_from_fat16 one_file tt [] no_memory ≡ done (some image, loaded_memory)
unfolding elf32_load_from_fat16 check_header elf32_check_ident ehdr_of load_program phdrs_of phdr_of
    load_segments load_segment load_bytes finish_load
load_run = refl

elf32_load-IsImage_example :
    (user_min_vaddr ≤ 0x00200000)
    × (0x00200000 ≤ 0x00200001)
    × (0x00200001 < 0x00200003)
    × (0x00200003 ≤ user_max_vaddr)
elf32_load-IsImage_example =
    elf32_load-IsImage one_file tt [] no_memory loaded_memory image load_run

load_segment_content_example :
    (acc' : Loaded) × (load_segment one_file tt [] 86 code start ≡ done (true, acc'))
    × ((i : ℕ) → i < 2 → acc'.mem (0x00200000 + i) ≡ get_or (0xEB ∷ 0xFE ∷ []) i 0)
    × ((i : ℕ) → 2 ≤ i → i < 3 → acc'.mem (0x00200000 + i) ≡ 0)
load_segment_content_example =
    load_segment_content one_file tt [] 86 code start (0xEB ∷ 0xFE ∷ []) refl (omega arith)
      (omega arith) (omega arith, omega arith, omega arith) (omega arith) refl refl

abbrev arguments : List (List ℕ)
arguments = (b'l' ∷ b's' ∷ []) ∷ (b'/' ∷ []) ∷ []

build_user_stack-IsLayout_example :
    IsLayout arguments no_memory (build_user_stack arguments user_stack_top no_memory)
build_user_stack-IsLayout_example = build_user_stack-IsLayout arguments no_memory

abbrev all_open : Paging
all_open = record {
  directory = λ d. 7;
  table = λ p. 7;
  directory_addr = 0;
  table_addr = 0;
  cr3 = 0;
  enabled = true;
}

-- page 0x200 holds the image; page 0x201 is in the window but not in the image
exec_paging-user_bit_example :
    let e = (exec_paging 0x00100000 0x00120000 image all_open).table 0x201 in
    (user_bit e ≡ 0) × (other_bits e ≡ 3)
exec_paging-user_bit_example =
    exec_paging-user_bit 0x00100000 0x00120000 image all_open (λ p. omega arith) 0x201
