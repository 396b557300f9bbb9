-- ===== src/Kernel/Elf.antt =====
-- src/kernel/elf32.c: the loader of ELF32 executables.
pub mod Bounds
pub mod Content
pub mod Entry
use astra_os.Base.{
  ℕ, zero, suc, ◌+◌, ◌-◌, ◌*◌, Bool, true, false, ◌&&◌, ◌||◌, ◌==◌, ◌!=◌, ltb, leb, if◌then◌else◌,
  u32, List, [], ◌∷◌, length, drop, get_or, Option, none, some, Run, done, ◌>>=◌,
}
use astra_os.Kernel.Bytes.{Mem, write_bytes, memset}
use astra_os.Kernel.Files.{Files}

abbrev pub user_min_vaddr : ℕ
user_min_vaddr = 0x00200000

abbrev pub user_max_vaddr : ℕ
user_max_vaddr = 0x003F0000

abbrev pub byte : List ℕ → ℕ → ℕ
byte bs i = get_or bs i 0

abbrev pub half_at : List ℕ → ℕ → ℕ
half_at bs i = byte bs i + byte bs (i + 1) * 256

abbrev pub word_at : List ℕ → ℕ → ℕ
word_at bs i =
    byte bs i + byte bs (i + 1) * 256 + byte bs (i + 2) * 65536 + byte bs (i + 3) * 16777216

-- the fields of `elf32_ehdr_t` that are read, at their offsets in its 52 bytes
pub record Ehdr : Type 0 where
  pub ident : List ℕ
  pub e_type : ℕ
  pub e_machine : ℕ
  pub e_entry : ℕ
  pub e_phoff : ℕ
  pub e_phentsize : ℕ
  pub e_phnum : ℕ

unfoldable pub ehdr_of : List ℕ → Ehdr
ehdr_of bs = record {
  ident = bs;
  e_type = half_at bs 16;
  e_machine = half_at bs 18;
  e_entry = word_at bs 24;
  e_phoff = word_at bs 28;
  e_phentsize = half_at bs 42;
  e_phnum = half_at bs 44;
}

-- those of `elf32_phdr_t`, of 32 bytes
pub record Phdr : Type 0 where
  pub p_type : ℕ
  pub p_offset : ℕ
  pub p_vaddr : ℕ
  pub p_filesz : ℕ
  pub p_memsz : ℕ

unfoldable pub phdr_of : List ℕ → Phdr
phdr_of bs = record {
  p_type = word_at bs 0;
  p_offset = word_at bs 4;
  p_vaddr = word_at bs 8;
  p_filesz = word_at bs 16;
  p_memsz = word_at bs 20;
}

-- the first `n` entries of the program header table
unfoldable pub phdrs_of : ℕ → List ℕ → List Phdr
unfolding phdr_of
phdrs_of zero bs = []
phdrs_of (suc n) bs = phdr_of bs ∷ phdrs_of n (drop 32 bs)

unfoldable pub elf32_check_ident : Ehdr → Bool
elf32_check_ident eh =
    if (byte eh.ident 0 != 0x7F)
      || ((byte eh.ident 1 != b'E') || ((byte eh.ident 2 != b'L') || (byte eh.ident 3 != b'F')))
    then false
    else if byte eh.ident 4 != 1
    then false
    else if byte eh.ident 5 != 1
    then false
    else if byte eh.ident 6 != 1
    then false
    else true

-- what the loop over the segments carries: `low`, `high` and the memory
pub record Loaded : Type 0 where
  pub low : ℕ
  pub high : ℕ
  pub mem : Mem

-- whether the loop goes on, and the state with what was written
abbrev pub Segment : Type 0
Segment = Run (Bool × Loaded)

-- `p_filesz` bytes of the file, and zeros behind them; a short read is written before it is noticed
unfoldable pub load_bytes : Loaded → Phdr → Option (List ℕ) → Bool × Loaded
unfolding write_bytes memset
load_bytes acc ph none = (false, acc)
load_bytes acc ph (some bytes) =
    let copied = write_bytes acc.mem ph.p_vaddr bytes in
    let zeroed = memset copied (u32 (ph.p_vaddr + ph.p_filesz)) 0 (ph.p_memsz - ph.p_filesz) in
    if length bytes != ph.p_filesz
    then (false, record acc { mem = copied })
    else (true, record acc { mem = if ltb ph.p_filesz ph.p_memsz then zeroed else copied })

module _ (files : Files) (s : files.State) (path : List ℕ) (size : ℕ) where
  -- the body of the loop
  unfoldable pub load_segment : Phdr → Loaded → Segment
  unfolding load_bytes
  load_segment ph acc =
      let seg_start = ph.p_vaddr in
      let seg_end = u32 (ph.p_vaddr + ph.p_memsz) in
      let acc' = record acc {
        low = if ltb seg_start acc.low then seg_start else acc.low;
        high = if ltb acc.high seg_end then seg_end else acc.high;
      } in
      let read =
        files.read_at s path ph.p_offset ph.p_filesz >>= λ got. done (load_bytes acc' ph got) in
      if ph.p_type != 1
      then done (true, acc)
      else if ph.p_memsz == 0
      then done (true, acc)
      else if ltb size (u32 (ph.p_offset + ph.p_filesz))
      then done (false, acc)
      else if ltb seg_start user_min_vaddr || (ltb user_max_vaddr seg_end || leb seg_end seg_start)
      then done (false, acc)
      else if ltb 0 ph.p_filesz
      then read
      else done (load_bytes acc' ph (some []))

  unfoldable pub load_segments : List Phdr → Loaded → Segment
  unfolding load_segment
  load_segments [] acc = done (true, acc)
  load_segments (ph ∷ phs) acc = load_segment ph acc >>= λ (ok, acc').
      let rest = load_segments phs acc' in if ok then rest else done (false, acc')

-- `*out_entry`, `*out_low` and `*out_high`
pub record Image : Type 0 where
  pub entry : ℕ
  pub low : ℕ
  pub high : ℕ

-- the tests behind the loop
unfoldable pub finish_load : ℕ → Bool × Loaded → Option Image × Mem
finish_load entry (false, acc) = (none, acc.mem)
finish_load entry (true, acc) =
    if (acc.low == 0xFFFFFFFF) || (acc.high == 0)
    then (none, acc.mem)
    else if ltb entry acc.low || leb acc.high entry
    then (none, acc.mem)
    else (some (record { entry = entry; low = acc.low; high = acc.high }), acc.mem)

-- a lookup that failed is `return 0` before anything is written
abbrev pub or_none :
    {A : Type 0} → Mem → Option A → (A → Run (Option Image × Mem)) → Run (Option Image × Mem)
or_none m none f = done (none, m)
or_none m (some a) f = f a

-- the checks of the header, in their order
unfoldable pub check_header : Ehdr → Bool
unfolding elf32_check_ident
check_header eh =
    if elf32_check_ident eh
    then (if (eh.e_type != 2) || (eh.e_machine != 3)
        then false
        else if (eh.e_phentsize != 32) || (eh.e_phnum == 0)
        then false
        else true)
    else false

module _ (files : Files) where
  -- the part behind the header's checks
  unfoldable pub load_program : files.State → List ℕ → ℕ → Ehdr → Mem → Run (Option Image × Mem)
  unfolding load_segments finish_load phdrs_of
  load_program s path size eh m =
      let table_bytes = eh.e_phnum * eh.e_phentsize in
      let load = files.read_at s path eh.e_phoff table_bytes >>= λ read. or_none m read λ bytes.
        let start : Loaded = record { low = 0xFFFFFFFF; high = 0; mem = m } in
        let segments = load_segments files s path size (phdrs_of eh.e_phnum bytes) start >>= λ r.
        done (finish_load eh.e_entry r) in
        if length bytes != table_bytes then done (none, m) else segments in
      if ltb size (u32 (eh.e_phoff + table_bytes))
      then done (none, m)
      else if ltb 32 eh.e_phnum
      then done (none, m)
      else load

  -- `path` and the three results are not NULL
  unfoldable pub elf32_load_from_fat16 : files.State → List ℕ → Mem → Run (Option Image × Mem)
  unfolding load_program check_header ehdr_of
  elf32_load_from_fat16 s path m =
      let (ok, s') = files.init s in
      let load = files.filesize s' path >>= λ found. or_none m found λ size.
        let read = files.read_at s' path 0 52 >>= λ got. or_none m got λ bytes.
          let program = load_program s' path size (ehdr_of bytes) m in
          if length bytes != 52
          then done (none, m)
          else if check_header (ehdr_of bytes)
          then program
          else done (none, m) in
        if ltb size 52 then done (none, m) else read in
      if ok then load else done (none, m)
