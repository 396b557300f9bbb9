-- ===== src/Kernel/Elf/Content.antt =====
-- What a loaded segment leaves in memory.
use astra_os.Base.{
  ℕ, ◌+◌, ◌-◌, ◌^◌, ◌≤◌, ◌<◌, ◌≡◌, refl, true, false, ◌||◌, inl, inr, arith, ltb, leb, ◌==◌, ◌!=◌,
  if◌then◌else◌, Bool-cases, u32, List, [], ◌∷◌, length, get_or, some, done,
}
use astra_os.Kernel.Bytes.{
  Mem, write_bytes, memset, write_bytes_inside, memset-Outside, memset_inside,
}
use astra_os.Kernel.Files.{Files}
use astra_os.Kernel.Elf.{Phdr, Loaded, load_bytes, load_segment, user_min_vaddr, user_max_vaddr}
use astra_os.Kernel.Elf.Bounds.{widened, InWindow}

-- the memory after the copy and the zero fill
unfoldable pub image_mem : Mem → Phdr → List ℕ → Mem
image_mem m ph bytes =
    let copied = write_bytes m ph.p_vaddr bytes in
    if ltb ph.p_filesz ph.p_memsz
    then memset copied (u32 (ph.p_vaddr + ph.p_filesz)) 0 (ph.p_memsz - ph.p_filesz)
    else copied

module _ (m : Mem) (ph : Phdr) (bytes : List ℕ) (whole : length bytes ≡ ph.p_filesz)
    (no_wrap : ph.p_vaddr + ph.p_filesz < 2 ^ 32) where
  abbrev copied : Mem
  copied = write_bytes m ph.p_vaddr bytes

  abbrev tail : ℕ
  tail = ph.p_memsz - ph.p_filesz

  image_mem-file :
      (i : ℕ) → i < ph.p_filesz → image_mem m ph bytes (ph.p_vaddr + i) ≡ get_or bytes i 0
  unfolding image_mem
  image_mem-file i h = ground (
    arith,
    write_bytes_inside m ph.p_vaddr bytes i,
    memset-Outside copied (u32 (ph.p_vaddr + ph.p_filesz)) 0 tail (ph.p_vaddr + i),
  )

  image_mem-bss :
      (i : ℕ) → ph.p_filesz ≤ i → i < ph.p_memsz → image_mem m ph bytes (ph.p_vaddr + i) ≡ 0
  unfolding image_mem
  image_mem-bss i lo hi =
      let at : u32 (ph.p_vaddr + ph.p_filesz) ≡ ph.p_vaddr + ph.p_filesz = omega arith in
      let e : ph.p_vaddr + i ≡ ph.p_vaddr + ph.p_filesz + (i - ph.p_filesz) = omega arith in
      let more : ltb ph.p_filesz ph.p_memsz ≡ true = ground arith in
      rw (more, at, e)
        (memset_inside copied (ph.p_vaddr + ph.p_filesz) 0 tail (i - ph.p_filesz) (omega arith))

nil_of_length : (bs : List ℕ) → length bs ≡ 0 → bs ≡ []
nil_of_length [] h = refl
nil_of_length (b ∷ bs) h = absurd (omega arith)

module _ (files : Files) (s : files.State) (path : List ℕ) (size : ℕ) (ph : Phdr) (acc : Loaded)
    (bytes : List ℕ) where
  load_segment-done :
      ph.p_type ≡ 1
      → 0 < ph.p_memsz
      → u32 (ph.p_offset + ph.p_filesz) ≤ size
      → InWindow ph
      → files.read_at s path ph.p_offset ph.p_filesz ≡ done (some bytes)
      → length bytes ≡ ph.p_filesz
      → load_segment files s path size ph acc
        ≡ done (true, record (widened ph acc) { mem = image_mem acc.mem ph bytes })
  unfolding load_segment image_mem load_bytes
  load_segment-done type pos inside window read whole =
      let t : (ph.p_type != 1) ≡ false = ground arith in
      let z : (ph.p_memsz == 0) ≡ false = ground arith in
      let f : ltb size (u32 (ph.p_offset + ph.p_filesz)) ≡ false = ground arith in
      let seg_end = u32 (ph.p_vaddr + ph.p_memsz) in
      let w : (ltb ph.p_vaddr user_min_vaddr
            || (ltb user_max_vaddr seg_end || leb seg_end ph.p_vaddr))
          ≡ false =
        ground arith in
      let complete : (length bytes != ph.p_filesz) ≡ false = ground arith in
      elim (Bool-cases (ltb 0 ph.p_filesz)) [
        | inl some_bytes ↦
            rw (t, z, f, w, some_bytes, read) (load_bytes-whole (widened ph acc) bytes complete)
        | inr no_bytes ↦
            let e : bytes ≡ [] = nil_of_length bytes (ground arith) in
            rw (t, z, f, w, no_bytes, e) (load_bytes-whole (widened ph acc) [] (rw e at complete))
      ]
    where
      load_bytes-whole :
          (a : Loaded) (bs : List ℕ)
          → (length bs != ph.p_filesz) ≡ false
          → done (load_bytes a ph (some bs)) ≡ done (true, record a { mem = image_mem a.mem ph bs })
      load_bytes-whole a bs complete = rw complete

  -- A PT_LOAD segment in the user window, all of whose file part the file system delivers, is
  -- loaded: its bytes stand at its address and zeros behind them up to its size in memory. The
  -- bytes are copied whatever the size in memory is, also past the end of the segment.
  pub load_segment_content :
      ph.p_type ≡ 1
      → 0 < ph.p_memsz
      → u32 (ph.p_offset + ph.p_filesz) ≤ size
      → InWindow ph
      → ph.p_vaddr + ph.p_filesz < 2 ^ 32
      → files.read_at s path ph.p_offset ph.p_filesz ≡ done (some bytes)
      → length bytes ≡ ph.p_filesz
      → (acc' : Loaded) × (load_segment files s path size ph acc ≡ done (true, acc'))
        × ((i : ℕ) → i < ph.p_filesz → acc'.mem (ph.p_vaddr + i) ≡ get_or bytes i 0)
        × ((i : ℕ) → ph.p_filesz ≤ i → i < ph.p_memsz → acc'.mem (ph.p_vaddr + i) ≡ 0)
  load_segment_content type pos inside window no_wrap read whole = (
    record (widened ph acc) { mem = image_mem acc.mem ph bytes },
    load_segment-done type pos inside window read whole,
    image_mem-file acc.mem ph bytes whole no_wrap,
    image_mem-bss acc.mem ph bytes whole no_wrap,
  )
