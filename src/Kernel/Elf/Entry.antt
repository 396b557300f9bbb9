-- ===== src/Kernel/Elf/Entry.antt =====
-- The image that a successful load returns.
use astra_os.Base.{
  ℕ, ◌≤◌, ◌<◌, ◌≡◌, Bool, true, false, arith, ltb, ◌!=◌, u32, ◌+◌, ◌*◌, List, length, Option, none,
  some, Run, done, Ends, Ends-bind, Ends-any, Ends-if, Ends-done,
}
use astra_os.Kernel.Bytes.{Mem}
use astra_os.Kernel.Files.{Files}
use astra_os.Kernel.Elf.{
  Ehdr, Loaded, Image, finish_load, load_program, load_segments, phdrs_of, elf32_load_from_fat16,
  user_min_vaddr, user_max_vaddr, or_none, check_header, ehdr_of,
}
use astra_os.Kernel.Elf.Bounds.{IsBounded, load_segments-IsBounded}

-- the entry point lies in the image, and the image in the user window
abbrev pub IsImage : Option Image → Type 0
IsImage none = Unit
IsImage (some img) =
    (user_min_vaddr ≤ img.low)
    × (img.low ≤ img.entry)
    × (img.entry < img.high)
    × (img.high ≤ user_max_vaddr)

finish_load-IsImage :
    (entry : ℕ) (ok : Bool) (acc : Loaded) → IsBounded acc → IsImage (finish_load entry (ok, acc)).0
unfolding finish_load
finish_load-IsImage entry false acc k = tt
finish_load-IsImage entry true acc k = ground arith

module _ (files : Files) where
  Q : Option Image × Mem → Type 0
  Q r = IsImage r.0

  or_none-Ends :
      {A : Type 0} (m : Mem) (o : Option A) (f : A → Run (Option Image × Mem))
      → ((a : A) → Ends Q (f a))
      → Ends Q (or_none m o f)
  unfolding Q
  or_none-Ends m none f h = tt
  or_none-Ends m (some a) f h = h a

  load_program-Ends :
      (s : files.State) (path : List ℕ) (size : ℕ) (eh : Ehdr) (m : Mem)
      → Ends Q (load_program files s path size eh m)
  unfolding load_program Q
  load_program-Ends s path size eh m =
      let table_bytes = eh.e_phnum * eh.e_phentsize in
      let start : Loaded = record { low = 0xFFFFFFFF; high = 0; mem = m } in
      Ends-if Q (ltb size (u32 (eh.e_phoff + table_bytes))) _ _ (λ _. tt)
        λ _.
          Ends-if Q (ltb 32 eh.e_phnum) _ _ (λ _. tt)
            λ _.
              Ends-bind (λ _. Unit) Q (files.read_at s path eh.e_phoff table_bytes) _ (Ends-any _)
                λ read _ _. or_none-Ends m read _ λ bytes.
                  Ends-if Q (length bytes != table_bytes) _ _ (λ _. tt)
                    λ _.
                      Ends-bind (λ r. IsBounded r.1) Q
                        (load_segments files s path size (phdrs_of eh.e_phnum bytes) start) _
                        (load_segments-IsBounded files s path size (phdrs_of eh.e_phnum bytes) start
                          (omega arith))
                        λ (ok, acc) _ k. finish_load-IsImage eh.e_entry ok acc k

  -- A load that succeeds returns an entry point inside the image, and an image inside the user
  -- window.
  pub elf32_load-IsImage :
      (s : files.State) (path : List ℕ) (m m' : Mem) (img : Image)
      → elf32_load_from_fat16 files s path m ≡ done (some img, m')
      → (user_min_vaddr ≤ img.low)
        × (img.low ≤ img.entry)
        × (img.entry < img.high)
        × (img.high ≤ user_max_vaddr)
  unfolding elf32_load_from_fat16 Q
  elf32_load-IsImage s path m m' img h =
      Ends-done Q (elf32_load_from_fat16 files s path m) (some img, m') ends h
    where
      s' : files.State
      s' = (files.init s).1

      ends : Ends Q (elf32_load_from_fat16 files s path m)
      ends =
          Ends-if Q (files.init s).0 _ _
            (λ _.
              Ends-bind (λ _. Unit) Q (files.filesize s' path) _ (Ends-any _)
                λ found _ _. or_none-Ends m found _ λ size.
                  Ends-if Q (ltb size 52) _ _ (λ _. tt)
                    λ _.
                      Ends-bind (λ _. Unit) Q (files.read_at s' path 0 52) _ (Ends-any _)
                        λ got _ _. or_none-Ends m got _ λ bytes.
                          Ends-if Q (length bytes != 52) _ _ (λ _. tt)
                            λ _.
                              Ends-if Q (check_header (ehdr_of bytes)) _ _
                                (λ _. load_program-Ends s' path size (ehdr_of bytes) m) (λ _. tt))
            (λ _. tt)
