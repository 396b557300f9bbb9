-- ===== src/Kernel/Elf/Bounds.antt =====
-- Where the loader writes, and what it returns.
use astra_os.Base.{
  ℕ, ◌+◌, ◌-◌, ◌^◌, ◌≤◌, ◌<◌, ◌≡◌, ◌∙◌, refl, ap, Bool, ◌||◌, arith, ltb, leb, ◌==◌, ◌!=◌,
  if◌then◌else◌, u32, List, [], ◌∷◌, length, All, Option, none, some, done, Ends, Ends-bind,
  Ends-any, Ends-if, Ends-done,
}
use astra_os.Kernel.Bytes.{Mem, write_bytes, Outside, write_bytes-Outside, memset-Outside}
use astra_os.Kernel.Files.{Files}
use astra_os.Kernel.Elf.{
  Phdr, Loaded, load_bytes, load_segment, load_segments, user_min_vaddr, user_max_vaddr,
}

-- A segment's file part is not longer than the segment, as the ELF format asks; the loader does
-- not check it.
pub record IsSized (ph : Phdr) : Type 0 where
  pub file_fits : ph.p_filesz ≤ ph.p_memsz
  pub is_word : ph.p_memsz < 2 ^ 32

-- the bounds so far, and the memory outside the user window
pub record IsKept (m : Mem) (acc : Loaded) : Type 0 where
  pub above : user_min_vaddr ≤ acc.low
  pub below : acc.high ≤ user_max_vaddr
  pub same : (a : ℕ) → Outside user_min_vaddr user_max_vaddr a → acc.mem a ≡ m a

load_bytes-IsKept :
    (m : Mem) (acc : Loaded) (ph : Phdr) (got : Option (List ℕ))
    → IsKept m acc
    → user_min_vaddr ≤ ph.p_vaddr
    → ph.p_vaddr + ph.p_memsz ≤ user_max_vaddr
    → ph.p_filesz ≤ ph.p_memsz
    → ((bytes : List ℕ) → got ≡ some bytes → length bytes ≤ ph.p_filesz)
    → IsKept m (load_bytes acc ph got).1
unfolding load_bytes
load_bytes-IsKept m acc ph none k lo hi fits short = k
load_bytes-IsKept m acc ph (some bytes) k lo hi fits short =
    let copied = write_bytes acc.mem ph.p_vaddr bytes in
    let at = u32 (ph.p_vaddr + ph.p_filesz) in
    let n = short bytes refl in
    record {
      above = ground (arith, k.above);
      below = ground (arith, k.below);
      same = λ a out. ground (
        arith,
        k.same a out,
        write_bytes-Outside acc.mem ph.p_vaddr bytes a,
        memset-Outside copied at 0 (ph.p_memsz - ph.p_filesz) a,
      );
    }

-- the bounds alone
abbrev pub IsBounded : Loaded → Type 0
IsBounded acc = (user_min_vaddr ≤ acc.low) × (acc.high ≤ user_max_vaddr)

-- `low` and `high` with a segment taken into account
abbrev pub widened : Phdr → Loaded → Loaded
widened ph acc =
    let seg_end = u32 (ph.p_vaddr + ph.p_memsz) in
    record acc {
      low = if ltb ph.p_vaddr acc.low then ph.p_vaddr else acc.low;
      high = if ltb acc.high seg_end then seg_end else acc.high;
    }

-- the segment lies in the user window, by the loader's test
abbrev pub InWindow : Phdr → Type 0
InWindow ph =
    let seg_end = u32 (ph.p_vaddr + ph.p_memsz) in
    (user_min_vaddr ≤ ph.p_vaddr) × (seg_end ≤ user_max_vaddr) × (ph.p_vaddr < seg_end)

module _ (files : Files) (s : files.State) (path : List ℕ) (size : ℕ) where
  -- what a step and the loop keep, from what they do to a segment that is loaded
  load_segment-Ends :
      (P : Loaded → Type 0) (ph : Phdr) (acc : Loaded)
      → P acc
      → ((got : Option (List ℕ))
          → InWindow ph
          → ((bytes : List ℕ) → got ≡ some bytes → length bytes ≤ ph.p_filesz)
          → P (load_bytes (widened ph acc) ph got).1)
      → Ends (λ r. P r.1) (load_segment files s path size ph acc)
  unfolding load_segment
  load_segment-Ends P ph acc k loaded =
      let seg_end = u32 (ph.p_vaddr + ph.p_memsz) in
      let out_of_window =
        ltb ph.p_vaddr user_min_vaddr || (ltb user_max_vaddr seg_end || leb seg_end ph.p_vaddr) in
      let read = files.read_at s path ph.p_offset ph.p_filesz in
      Ends-if (λ r. P r.1) (ph.p_type != 1) _ _ (λ _. k)
        λ _.
          Ends-if (λ r. P r.1) (ph.p_memsz == 0) _ _ (λ _. k)
            λ _.
              Ends-if (λ r. P r.1) (ltb size (u32 (ph.p_offset + ph.p_filesz))) _ _ (λ _. k)
                λ _.
                  Ends-if (λ r. P r.1) out_of_window _ _ (λ _. k)
                    λ range.
                      Ends-if (λ r. P r.1) (ltb 0 ph.p_filesz) _ _
                        (λ _.
                          Ends-bind (λ got. Unit) (λ r. P r.1) read _ (Ends-any read)
                            λ got e _. loaded got (ground arith) λ bytes f.
                              files.read_at-length s path ph.p_offset ph.p_filesz bytes
                                (e ∙ ap done f))
                        (λ _. loaded (some []) (ground arith) λ bytes f. ground arith)

  load_segments-IsKept :
      (m : Mem) (phs : List Phdr) (acc : Loaded)
      → All IsSized phs
      → IsKept m acc
      → Ends (λ r. IsKept m r.1) (load_segments files s path size phs acc)
  unfolding load_segments
  load_segments-IsKept m [] acc sized k = k
  load_segments-IsKept m (ph ∷ phs) acc sized k =
      Ends-bind (λ r. IsKept m r.1) (λ r. IsKept m r.1) (load_segment files s path size ph acc) _
        (load_segment-Ends (IsKept m) ph acc k λ got window short.
          load_bytes-IsKept m (widened ph acc) ph got (widened-IsKept window) window.0
            (omega (arith, sized.0.is_word)) sized.0.file_fits short)
        λ r e q.
          Ends-if (λ r. IsKept m r.1) r.0 _ _ (λ _. load_segments-IsKept m phs r.1 sized.1 q)
            (λ _. q)
    where
      widened-IsKept : InWindow ph → IsKept m (widened ph acc)
      widened-IsKept window = record {
        above = ground (arith, k.above);
        below = ground (arith, k.below);
        same = k.same;
      }

  -- The loop over the program headers leaves every byte outside the user window as it was,
  -- whether it loads all segments or stops, and keeps `low` and `high` within the window, if no
  -- segment's file part is longer than the segment.
  pub load_segments_window :
      (m : Mem) (phs : List Phdr) (ok : Bool) (acc : Loaded)
      → All IsSized phs
      → load_segments files s path size phs (record { low = 0xFFFFFFFF; high = 0; mem = m })
        ≡ done (ok, acc)
      → IsKept m acc
  load_segments_window m phs ok acc sized h =
      Ends-done (λ (r : Bool × Loaded). IsKept m r.1) _ (ok, acc)
        (load_segments-IsKept m phs _ sized
          (record { above = omega arith; below = omega arith; same = λ a out. refl }))
        h

  -- the same for the bounds alone, whatever the sizes
  IsBounded-load_bytes :
      (acc : Loaded) (ph : Phdr) (got : Option (List ℕ))
      → IsBounded acc
      → IsBounded (load_bytes acc ph got).1
  unfolding load_bytes
  IsBounded-load_bytes acc ph none k = k
  IsBounded-load_bytes acc ph (some bytes) k = ground arith

  pub load_segments-IsBounded :
      (phs : List Phdr) (acc : Loaded)
      → IsBounded acc
      → Ends (λ r. IsBounded r.1) (load_segments files s path size phs acc)
  unfolding load_segments
  load_segments-IsBounded [] acc k = k
  load_segments-IsBounded (ph ∷ phs) acc k =
      Ends-bind (λ r. IsBounded r.1) (λ r. IsBounded r.1) (load_segment files s path size ph acc) _
        (load_segment-Ends IsBounded ph acc k
          λ got window short. IsBounded-load_bytes (widened ph acc) ph got (ground arith))
        λ r e q.
          Ends-if (λ r. IsBounded r.1) r.0 _ _ (λ _. load_segments-IsBounded phs r.1 q) (λ _. q)
