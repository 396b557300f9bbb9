-- ===== src/Memory/Heap/Fit.antt =====
-- The first free block that is large enough.
use astra_os.Base.{
  ℕ, zero, suc, ◌+◌, ◌≤◌, ◌<◌, ◌≡◌, ◌≢◌, ◌∙◌, refl, ap, arith, inl, inr, false, ◌&&◌, ◌==◌, leb,
  if◌then◌else◌, [], ◌∷◌, length, update_self, update_ne, done, Bool-cases,
}
use astra_os.Memory.Heap.{Block, header_size, find_free_block, set_free}
use astra_os.Memory.Heap.Blocks.{Pieces, first_of, Laid, Laid-le, Laid-frame}

-- the address of the first free block of at least `size` bytes, 0 if there is none
abbrev pub first_fit : ℕ → Pieces → ℕ → ℕ
first_fit size [] a = 0
first_fit size ((n, v) ∷ bs) a =
    if v && leb size n then a else first_fit size bs (a + (header_size + n))

-- that block in use
abbrev pub taken : ℕ → Pieces → Pieces
taken size [] = []
taken size ((n, v) ∷ bs) = if v && leb size n then (n, false) ∷ bs else (n, v) ∷ taken size bs

pub first_of-taken : (size : ℕ) (bs : Pieces) (a : ℕ) → first_of (taken size bs) a ≡ first_of bs a
first_of-taken size [] a = refl
first_of-taken size ((n, v) ∷ bs) a = ground arith

pub find_free_block-fit :
    (fuel : ℕ) (block : ℕ → Block) (size e : ℕ) (bs : Pieces) (a : ℕ)
    → Laid block a bs e
    → 0 < a
    → length bs < fuel
    → find_free_block fuel block size (first_of bs a) ≡ done (first_fit size bs a)
unfolding find_free_block
find_free_block-fit zero block size e bs a laid pos enough = absurd (omega arith)
find_free_block-fit (suc fuel) block size e [] a laid pos enough = refl
find_free_block-fit (suc fuel) block size e ((n, v) ∷ bs) a (here, rest) pos enough =
    let behind = a + (header_size + n) in
    let later = find_free_block-fit fuel block size e bs behind rest (omega arith) (omega arith) in
    let z : (a == 0) ≡ false = ground arith in
    rw (z, here)
      (elim (Bool-cases (v && leb size n)) [ inl fits ↦ rw fits refl | inr small ↦ rw small later ])

-- the fit stands in the heap
pub first_fit-In :
    (block : ℕ → Block) (size e : ℕ) (bs : Pieces) (a : ℕ)
    → Laid block a bs e
    → first_fit size bs a ≢ 0
    → (a ≤ first_fit size bs a) × (first_fit size bs a < e)
first_fit-In block size e [] a laid found = absurd (found refl)
first_fit-In block size e ((n, v) ∷ bs) a (here, rest) found =
    let behind = a + (header_size + n) in
    let le = Laid-le block e bs behind rest in
    elim (Bool-cases (v && leb size n)) [
      | inl fits ↦ rw fits (omega arith)
      | inr small ↦
          rw small (omega (arith, first_fit-In block size e bs behind rest (rw small at found)))
    ]

-- the header at the fit, marked as used
pub Laid-taken :
    (block : ℕ → Block) (size e : ℕ) (bs : Pieces) (a : ℕ)
    → Laid block a bs e
    → first_fit size bs a ≢ 0
    → Laid (set_free false (first_fit size bs a) block) a (taken size bs) e
Laid-taken block size e [] a laid found = absurd (found refl)
Laid-taken block size e ((n, v) ∷ bs) a (here, rest) found =
    let behind = a + (header_size + n) in
    elim (Bool-cases (v && leb size n)) [
      | inl fits ↦
          let mark : Block → Block = λ b. record b { is_free = false } in
          rw fits (
            update_self block a _ ∙ ap mark here,
            Laid-frame block e (set_free false a block) bs behind
                (λ x lo hi. update_ne block a _ x (omega arith)) rest,
          )
      | inr small ↦
          let found' : first_fit size bs behind ≢ 0 = rw small at found in
          let fit = first_fit size bs behind in
          let near = first_fit-In block size e bs behind rest found' in
          rw (small, first_of-taken size bs behind)
            (
              update_ne block fit _ a (omega (arith, near)) ∙ here,
              Laid-taken block size e bs behind rest found',
            )
    ]
