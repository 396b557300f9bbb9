-- ===== src/Memory/Heap/Freed.antt =====
-- The heap with one of its blocks marked free.
use astra_os.Base.{
  ℕ, ◌+◌, ◌≤◌, ◌≡◌, ◌∙◌, refl, ap, arith, inl, inr, Bool, true, false, ◌||◌, ◌==◌, if◌then◌else◌,
  [], ◌∷◌, length, update_self, update_ne, Bool-cases, ==→eq,
}
use mathlib.Core.Path.{subst}
use astra_os.Memory.Heap.{Block, heap_magic, header_size, set_free}
use astra_os.Memory.Heap.Blocks.{Pieces, first_of, Laid, Laid-le, Laid-frame}

-- a block stands at `x`
abbrev pub has_block : ℕ → Pieces → ℕ → Bool
has_block x [] a = false
has_block x ((n, v) ∷ bs) a = (a == x) || has_block x bs (a + (header_size + n))

-- that block free
abbrev pub freed_at : ℕ → Pieces → ℕ → Pieces
freed_at x [] a = []
freed_at x ((n, v) ∷ bs) a =
    if a == x then (n, true) ∷ bs else (n, v) ∷ freed_at x bs (a + (header_size + n))

pub first_of-freed_at :
    (x : ℕ) (bs : Pieces) (a c : ℕ) → first_of (freed_at x bs a) c ≡ first_of bs c
first_of-freed_at x [] a c = refl
first_of-freed_at x ((n, v) ∷ bs) a c = ground arith

pub length-freed_at : (x : ℕ) (bs : Pieces) (a : ℕ) → length (freed_at x bs a) ≡ length bs
length-freed_at x [] a = refl
length-freed_at x ((n, v) ∷ bs) a = ground (arith, length-freed_at x bs (a + (header_size + n)))

pub has_block-In :
    (block : ℕ → Block) (e x : ℕ) (bs : Pieces) (a : ℕ)
    → Laid block a bs e
    → has_block x bs a ≡ true
    → (a ≤ x) × (x + header_size ≤ e) × ((block x).magic ≡ heap_magic)
has_block-In block e x [] a laid has = cc
has_block-In block e x ((n, v) ∷ bs) a (here, rest) has =
    let behind = a + (header_size + n) in
    let le = Laid-le block e bs behind rest in
    elim (Bool-cases (a == x)) [
      | inl at ↦
          let same = ==→eq a x at in
          let magic : (block a).magic ≡ heap_magic = ap (λ (b : Block). b.magic) here in
          (omega arith, omega arith, subst (λ y. (block y).magic ≡ heap_magic) same magic)
      | inr later ↦
          let more = has_block-In block e x bs behind rest (rw later at has) in
          (omega (arith, more.0), more.1, more.2)
    ]

freed_here :
    (block : ℕ → Block) (e n : ℕ) (v : Bool) (bs : Pieces) (a : ℕ)
    → Laid block a ((n, v) ∷ bs) e
    → Laid (set_free true a block) a ((n, true) ∷ bs) e
freed_here block e n v bs a (here, rest) =
    let mark : Block → Block = λ b. record b { is_free = true } in
    (
      update_self block a _ ∙ ap mark here,
      Laid-frame block e (set_free true a block) bs (a + (header_size + n))
          (λ y lo hi. update_ne block a _ y (omega arith)) rest,
    )

pub Laid-freed_at :
    (block : ℕ → Block) (e x : ℕ) (bs : Pieces) (a : ℕ)
    → Laid block a bs e
    → has_block x bs a ≡ true
    → Laid (set_free true x block) a (freed_at x bs a) e
Laid-freed_at block e x [] a laid has = cc
Laid-freed_at block e x ((n, v) ∷ bs) a (here, rest) has =
    let behind = a + (header_size + n) in
    elim (Bool-cases (a == x)) [
      | inl at ↦ rw at (
          subst (λ y. Laid (set_free true y block) a ((n, true) ∷ bs) e) (==→eq a x at)
            (freed_here block e n v bs a (here, rest)))
      | inr later ↦
          let has' : has_block x bs behind ≡ true = rw later at has in
          let near = has_block-In block e x bs behind rest has' in
          rw (later, first_of-freed_at x bs behind behind)
            (
              update_ne block x _ a (omega (arith, near.0)) ∙ here,
              Laid-freed_at block e x bs behind rest has',
            )
    ]
