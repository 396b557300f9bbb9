-- ===== src/Memory/Heap/Blocks.antt =====
-- The heap as a list of blocks, each with its size and whether it is free.
use astra_os.Base.{ℕ, ◌+◌, ◌≤◌, ◌<◌, ◌≡◌, ◌^◌, ◌∙◌, arith, Bool, List, [], ◌∷◌}
use astra_os.Memory.Heap.{Block, Heap, heap_magic, header_size}

abbrev pub Pieces : Type 0
Pieces = List (ℕ × Bool)

-- the address of the first block, which stands at `a`
abbrev pub first_of : Pieces → ℕ → ℕ
first_of [] a = 0
first_of (_ ∷ _) a = a

abbrev pub header : ℕ → Bool → ℕ → Block
header n v next = record { magic = heap_magic; size = n; is_free = v; next = next }

-- The blocks stand one behind the other from `a` to `e`, each linked to the one behind it.
abbrev pub Laid : (ℕ → Block) → ℕ → Pieces → ℕ → Type 0
Laid block a [] e = a ≡ e
Laid block a ((n, v) ∷ bs) e =
    let behind = a + (header_size + n) in
    (block a ≡ header n v (first_of bs behind)) × Laid block behind bs e

pub record IsHeap (start : ℕ) (bs : Pieces) (h : Heap) : Type 0 where
  pub rooted : 0 < start
  pub head : h.heap_head ≡ first_of bs start
  pub laid : Laid h.block start bs h.heap_end_addr
  pub small : h.heap_end_addr < 2 ^ 32

module _ (block : ℕ → Block) (e : ℕ) where
  pub Laid-le : (bs : Pieces) (a : ℕ) → Laid block a bs e → a ≤ e
  Laid-le [] a same = omega arith
  Laid-le ((n, v) ∷ bs) a (_, rest) = omega (arith, Laid-le bs (a + (header_size + n)) rest)

  -- what happens outside the heap does not matter
  pub Laid-frame :
      (block' : ℕ → Block) (bs : Pieces) (a : ℕ)
      → ((x : ℕ) → a ≤ x → x < e → block' x ≡ block x)
      → Laid block a bs e
      → Laid block' a bs e
  Laid-frame block' [] a same laid = laid
  Laid-frame block' ((n, v) ∷ bs) a same (here, rest) =
      let behind = a + (header_size + n) in
      (
        same a (omega arith) (omega (arith, Laid-le bs behind rest)) ∙ here,
        Laid-frame block' bs behind (λ x lo hi. same x (omega arith) hi) rest,
      )
