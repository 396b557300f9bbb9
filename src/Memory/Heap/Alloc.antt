-- ===== src/Memory/Heap/Alloc.antt =====
-- `kmalloc` takes the first free block that is large enough, or adds one at the end.
use astra_os.Base.{
  ℕ, ◌+◌, ◌<◌, ◌≡◌, ◌≢◌, ◌^◌, ◌∙◌, refl, sym, arith, inl, inr, true, false, ◌==◌, ◌!=◌,
  if◌then◌else◌, [], ◌∷◌, ◌++◌, length, u32, done, Bool-cases,
}
use astra_os.Memory.Heap.{Heap, header_size, find_free_block, set_free, align4, kmalloc}
use astra_os.Memory.Heap.Blocks.{Pieces, IsHeap}
use astra_os.Memory.Heap.Fit.{
  first_fit, taken, first_of-taken, find_free_block-fit, first_fit-In, Laid-taken,
}
use astra_os.Memory.Heap.Grown.{extend_heap-IsHeap}

-- the blocks after an allocation of `size` bytes
abbrev pub allocated : ℕ → ℕ → Pieces → Pieces
allocated size start bs =
    if first_fit size bs start == 0 then bs ++ (size, false) ∷ [] else taken size bs

-- where the block for it stands, in a heap that ends at `e`
abbrev pub place : ℕ → ℕ → Pieces → ℕ → ℕ
place size start bs e = if first_fit size bs start == 0 then e else first_fit size bs start

zero_not : (n : ℕ) → (n == 0) ≡ true → (n != 0) ≡ false
zero_not n h = ground arith

nonzero_not : (n : ℕ) → (n == 0) ≡ false → (n != 0) ≡ true
nonzero_not n h = ground arith

nonzero : (n : ℕ) → (n == 0) ≡ false → n ≢ 0
nonzero n h = ground arith

-- In a heap of blocks that stand one behind the other, with room for the request behind them,
-- `kmalloc` returns the address behind the header of the first free block that is large enough, and
-- that block is in use from then on; if there is none, it returns the address behind the header of
-- a new block of the rounded size at the end. The other blocks are as they were, and the heap is
-- again of that form.
pub kmalloc-IsHeap :
    (fuel start size : ℕ) (bs : Pieces) (h : Heap)
    → IsHeap start bs h
    → h.heap_end_addr + (header_size + align4 size) < 2 ^ 32
    → length bs < fuel
    → (h' : Heap) × (kmalloc fuel size h
        ≡ done (place (align4 size) start bs h.heap_end_addr + header_size, h'))
      × IsHeap start (allocated (align4 size) start bs) h'
unfolding kmalloc
kmalloc-IsHeap fuel start size bs h i room enough =
    let n = align4 size in
    let fit = first_fit n bs start in
    let found : find_free_block fuel h.block n h.heap_head ≡ done fit =
      rw i.head
        (find_free_block-fit fuel h.block n h.heap_end_addr bs start i.laid i.rooted enough) in
    elim (Bool-cases (fit == 0))
      as (λ _.
        (h' : Heap) × (kmalloc fuel size h
          ≡ done (place n start bs h.heap_end_addr + header_size, h'))
        × IsHeap start (allocated n start bs) h') [
          | inl none ↦
              let (h', run, after) = extend_heap-IsHeap fuel start n bs h i room enough in
              let t = zero_not fit none in
              let no_wrap : u32 (h.heap_end_addr + header_size) ≡ h.heap_end_addr + header_size =
                omega arith in
              (h', rw (found, none, t, run, no_wrap) refl, rw none after)
          | inr some_fit ↦
              let t = nonzero_not fit some_fit in
              let free = nonzero fit some_fit in
              let near = first_fit-In h.block n h.heap_end_addr bs start i.laid free in
              let no_wrap : u32 (fit + header_size) ≡ fit + header_size =
                omega (arith, near, i.small, room) in
              (
                record h { block = set_free false fit h.block },
                rw (found, t, some_fit, no_wrap) refl,
                rw some_fit (record {
                  rooted = i.rooted;
                  head = i.head ∙ sym (first_of-taken n bs start);
                  laid = Laid-taken h.block n h.heap_end_addr bs start i.laid free;
                  small = i.small;
                }),
              )
        ]
