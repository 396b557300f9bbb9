-- ===== src/Tests/SmallHeap.antt =====
-- src/memory/kmalloc.c: a heap of three blocks.
use astra_os.Base.{◌≡◌, refl, arith, true, false, ◌==◌, if◌then◌else◌, [], ◌∷◌, done}
use astra_os.Memory.Heap.{Heap, kmalloc, kfree, align4}
use astra_os.Memory.Heap.Blocks.{Pieces, header, IsHeap}
use astra_os.Memory.Heap.Alloc.{kmalloc-IsHeap}
use astra_os.Memory.Heap.Merged.{IsMerged}
use astra_os.Memory.Heap.Free.{kfree-IsHeap}

abbrev three_blocks : Pieces
three_blocks = (8, false) ∷ (32, true) ∷ (4, false) ∷ []

abbrev small_heap : Heap
small_heap = record {
  block = λ a.
      if a == 4096
      then header 8 false 4120
      else if a == 4120
      then header 32 true 4168
      else header 4 false 0;
  heap_head = 4096;
  heap_end_addr = 4188;
}

small-IsHeap : IsHeap 4096 three_blocks small_heap
small-IsHeap = record {
  rooted = omega arith;
  head = refl;
  laid = (refl, (refl, (refl, refl)));
  small = omega arith;
}

-- ten bytes, which are rounded to twelve, fit the second block
kmalloc-IsHeap_example :
    (h : Heap) × (kmalloc 4 10 small_heap ≡ done (4136, h))
    × IsHeap 4096 ((8, false) ∷ (32, false) ∷ (4, false) ∷ []) h
unfolding align4
kmalloc-IsHeap_example =
    kmalloc-IsHeap 4 4096 10 three_blocks small_heap small-IsHeap (omega arith) (omega arith)

-- the first block is freed, and merged with the second
kfree-IsHeap_example :
    (h : Heap) × (kfree 4 4112 small_heap ≡ done h)
    × IsHeap 4096 ((56, true) ∷ (4, false) ∷ []) h
    × IsMerged ((56, true) ∷ (4, false) ∷ [])
kfree-IsHeap_example =
    kfree-IsHeap 4 4096 4096 three_blocks small_heap small-IsHeap refl (omega arith)
