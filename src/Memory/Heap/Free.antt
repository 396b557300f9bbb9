-- ===== src/Memory/Heap/Free.antt =====
-- `kfree` frees a block and merges free blocks that stand side by side.
use astra_os.Base.{
  ℕ, ◌+◌, ◌<◌, ◌≡◌, ◌∙◌, refl, sym, arith, true, false, ◌==◌, ◌!=◌, length, sub32, done,
}
use astra_os.Memory.Heap.{Heap, heap_magic, header_size, set_free, kfree}
use astra_os.Memory.Heap.Blocks.{Pieces, first_of, IsHeap}
use astra_os.Memory.Heap.Freed.{
  has_block, freed_at, has_block-In, first_of-freed_at, length-freed_at, Laid-freed_at,
}
use astra_os.Memory.Heap.Merged.{merged, IsMerged, merged-IsMerged, first_of-merged, merge-IsHeap}

abbrev pub after_free : ℕ → ℕ → Pieces → Pieces
after_free addr start bs = merged (freed_at addr bs start)

-- The address behind the header of a block of the heap is freed: the block is free from then on,
-- and free blocks that stand side by side are one block of all their bytes, headers included. The
-- heap is again a list of blocks between the same two addresses.
pub kfree-IsHeap :
    (fuel start addr : ℕ) (bs : Pieces) (h : Heap)
    → IsHeap start bs h
    → has_block addr bs start ≡ true
    → length bs < fuel
    → (h' : Heap) × (kfree fuel (addr + header_size) h ≡ done h')
      × IsHeap start (after_free addr start bs) h'
      × IsMerged (after_free addr start bs)
unfolding kfree
kfree-IsHeap fuel start addr bs h i has enough =
    let e = h.heap_end_addr in
    let (lo, hi, magic) = has_block-In h.block e addr bs start i.laid has in
    let freed = freed_at addr bs start in
    let laid = Laid-freed_at h.block e addr bs start i.laid has in
    let (block', run, after) =
      merge-IsHeap fuel start e freed (set_free true addr h.block) laid i.rooted i.small
        (omega (arith, length-freed_at addr bs start)) in
    let head : h.heap_head ≡ first_of freed start =
      i.head ∙ sym (first_of-freed_at addr bs start start) in
    let back : sub32 (addr + header_size) header_size ≡ addr = omega (arith, i.small) in
    let z : (addr + header_size == 0) ≡ false = ground arith in
    let m : ((h.block addr).magic != heap_magic) ≡ false = rw magic refl in
    (
      record h { block = block' },
      rw (back, z, m, head, run) refl,
      record {
        rooted = i.rooted;
        head = head ∙ sym (first_of-merged freed start);
        laid = after;
        small = i.small;
      },
      merged-IsMerged freed,
    )
