-- ===== src/Memory/Heap/Grown.antt =====
-- The heap with one more block at its end.
use astra_os.Base.{
  ℕ, zero, suc, ◌+◌, ◌<◌, ◌≡◌, ◌^◌, ◌∙◌, refl, ap, arith, Bool, false, ◌==◌, [], ◌∷◌, ◌++◌, length,
  u32, update, update_self, update_ne, done,
}
use astra_os.Memory.Heap.{Block, Heap, header_size, append_block, extend_heap}
use astra_os.Memory.Heap.Blocks.{Pieces, header, Laid, Laid-frame, IsHeap}

-- the last block, linked to a new one behind it
append_block-Laid :
    (fuel : ℕ) (block : ℕ → Block) (size e : ℕ) (bs : Pieces) (n : ℕ) (v : Bool) (a : ℕ)
    → Laid block a ((n, v) ∷ bs) e
    → block e ≡ header size false 0
    → 0 < a
    → length bs < fuel
    → (block' : ℕ → Block) × (append_block fuel block a e ≡ done block')
      × Laid block' a (((n, v) ∷ bs) ++ (size, false) ∷ []) (e + (header_size + size))
      × ((x : ℕ) → x < a → block' x ≡ block x)
unfolding append_block
append_block-Laid zero block size e bs n v a laid new pos enough = absurd (omega arith)
append_block-Laid (suc fuel) block size e [] n v a (here, end) new pos enough =
    let link : Block → Block = λ b. record b { next = e } in
    (
      update block a (link (block a)),
      rw here refl,
      (
        update_self block a _ ∙ ap link here ∙ rw end refl,
        (
          rw end (update_ne block a _ e (omega arith) ∙ new),
          ap (λ x. x + (header_size + size)) end,
        ),
      ),
      λ x lo. update_ne block a _ x (omega arith),
    )
append_block-Laid (suc fuel) block size e ((k, w) ∷ bs) n v a (here, rest) new pos enough =
    let behind = a + (header_size + n) in
    let (block', run, laid, same) =
      append_block-Laid fuel block size e bs k w behind rest new (omega arith) (omega arith) in
    let z : (behind == 0) ≡ false = ground arith in
    (block', rw (here, z) run, (same a (omega arith) ∙ here, laid), λ x lo. same x (omega arith))

pub extend_heap-IsHeap :
    (fuel start size : ℕ) (bs : Pieces) (h : Heap)
    → IsHeap start bs h
    → h.heap_end_addr + (header_size + size) < 2 ^ 32
    → length bs < fuel
    → (h' : Heap) × (extend_heap fuel size h ≡ done (h.heap_end_addr, h'))
      × IsHeap start (bs ++ (size, false) ∷ []) h'
unfolding extend_heap
extend_heap-IsHeap fuel start size [] h i room enough =
    let e = h.heap_end_addr in
    let no_wrap : u32 (e + (header_size + size)) ≡ e + (header_size + size) = omega arith in
    (
      record {
        block = update h.block e (header size false 0);
        heap_head = e;
        heap_end_addr = e + (header_size + size);
      },
      rw (i.head, no_wrap) refl,
      record {
        rooted = i.rooted;
        head = omega (arith, i.laid);
        laid = (rw i.laid (update_self h.block e _), omega (arith, i.laid));
        small = omega arith;
      },
    )
extend_heap-IsHeap fuel start size ((n, v) ∷ bs) h i room enough =
    let e = h.heap_end_addr in
    let no_wrap : u32 (e + (header_size + size)) ≡ e + (header_size + size) = omega arith in
    let added = update h.block e (header size false 0) in
    let old =
      Laid-frame h.block e added ((n, v) ∷ bs) start
        (λ x lo hi. update_ne h.block e _ x (omega arith)) i.laid in
    let (block', run, laid, same) =
      append_block-Laid fuel added size e bs n v start old (update_self h.block e _) i.rooted
        (omega arith) in
    let z : (start == 0) ≡ false = ground (arith, i.rooted) in
    (
      record { block = block'; heap_head = h.heap_head; heap_end_addr = e + (header_size + size) },
      rw (i.head, z, run, no_wrap) refl,
      record { rooted = i.rooted; head = i.head; laid = laid; small = omega arith },
    )
