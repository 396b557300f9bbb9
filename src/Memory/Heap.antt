-- ===== src/Memory/Heap.antt =====
-- src/memory/kmalloc.c: the heap, as headers in memory that are linked by their addresses.
pub mod Blocks
pub mod Fit
pub mod Grown
pub mod Alloc
pub mod Freed
pub mod Merged
pub mod Free
use astra_os.Base.{
  ℕ, zero, suc, ◌+◌, ◌*◌, ◌/◌, Bool, true, false, ◌&&◌, ◌==◌, ◌!=◌, leb, if◌then◌else◌, u32, sub32,
  update, Run, done, fault, out_of_fuel, ◌>>=◌,
}

abbrev pub heap_magic : ℕ
heap_magic = 0xAABBCCDD

-- `sizeof(heap_block_t)`
abbrev pub header_size : ℕ
header_size = 16

-- `heap_block_t`; `next` is an address, 0 for NULL
pub record Block : Type 0 where
  pub magic : ℕ
  pub size : ℕ
  pub is_free : Bool
  pub next : ℕ

-- the static variables, and the headers in memory by their addresses
pub record Heap : Type 0 where
  pub block : ℕ → Block
  pub heap_head : ℕ
  pub heap_end_addr : ℕ

-- `(size + 3) & ~3`
unfoldable pub align4 : ℕ → ℕ
align4 size = u32 (size + 3) / 4 * 4

unfoldable pub kmalloc_init : ℕ → Heap → Heap
kmalloc_init heap_start h = record h { heap_head = 0; heap_end_addr = heap_start }

-- The loop of `find_free_block`; the halt on a corrupted header is a fault.
unfoldable pub find_free_block : ℕ → (ℕ → Block) → ℕ → ℕ → Run ℕ
find_free_block zero block size current = out_of_fuel
find_free_block (suc fuel) block size current =
    let b = block current in
    let later = find_free_block fuel block size b.next in
    if current == 0
    then done 0
    else if b.magic != heap_magic
    then fault
    else if b.is_free && leb size b.size
    then done current
    else later

-- `while (current->next) current = current->next; current->next = new_block;`
unfoldable pub append_block : ℕ → (ℕ → Block) → ℕ → ℕ → Run (ℕ → Block)
append_block zero block current new = out_of_fuel
append_block (suc fuel) block current new =
    let b = block current in
    let later = append_block fuel block b.next new in
    if b.next == 0 then done (update block current (record b { next = new })) else later

unfoldable pub extend_heap : ℕ → ℕ → Heap → Run (ℕ × Heap)
unfolding append_block update
extend_heap fuel size h =
    let new_block = h.heap_end_addr in
    let block =
      update h.block new_block
        (record { magic = heap_magic; size = size; is_free = false; next = 0 }) in
    let end_addr = u32 (h.heap_end_addr + (header_size + size)) in
    let linked = append_block fuel block h.heap_head new_block >>= λ block'.
    done
      (new_block, record { block = block'; heap_head = h.heap_head; heap_end_addr = end_addr }) in
    if h.heap_head == 0
    then done (new_block, record { block = block; heap_head = new_block; heap_end_addr = end_addr })
    else linked

-- `block->free = v`
abbrev pub set_free : Bool → ℕ → (ℕ → Block) → ℕ → Block
set_free v addr block = update block addr (record (block addr) { is_free = v })

-- the pointer that is returned, and the heap
unfoldable pub kmalloc : ℕ → ℕ → Heap → Run (ℕ × Heap)
unfolding find_free_block extend_heap align4 update
kmalloc fuel size h = do
  found ← find_free_block fuel h.block (align4 size) h.heap_head
  let reused : ℕ × Heap =
      (u32 (found + header_size), record h { block = set_free false found h.block })
  let extended =
      extend_heap fuel (align4 size) h >>= λ (new, h'). done (u32 (new + header_size), h')
  if found != 0 then done reused else extended

-- The loop of `merge_free_blocks`: a merge stays at `current`.
unfoldable pub merge_free_blocks : ℕ → (ℕ → Block) → ℕ → Run (ℕ → Block)
unfolding update
merge_free_blocks zero block current = out_of_fuel
merge_free_blocks (suc fuel) block current =
    let b = block current in
    let n = block b.next in
    let merged : ℕ → Block =
      update block current
        (record b { size = u32 (b.size + (header_size + n.size)); next = n.next }) in
    let stay = merge_free_blocks fuel merged current in
    let later = merge_free_blocks fuel block b.next in
    if (current == 0)
    then done block
    else if b.next == 0
    then done block
    else if b.is_free && n.is_free
    then stay
    else later

-- An invalid pointer is reported and ignored.
unfoldable pub kfree : ℕ → ℕ → Heap → Run Heap
unfolding merge_free_blocks update
kfree fuel ptr h =
    let addr = sub32 ptr header_size in
    let freed = merge_free_blocks fuel (set_free true addr h.block) h.heap_head >>= λ block.
    done (record h { block = block }) in
    if ptr == 0 then done h else if (h.block addr).magic != heap_magic then done h else freed
