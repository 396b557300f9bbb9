-- ===== src/Memory/Paging.antt =====
-- src/memory/paging.c: the page directory and the one page table, which identity-maps 4 MB.
pub mod Range
pub mod Access
use astra_os.Base.{
  ℕ, zero, suc, ◌+◌, ◌*◌, ◌/◌, ◌^◌, Bool, true, false, Option, none, some, bit_and, bit_or, ltb,
  leb, if◌then◌else◌, u32, update,
}

abbrev pub page_size : ℕ
page_size = 4096

-- the end of the memory that the first page table maps
abbrev pub mapped_end : ℕ
mapped_end = 0x400000

-- `page_directory` and `first_page_table`, with the addresses at which they stand and CR3
pub record Paging : Type 0 where
  pub directory : ℕ → ℕ
  pub table : ℕ → ℕ
  pub directory_addr : ℕ
  pub table_addr : ℕ
  pub cr3 : ℕ
  pub enabled : Bool

-- writes CR3, then sets the PG bit of CR0
unfoldable pub paging_enable : ℕ → Paging → Paging
paging_enable addr s = record s { cr3 = addr; enabled = true }

unfoldable pub paging_flush : Paging → Paging
paging_flush s = record s { cr3 = s.directory_addr }

-- `for (int i = 0; i < 1024; i++) table[i] = entry(i)`
fill_loop : (ℕ → ℕ) → ℕ → ℕ → (ℕ → ℕ) → ℕ → ℕ
fill_loop entry zero i t = t
fill_loop entry (suc left) i t = fill_loop entry left (i + 1) (update t i (entry i))

unfoldable pub paging_init : Paging → Paging
unfolding fill_loop paging_enable
paging_init s =
    let cleared = fill_loop (λ i. 0x00000002) 1024 0 s.directory in
    let filled = fill_loop (λ i. bit_or (u32 (i * page_size)) 3) 1024 0 s.table in
    let linked = update cleared 0 (bit_or s.table_addr 7) in
    paging_enable s.directory_addr (record s { directory = linked; table = filled })

-- `|= 0x4` and `&= ~0x4` of an entry
abbrev pub set_user : ℕ → ℕ
set_user e = bit_or e 0x4

abbrev pub clear_user : ℕ → ℕ
clear_user e = bit_and e 0xFFFFFFFB

-- The pages of `[start, end)` as page-aligned addresses, `none` for the early returns.
unfoldable pub page_range : ℕ → ℕ → Option (ℕ × ℕ)
page_range start end =
    if ltb end start
    then none
    else if leb mapped_end start
    then none
    else let end' = if ltb mapped_end end then mapped_end else end in
      some (start / page_size * page_size, (end' + 4095) / page_size * page_size)

-- `for (addr = start; addr < end; addr += PAGE_SIZE)` over the entries; the mapped memory has
-- 1024 pages, so 1025 rounds are enough.
pub page_loop : (ℕ → ℕ) → ℕ → ℕ → ℕ → (ℕ → ℕ) → ℕ → ℕ
page_loop change zero addr end t = t
page_loop change (suc fuel) addr end t =
    let idx = addr / page_size in
    let rest = page_loop change fuel (u32 (addr + page_size)) end (update t idx (change (t idx))) in
    if ltb addr end then rest else t

-- the shape that the three functions below share: guards, loop, flush
unfoldable pub change_pages : (ℕ → ℕ) → Option (ℕ × ℕ) → Paging → Paging
change_pages change none s = s
change_pages change (some (start, end)) s =
    paging_flush (record s { table = page_loop change 1025 start end s.table })

-- `kernel_start` and `kernel_end` are the linker's symbols.
unfoldable pub paging_protect_kernel : ℕ → ℕ → Paging → Paging
unfolding change_pages page_range
paging_protect_kernel kernel_start kernel_end =
    change_pages clear_user (page_range kernel_start kernel_end)

unfoldable pub paging_mark_user : ℕ → ℕ → Paging → Paging
unfolding change_pages page_range
paging_mark_user start end = change_pages set_user (page_range start end)

unfoldable pub paging_clear_user : ℕ → ℕ → Paging → Paging
unfolding change_pages page_range
paging_clear_user start end = change_pages clear_user (page_range start end)
