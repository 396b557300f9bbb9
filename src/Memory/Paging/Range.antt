-- ===== src/Memory/Paging/Range.antt =====
-- What the loops over pages do to each entry of the table.
use astra_os.Base.{
  ℕ, zero, suc, ◌+◌, ◌*◌, ◌/◌, ◌%◌, ◌≤◌, ◌≡◌, Bool, true, false, ◌&&◌, arith, ltb, leb, Bool-cases,
  inl, inr, if◌then◌else◌, update, update_self, update_ne, ◌^◌,
}
use astra_os.Memory.Paging.{Paging, page_loop, page_range, change_pages, paging_flush}

-- `p` is a page of `[start, end)`, of which only the mapped memory counts
abbrev pub in_pages : ℕ → ℕ → ℕ → Bool
in_pages start end p = ltb p 1024 && (leb start end && (leb (start / 4096) p && ltb (p * 4096) end))

module _ (change : ℕ → ℕ) (fuel addr end : ℕ) (t : ℕ → ℕ) where
  page_loop_more :
      ltb addr end ≡ true
      → page_loop change (suc fuel) addr end t
        ≡ page_loop change fuel
            ((addr + 4096) % 2 ^ 32)
            end
            (update t (addr / 4096) (change (t (addr / 4096))))
  unfolding page_loop
  page_loop_more h = rw h

  page_loop_done : ltb addr end ≡ false → page_loop change (suc fuel) addr end t ≡ t
  unfolding page_loop
  page_loop_done h = rw h

module _ (change : ℕ → ℕ) where
  page_loop-pages :
      (fuel k m : ℕ) (t : ℕ → ℕ) (p : ℕ)
      → m ≤ k + fuel
      → m ≤ 1024
      → page_loop change fuel (k * 4096) (m * 4096) t p
        ≡ (if leb k p && ltb p m then change (t p) else t p)
  page_loop-pages zero k m t p enough low = unfold page_loop in ground arith
  page_loop-pages (suc fuel) k m t p enough low = elim (Bool-cases (ltb k m)) [
    | inl more ↦
        let e : (k * 4096 + 4096) % 2 ^ 32 ≡ (k + 1) * 4096 = ground arith in
        let i : k * 4096 / 4096 ≡ k = omega arith in
        rw (page_loop_more change fuel (k * 4096) (m * 4096) t (ground arith), e, i)
          (ground (
            arith,
            page_loop-pages fuel (k + 1) m (update t k (change (t k))) p,
            update_self t k (change (t k)),
            update_ne t k (change (t k)) p,
          ))
    | inr done ↦
        rw (page_loop_done change fuel (k * 4096) (m * 4096) t (ground arith)) (ground arith)
  ]

  -- the loop behind the guards, at every page
  pub change_pages-in_pages :
      (start end : ℕ) (s : Paging) (p : ℕ)
      → (change_pages change (page_range start end) s).table p
        ≡ (if in_pages start end p then change (s.table p) else s.table p)
  unfolding change_pages page_range paging_flush
  change_pages-in_pages start end s p = ground (
    arith,
    page_loop-pages 1025 (start / 4096) 1024 s.table p,
    page_loop-pages 1025 (start / 4096) ((end + 4095) / 4096) s.table p,
  )
