-- ===== src/Memory/Paging/Access.antt =====
-- Which pages ring 3 may touch, before and after each function of paging.c.
use astra_os.Base.{
  ℕ, zero, suc, ◌+◌, ◌*◌, ◌/◌, ◌%◌, ◌^◌, ◌<◌, ◌≡◌, ◌&&◌, arith, inl, inr, Bool-cases, ==→eq, ltb,
  leb, ◌==◌, if◌then◌else◌, u32, bit_or, update, update_self, update_ne, bit_or_four,
  bit_and_not_four, bit_or_three, bit_or_seven, true, refl,
}
use astra_os.Memory.Paging.{
  Paging, paging_enable, fill_loop, paging_init, paging_mark_user, paging_clear_user,
  paging_protect_kernel, set_user, clear_user,
}
use astra_os.Memory.Paging.Range.{in_pages, change_pages-in_pages}

-- bit 2 of an entry: the page is open to ring 3
abbrev pub user_bit : ℕ → ℕ
user_bit e = e / 4 % 2

-- all of an entry but bit 2: frame, present, writable
abbrev pub other_bits : ℕ → ℕ
other_bits e = e / 8 * 8 + e % 4

-- every entry is a `uint32_t`
abbrev pub IsTable : (ℕ → ℕ) → Type 0
IsTable t = (p : ℕ) → t p < 2 ^ 32

update-entry :
    (entry t : ℕ → ℕ) (i p : ℕ) → update t i (entry i) p ≡ (if i == p then entry p else t p)
unfolding update
update-entry entry t i p = elim (Bool-cases (i == p)) [
  | inl h ↦ rw (==→eq i p h) (ground arith)
  | inr h ↦ ground arith
]

fill_loop-lem :
    (entry : ℕ → ℕ) (left i : ℕ) (t : ℕ → ℕ) (p : ℕ)
    → fill_loop entry left i t p ≡ (if leb i p && ltb p (i + left) then entry p else t p)
unfolding fill_loop
fill_loop-lem entry zero i t p = ground arith
fill_loop-lem entry (suc left) i t p =
    ground
      (arith, fill_loop-lem entry left (i + 1) (update t i (entry i)) p, update-entry entry t i p)

-- the tables after `paging_init`
paging_init-table : (s : Paging) (p : ℕ) → p < 1024 → (paging_init s).table p ≡ p * 4096 + 3
unfolding paging_init
paging_init-table s p h = ground (
  arith,
  fill_loop-lem (λ i. bit_or (u32 (i * 4096)) 3) 1024 0 s.table p,
  bit_or_three (u32 (p * 4096)),
)

paging_init-directory :
    (s : Paging) (d : ℕ)
    → d < 1024
    → (paging_init s).directory d ≡ (if d == 0 then bit_or s.table_addr 7 else 2)
unfolding paging_init
paging_init-directory s d h = ground (
  arith,
  fill_loop-lem (λ i. 2) 1024 0 s.directory d,
  update_self (fill_loop (λ i. 2) 1024 0 s.directory) 0 (bit_or s.table_addr 7),
  update_ne (fill_loop (λ i. 2) 1024 0 s.directory) 0 (bit_or s.table_addr 7) d,
)

-- After `paging_init` paging is on with the directory in CR3; the table maps each of its 1024 pages to
-- the frame of the same number, present and writable; the directory's first entry is the table's
-- address with all access bits, and its other entries are not present. The table's address is
-- a multiple of 8.
pub paging_init-identity :
    (s : Paging) (p : ℕ)
    → p < 1024
    → s.table_addr % 8 ≡ 0
    → let s' = paging_init s in
      (s'.table p ≡ p * 4096 + 3)
      × (s'.directory p ≡ (if p == 0 then s.table_addr + 7 else 2))
      × (s'.cr3 ≡ s.directory_addr)
      × (s'.enabled ≡ true)
paging_init-identity s p h aligned = (
  paging_init-table s p h,
  ground (arith, paging_init-directory s p h, bit_or_seven s.table_addr),
  (unfold paging_init paging_enable in refl),
  unfold paging_init paging_enable in refl,
)

module _ (start end : ℕ) (s : Paging) (words : IsTable s.table) (p : ℕ) where
  mark_user-entry :
      (paging_mark_user start end s).table p
      ≡ (if in_pages start end p then set_user (s.table p) else s.table p)
  unfolding paging_mark_user
  mark_user-entry = change_pages-in_pages set_user start end s p

  clear_user-entry :
      (paging_clear_user start end s).table p
      ≡ (if in_pages start end p then clear_user (s.table p) else s.table p)
  unfolding paging_clear_user
  clear_user-entry = change_pages-in_pages clear_user start end s p

  -- Exactly the mapped pages that meet the range become open to ring 3; all other pages are as open
  -- as before, and frame, presence and writability are as before everywhere.
  pub mark_user-user_bit :
      let e = (paging_mark_user start end s).table p in
      (user_bit e ≡ (if in_pages start end p then 1 else user_bit (s.table p)))
      × (other_bits e ≡ other_bits (s.table p))
      × (e < 2 ^ 32)
  mark_user-user_bit = ground (arith, mark_user-entry, bit_or_four (s.table p), words p)

  -- Exactly the mapped pages that meet the range are closed to ring 3; all other pages are as open
  -- as before, and frame, presence and writability are as before everywhere.
  pub clear_user-user_bit :
      let e = (paging_clear_user start end s).table p in
      (user_bit e ≡ (if in_pages start end p then 0 else user_bit (s.table p)))
      × (other_bits e ≡ other_bits (s.table p))
      × (e < 2 ^ 32)
  clear_user-user_bit =
      ground (arith, clear_user-entry, bit_and_not_four (s.table p) (words p), words p)

  protect_kernel-entry :
      (paging_protect_kernel start end s).table p
      ≡ (if in_pages start end p then clear_user (s.table p) else s.table p)
  unfolding paging_protect_kernel
  protect_kernel-entry = change_pages-in_pages clear_user start end s p

  -- The same for the pages that meet the kernel's own range.
  pub protect_kernel-user_bit :
      let e = (paging_protect_kernel start end s).table p in
      (user_bit e ≡ (if in_pages start end p then 0 else user_bit (s.table p)))
      × (other_bits e ≡ other_bits (s.table p))
      × (e < 2 ^ 32)
  protect_kernel-user_bit =
      ground (arith, protect_kernel-entry, bit_and_not_four (s.table p) (words p), words p)
