-- ===== src/Kernel/Syscall/Table.antt =====
-- The descriptor table: allocation, and what a close undoes.
use astra_os.Base.{
  ℕ, zero, suc, ◌≡◌, ◌<◌, ◌⊎◌, ◌∙◌, refl, ap, inl, inr, arith, Bool, true, false, leb,
  if◌then◌else◌, Bool-cases, List, [], ◌∷◌, length, get_or, set, get_or-set_self, Option, none,
  some, done,
}
use astra_os.Kernel.Syscall.{
  Fd, Sys, Reply, resume, new_fd, behind, opened, place_fd, fd_alloc, fd_free, open_fd, max_fds,
}
use astra_os.Kernel.Syscall.Calls.{sys_close}

abbrev pub free_fd : Fd
free_fd = new_fd false

-- the outcome of a search of the table
pub data Allocation (fds : List Fd) (r : Option (ℕ × List Fd)) : Type 0 where
  full :
      r ≡ none → ((j : ℕ) → j < length fds → (get_or fds j free_fd).used ≡ true) → Allocation fds r
  fresh :
      (i : ℕ)
      → r ≡ some (i, set fds i (new_fd true))
      → i < length fds
      → (get_or fds i free_fd).used ≡ false
      → ((j : ℕ) → j < i → (get_or fds j free_fd).used ≡ true)
      → Allocation fds r

used_below :
    (f : Fd) (fds : List Fd) (n : ℕ)
    → f.used ≡ true
    → ((j : ℕ) → j < n → (get_or fds j free_fd).used ≡ true)
    → (j : ℕ) → j < suc n
    → (get_or (f ∷ fds) j free_fd).used ≡ true
used_below f fds n h rest zero lt = h
used_below f fds n h rest (suc j) lt = rest j (omega arith)

module _ {A : Type 0} (x y : A) where
  if_so : (b : Bool) → b ≡ true → (if b then x else y) ≡ x
  if_so b h = rw h refl

  if_not : (b : Bool) → b ≡ false → (if b then x else y) ≡ y
  if_not b h = rw h refl

-- `fd_alloc` returns the first entry that is not in use, and changes that entry alone: it is reset
-- and in use; it returns -1 only if all entries are in use.
pub fd_alloc-Allocation : (fds : List Fd) → Allocation fds (fd_alloc fds)
unfolding fd_alloc
fd_alloc-Allocation [] = full refl (λ j lt. absurd (omega arith))
fd_alloc-Allocation (f ∷ fds) = elim (Bool-cases f.used) [
  | inr free ↦ fresh 0 (if_not _ _ f.used free) (omega arith) free (λ j lt. absurd (omega arith))
  | inl busy ↦ elim (fd_alloc-Allocation fds) [
    | full e all ↦
        full (if_so _ _ f.used busy ∙ ap (behind f) e) (used_below f fds (length fds) busy all)
    | fresh i e lt free before ↦
        fresh (suc i) (if_so _ _ f.used busy ∙ ap (behind f) e) (omega arith) free
          (used_below f fds i busy before)
  ]
]

set_twice : (fds : List Fd) (i : ℕ) (f g : Fd) → set (set fds i f) i g ≡ set fds i g
set_twice [] i f g = refl
set_twice (x ∷ fds) zero f g = refl
set_twice (x ∷ fds) (suc i) f g = ap (λ r. x ∷ r) (set_twice fds i f g)

module _ (s : Sys) (path : List ℕ) (flags fsize : ℕ) where
  abbrev filled : Fd
  filled = opened path flags fsize

  open_fd_fresh :
      (i : ℕ)
      → fd_alloc s.fd_table ≡ some (i, set s.fd_table i (new_fd true))
      → open_fd s path flags fsize ≡ resume i (record s { fd_table = set s.fd_table i filled })
  unfolding open_fd
  open_fd_fresh i e =
      let put : List Fd → Reply = λ t. resume i (record s { fd_table = t }) in
      ap (place_fd s filled) e
      ∙ (unfold place_fd in ap put (set_twice s.fd_table i (new_fd true) filled))

  close_opened :
      (fuel i : ℕ)
      → length s.fd_table ≡ 16
      → i < 16
      → sys_close fuel (record s { fd_table = set s.fd_table i filled }) i
        ≡ done (resume 0 (record s { fd_table = set s.fd_table i free_fd }))
  unfolding sys_close fd_free
  close_opened fuel i whole lt =
      let room : leb max_fds i ≡ false = ground arith in
      let here : get_or (set s.fd_table i filled) i free_fd ≡ filled =
        get_or-set_self s.fd_table i filled free_fd (omega arith) in
      rw (room, here)
        (ap (λ (t : List Fd). done (resume 0 (record s { fd_table = t })))
          (set_twice s.fd_table i filled free_fd))

  -- With a table of 16 entries, the end of SYS_OPEN either returns -1 and changes nothing, because
  -- all descriptors are in use; or it returns the lowest one that is not in use, and SYS_CLOSE of
  -- that descriptor then returns 0 and leaves the table as it was but for that entry, which is
  -- reset.
  pub open_fd-sys_close :
      (fuel : ℕ)
      → length s.fd_table ≡ 16
      → ((open_fd s path flags fsize ≡ resume 0xFFFFFFFF s)
          × ((j : ℕ) → j < 16 → (get_or s.fd_table j free_fd).used ≡ true))
        ⊎ ((fd : ℕ) × (s' : Sys) × (open_fd s path flags fsize ≡ resume fd s')
            × (fd < 16)
            × ((get_or s.fd_table fd free_fd).used ≡ false)
            × ((j : ℕ) → j < fd → (get_or s.fd_table j free_fd).used ≡ true)
            × (sys_close fuel s' fd
                ≡ done (resume 0 (record s { fd_table = set s.fd_table fd free_fd }))))
  open_fd-sys_close fuel whole = elim (fd_alloc-Allocation s.fd_table) [
    | full e all ↦
        inl ((unfold open_fd place_fd in ap (place_fd s filled) e), λ j lt. all j (omega arith))
    | fresh i e lt free before ↦ inr (
      i,
      record s { fd_table = set s.fd_table i filled },
      open_fd_fresh i e,
      omega arith,
      free,
      before,
      close_opened fuel i whole (omega arith),
    )
  ]
