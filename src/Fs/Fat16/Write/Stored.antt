-- ===== src/Fs/Fat16/Write/Stored.antt =====
-- A file that is written is read back, and no other file is touched.
use astra_os.Base.{
  ℕ, zero, suc, ◌+◌, ◌*◌, ◌≤◌, ◌<◌, ◌≡◌, ◌∙◌, ◌⊎◌, refl, ap, inl, inr, arith, false, ◌==◌,
  if◌then◌else◌, List, [], ◌∷◌, length, length-drop, Option, none, some, done,
}
use astra_os.Fs.Fat16.Layout.{Disk, Bpb}
use astra_os.Fs.Fat16.Table.{
  total_clusters, fat16_get_fat_entry, fat16_set_fat_entry, fat16_alloc_cluster,
}
use astra_os.Fs.Fat16.Table.Alloc.{InUse, full, free, alloc_cluster-Search}
use astra_os.Fs.Fat16.Volume.{IsVolume, IsCluster}
use astra_os.Fs.Fat16.Write.{write_chain}
use astra_os.Fs.Fat16.Write.Round.{filled_round}
use astra_os.Fs.Fat16.Write.Chain.{
  IsUsed, IsKept, IsContent, IsPrev, IsWritten, no_room, written, copy_chain-nil, IsKept-refl,
  write_chain_step, write_chain_full,
}
use astra_os.Fs.Fat16.Write.Kept.{
  rest-after, IsKept-after, IsWritten-after, new-IsUsed, next_first-nonzero,
}

module _ (fuel : ℕ) (b : Bpb) (v : IsVolume b) (enough : total_clusters b + 2 ≤ fuel) where
  abbrev IsOutcome : ℕ → ℕ → ℕ → Disk → List ℕ → Type 0
  IsOutcome rounds first prev d content =
      (r : Option ℕ) × (d' : Disk) × (write_chain rounds fuel b first prev d content ≡ done (r, d'))
      × IsKept b prev d d'
      × IsWritten b first prev content r d'

  as_prev : (first prev : ℕ) (d : Disk) → IsPrev b d first prev → (prev ≡ 0) ⊎ IsUsed b d prev
  as_prev first prev d (inl (z, f)) = inl z
  as_prev first prev d (inr (u, f)) = inr u

  written_nil :
      (first prev : ℕ) (d : Disk) → IsPrev b d first prev → IsWritten b first prev [] (some first) d
  written_nil first prev d (inl (z, f)) =
      written 0 (rw f refl) (λ ip. absurd (omega (arith, ip.above))) (copy_chain-nil b d 0)
  written_nil first prev d (inr (u, f)) =
      let other : (first == 0) ≡ false = ground arith in
      let c = fat16_get_fat_entry b d prev in
      written c (rw other refl) (λ ip. refl) (copy_chain-nil b d c)

  IsOutcome-full :
      (rounds first prev new : ℕ) (d allocated : Disk) (x : ℕ) (xs : List ℕ)
      → fat16_alloc_cluster fuel b d ≡ done (new, allocated)
      → new ≡ 0
      → allocated ≡ d
      → InUse b d 2 (total_clusters b + 2)
      → IsOutcome (suc rounds) first prev d (x ∷ xs)
  IsOutcome-full rounds first prev new d allocated x xs e z same used =
      let e' : fat16_alloc_cluster fuel b d ≡ done (0, d) = e ∙ rw (z, same) refl in
      (
        none,
        d,
        write_chain_full rounds fuel b first prev d x xs e',
        IsKept-refl b prev d,
        no_room refl used,
      )

  IsOutcome-round :
      (rounds first prev new : ℕ) (d allocated : Disk) (x : ℕ) (xs : List ℕ)
      → IsPrev b d first prev
      → fat16_alloc_cluster fuel b d ≡ done (new, allocated)
      → IsCluster b new
      → fat16_get_fat_entry b d new ≡ 0
      → allocated ≡ fat16_set_fat_entry b d new 0xFFFF
      → (let w = filled_round b prev new (fat16_set_fat_entry b d new 0xFFFF) (x ∷ xs) in
          IsOutcome rounds (if first == 0 then new else first) new w.0 w.1)
      → IsOutcome (suc rounds) first prev d (x ∷ xs)
  IsOutcome-round rounds first prev new d allocated x xs p e i empty same (r, d', run, kept, wr) =
      let p' = as_prev first prev d p in
      let marked = fat16_set_fat_entry b d new 0xFFFF in
      let e' : fat16_alloc_cluster fuel b d ≡ done (new, marked) =
        e ∙ ap (λ d'. done (new, d')) same in
      let some_new : (new == 0) ≡ false = ground (arith, i.above) in
      (
        r,
        d',
        write_chain_step rounds fuel b first prev new d marked x xs e' some_new ∙ run,
        IsKept-after b v prev new d (x ∷ xs) p' i empty d' kept,
        IsWritten-after b v prev new d (x ∷ xs) p' i empty first r d' (ground arith) kept wr,
      )

  write_chain-IsWritten :
      (rounds first prev : ℕ) (d : Disk) (content : List ℕ)
      → length content < rounds
      → IsPrev b d first prev
      → IsOutcome rounds first prev d content
  write_chain-IsWritten zero first prev d content lt p = absurd (omega arith)
  write_chain-IsWritten (suc rounds) first prev d [] lt p = (
    some first,
    d,
    (unfold write_chain in refl),
    IsKept-refl b prev d,
    written_nil first prev d p,
  )
  write_chain-IsWritten (suc rounds) first prev d (x ∷ xs) lt p =
      let (new, allocated, e, s) = alloc_cluster-Search fuel b d (omega (arith, v.few)) enough in
      elim s [
        | full z same used ↦ IsOutcome-full rounds first prev new d allocated x xs e z same used
        | free lo hi empty used same ↦
            let i : IsCluster b new = record { above = lo; below = hi } in
            let p' = as_prev first prev d p in
            let w = filled_round b prev new (fat16_set_fat_entry b d new 0xFFFF) (x ∷ xs) in
            let rest = rest-after b v prev new d (x ∷ xs) p' i empty in
            let shorter : length w.1 < rounds = omega (
              arith,
              ap (λ (c : List ℕ). length c) rest,
              length-drop (b.sectors_per_cluster * 512) (x ∷ xs),
              v.filled,
            ) in
            IsOutcome-round rounds first prev new d allocated x xs p e i empty same (
              write_chain-IsWritten rounds (if first == 0 then new else first) new w.0 w.1 shorter (
                inr (
                  new-IsUsed b v prev new d (x ∷ xs) p' i empty,
                  next_first-nonzero b v prev new d (x ∷ xs) p' i empty first,
                )))
      ]

-- the content can be read from the cluster that is returned; or none is returned, and then no
-- cluster is free
abbrev pub IsReadBack : Bpb → Disk → List ℕ → Option ℕ → Type 0
IsReadBack b d content none = InUse b d 2 (total_clusters b + 2)
IsReadBack b d content (some first) = IsContent b d first content

as-IsReadBack :
    (b : Bpb) (content : List ℕ) (r : Option ℕ) (d : Disk)
    → IsWritten b 0 0 content r d
    → IsReadBack b d content r
as-IsReadBack b content r d (no_room z used) = rw z used
as-IsReadBack b content r d (written c e link reading) = rw e reading

-- On a volume of at most 65525 clusters that have entries in the table and lie behind it, with fuel
-- for a search of the whole table and more rounds than the content has bytes, `write_chain` ends, and
-- the clusters that were in use keep their entries and their bytes. Either it returns a cluster from
-- which `copy_chain`, on more fuel than there are bytes, reads the whole content, or it returns none,
-- and then no cluster is free.
pub copy_chain-write_chain :
    (fuel rounds : ℕ) (b : Bpb) (d : Disk) (content : List ℕ)
    → IsVolume b
    → total_clusters b + 2 ≤ fuel
    → length content < rounds
    → (r : Option ℕ) × (d' : Disk) × (write_chain rounds fuel b 0 0 d content ≡ done (r, d'))
      × IsKept b 0 d d'
      × IsReadBack b d' content r
copy_chain-write_chain fuel rounds b d content v enough lt =
    let (r, d', run, kept, wr) =
      write_chain-IsWritten fuel b v enough rounds 0 0 d content lt (inl (refl, refl)) in
    (r, d', run, kept, as-IsReadBack b content r d' wr)
