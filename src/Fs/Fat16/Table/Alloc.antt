-- ===== src/Fs/Fat16/Table/Alloc.antt =====
-- `fat16_alloc_cluster` finds the first free cluster.
use astra_os.Base.{
  ℕ, zero, suc, ◌+◌, ◌%◌, ◌^◌, ◌≤◌, ◌<◌, ◌≡◌, ◌≢◌, ◌⊎◌, refl, ◌∙◌, ap, true, false, inl, inr, arith,
  ◌==◌, ltb, if◌then◌else◌, Bool-cases, ==→eq, ltb→lt, done,
}
use astra_os.Fs.Fat16.Layout.{Disk, Bpb}
use astra_os.Fs.Fat16.Table.{
  fat16_get_fat_entry, fat16_set_fat_entry, alloc_loop, fat16_alloc_cluster, total_clusters,
}
use astra_os.Fs.Fat16.Table.Entry.{InTable, get-set_fat_entry}

-- every cluster from `c` up to `k` is in use
abbrev pub InUse : Bpb → Disk → ℕ → ℕ → Type 0
InUse b d c k = (j : ℕ) → c ≤ j → j < k → fat16_get_fat_entry b d j ≢ 0

-- `new` is the first free cluster, and in `d'` its entry alone has changed, to 0xFFFF; or `new` is
-- 0, no cluster is free and the disk is as it was
abbrev pub IsAllocated : Bpb → Disk → ℕ → Disk → Type 0
IsAllocated b d new d' =
    ((new ≡ 0) × (d' ≡ d) × InUse b d 2 (total_clusters b + 2))
    ⊎ ((2 ≤ new)
        × (new < total_clusters b + 2)
        × (fat16_get_fat_entry b d new ≡ 0)
        × InUse b d 2 new
        × ((k : ℕ)
            → InTable b k
            → fat16_get_fat_entry b d' k
              ≡ (if k == new then 0xFFFF else fat16_get_fat_entry b d k)))

-- the first free cluster from `c` on is `new`, or there is none below `limit`
pub data Search (b : Bpb) (d : Disk) (limit c : ℕ) (new : ℕ) (d' : Disk) : Type 0 where
  full : new ≡ 0 → d' ≡ d → InUse b d c limit → Search b d limit c new d'
  free :
      c ≤ new
      → new < limit
      → fat16_get_fat_entry b d new ≡ 0
      → InUse b d c new
      → d' ≡ fat16_set_fat_entry b d new 0xFFFF
      → Search b d limit c new d'

module _ (b : Bpb) (d : Disk) (limit : ℕ) where
  InUse-suc :
      (c k : ℕ) → (fat16_get_fat_entry b d c == 0) ≡ false → InUse b d (c + 1) k → InUse b d c k
  InUse-suc c k used later j lo hi = elim (Bool-cases (j == c)) [
    | inl same ↦ rw (==→eq j c same) (ground arith)
    | inr other ↦ later j (ground arith) hi
  ]

  Search-suc :
      (c new : ℕ) (d' : Disk)
      → (fat16_get_fat_entry b d c == 0) ≡ false
      → Search b d limit (c + 1) new d'
      → Search b d limit c new d'
  Search-suc c new d' used (full z same later) = full z same (InUse-suc c limit used later)
  Search-suc c new d' used (free lo hi empty later e) =
      free (omega arith) hi empty (InUse-suc c new used later) e

  alloc_loop_more :
      (fuel c : ℕ)
      → ltb c limit ≡ true
      → (fat16_get_fat_entry b d c == 0) ≡ false
      → alloc_loop b d limit (suc fuel) c ≡ alloc_loop b d limit fuel ((c + 1) % 2 ^ 16)
  unfolding alloc_loop
  alloc_loop_more fuel c more used = rw (more, used)

  -- the loop ends within its fuel, with what it was to find
  alloc_loop-Search :
      (fuel c : ℕ)
      → limit < fuel + c
      → limit < 2 ^ 16
      → c ≤ limit
      → (new : ℕ) × (d' : Disk) × (alloc_loop b d limit fuel c ≡ done (new, d'))
        × Search b d limit c new d'
  unfolding alloc_loop
  alloc_loop-Search zero c enough low le = absurd (omega arith)
  alloc_loop-Search (suc fuel) c enough low le = elim (Bool-cases (ltb c limit)) [
    | inr end ↦ (0, d, rw end, full refl refl (λ j lo hi. absurd (ground arith)))
    | inl more ↦ elim (Bool-cases (fat16_get_fat_entry b d c == 0)) [
      | inl empty ↦ (
        c,
        fat16_set_fat_entry b d c 0xFFFF,
        rw (more, empty),
        free (omega arith) (ltb→lt c limit more) (==→eq _ 0 empty) (λ j lo hi. absurd (omega arith))
            refl,
      )
      | inr used ↦
          let below : c < limit = ltb→lt c limit more in
          let step : (c + 1) % 2 ^ 16 ≡ c + 1 = omega arith in
          let (new, d', e, s) = alloc_loop-Search fuel (c + 1) (omega arith) low (omega arith) in
          let next = alloc_loop_more fuel c more used in
          (new, d', next ∙ ap (alloc_loop b d limit fuel) step ∙ e, Search-suc c new d' used s)
    ]
  ]

module _ (fuel : ℕ) (b : Bpb) (d : Disk) where
  alloc_from_two :
      total_clusters b ≤ 65533
      → fat16_alloc_cluster fuel b d ≡ alloc_loop b d (total_clusters b + 2) fuel 2
  unfolding fat16_alloc_cluster
  alloc_from_two small =
      let same : (total_clusters b + 2) % 2 ^ 32 ≡ total_clusters b + 2 = omega arith in
      ap (λ limit. alloc_loop b d limit fuel 2) same

  pub alloc_cluster-Search :
      total_clusters b ≤ 65533
      → total_clusters b + 2 ≤ fuel
      → (new : ℕ) × (d' : Disk) × (fat16_alloc_cluster fuel b d ≡ done (new, d'))
        × Search b d (total_clusters b + 2) 2 new d'
  alloc_cluster-Search small enough =
      let (new, d', e, s) =
        alloc_loop-Search b d (total_clusters b + 2) fuel 2 (omega arith) (omega arith)
          (omega arith) in
      (new, d', alloc_from_two small ∙ e, s)

  -- With at most 65533 clusters, which all have entries in the table, the search ends. It returns
  -- the first free cluster, whose entry is then 0xFFFF while all other entries are as before; or
  -- it returns 0 and the disk as it was, and then no cluster is free.
  pub alloc_cluster_lem :
      total_clusters b ≤ 65533
      → total_clusters b + 2 ≤ fuel
      → ((k : ℕ) → k < total_clusters b + 2 → InTable b k)
      → (new : ℕ) × (d' : Disk) × (fat16_alloc_cluster fuel b d ≡ done (new, d'))
        × IsAllocated b d new d'
  alloc_cluster_lem small enough tables =
      let (new, d', e, s) = alloc_cluster-Search small enough in (new, d', e, outcome new d' s)
    where
      outcome :
          (new : ℕ) (d' : Disk)
          → Search b d (total_clusters b + 2) 2 new d'
          → IsAllocated b d new d'
      outcome new d' (full z e used) = inl (z, e, used)
      outcome new d' (free lo hi empty used e) =
          inr (
            lo,
            hi,
            empty,
            used,
            λ k t. rw e (get-set_fat_entry b d new 0xFFFF k (tables new hi) t),
          )
