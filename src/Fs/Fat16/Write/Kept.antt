-- ===== src/Fs/Fat16/Write/Kept.antt =====
-- A round that begins with an allocation: what it keeps, and what the rounds behind it add.
use astra_os.Base.{
  ℕ, ◌+◌, ◌*◌, ◌<◌, ◌≡◌, ◌≢◌, ◌∙◌, ◌⊎◌, refl, sym, ap, inl, inr, arith, true, ◌==◌, ◌!=◌, ltb,
  if◌then◌else◌, Bool-cases, List, length, drop, Option, some,
}
use mathlib.Core.Path.{subst}
use astra_os.Fs.Fat16.Layout.{Disk, Bpb, ata_read_sector, fat16_cluster_to_sector}
use astra_os.Fs.Fat16.Table.{fat16_get_fat_entry, fat16_set_fat_entry, fat16_clear_cluster}
use astra_os.Fs.Fat16.Table.Entry.{get-set_fat_entry, read-set_fat_entry}
use astra_os.Fs.Fat16.Volume.{IsVolume, IsCluster, cluster-behind, cluster-reach, clusters-apart}
use astra_os.Fs.Fat16.Write.Reread.{copy-write_sectors}
use astra_os.Fs.Fat16.Write.Round.{filled_round, entry-filled_round, read-filled_round}
use astra_os.Fs.Fat16.Write.Chain.{
  copy_sectors-same, IsUsed, IsKept, IsContent, IsWritten, no_room, written, copy_chain_step,
}

module _ (b : Bpb) (v : IsVolume b) (prev new : ℕ) (d : Disk) (content : List ℕ)
    (p : (prev ≡ 0) ⊎ IsUsed b d prev) (i : IsCluster b new)
    (empty : fat16_get_fat_entry b d new ≡ 0) where
  -- the disk after a round that begins with an allocation
  abbrev pub after : Disk × List ℕ
  after = filled_round b prev new (fat16_set_fat_entry b d new 0xFFFF) content

  placed : (prev ≡ 0) ⊎ IsCluster b prev
  placed = elim p [ inl z ↦ inl z | inr u ↦ inr u.0 ]

  entry-after :
      (k : ℕ)
      → IsCluster b k
      → fat16_get_fat_entry b after.0 k
        ≡ (if k == new then 0xFFFF else if k == prev then new else fat16_get_fat_entry b d k)
  entry-after k ik =
      let marked =
        get-set_fat_entry b d new 0xFFFF k (v.tables new i.below) (v.tables k ik.below) in
      entry-filled_round b v new i prev (fat16_set_fat_entry b d new 0xFFFF) content k placed ik
      ∙ elim (Bool-cases (k == new)) [
        | inl same ↦ rw same refl
        | inr other ↦ rw other (ap (λ n. if k == prev then new else n) (marked ∙ rw other refl))
      ]

  not_new : (k : ℕ) → IsUsed b d k → k ≢ new
  not_new k u e = u.1 (ap (fat16_get_fat_entry b d) e ∙ empty)

  IsUsed-after : (k : ℕ) → IsUsed b d k → IsUsed b after.0 k
  IsUsed-after k u =
      let other = not_new k u in (u.0, rw (entry-after k u.0) (ground (arith, i.above, u.1)))

  pub new-IsUsed : IsUsed b after.0 new
  new-IsUsed = (i, rw (entry-after new i) (ground arith))

  bytes-after :
      (k j : ℕ)
      → IsUsed b d k
      → j < b.sectors_per_cluster
      → ata_read_sector after.0 (fat16_cluster_to_sector b k + j)
        ≡ ata_read_sector d (fat16_cluster_to_sector b k + j)
  bytes-after k j u lt =
      let far = cluster-behind b v k u.0 in
      let near = cluster-reach b v k u.0 in
      let l = fat16_cluster_to_sector b k + j in
      read-filled_round b v new i prev (fat16_set_fat_entry b d new 0xFFFF) content l placed
        (clusters-apart b v new k j i u.0 (λ e. not_new k u (sym e)) lt) (omega arith) (omega arith)
      ∙ read-set_fat_entry b d new 0xFFFF l (v.tables new i.below) (omega arith) (omega arith)

  -- what the later rounds keep of the disk after this one is kept of the disk before it
  pub IsKept-after : (d' : Disk) → IsKept b new after.0 d' → IsKept b prev d d'
  IsKept-after d' kept = record {
    entries = λ k u ne.
        kept.entries k (IsUsed-after k u) (not_new k u)
        ∙ entry-after k u.0
        ∙ ground (arith, not_new k u);
    bytes = λ k j u lt. kept.bytes k j (IsUsed-after k u) lt ∙ bytes-after k j u lt;
  }

  abbrev pub ended : Disk
  ended =
      let cleared = fat16_clear_cluster b (fat16_set_fat_entry b d new 0xFFFF) new in
      let linked = if prev != 0 then fat16_set_fat_entry b cleared prev new else cleared in
      fat16_set_fat_entry b linked new 0xFFFF

  pub rest-after : after.1 ≡ drop (b.sectors_per_cluster * 512) content
  rest-after =
      (copy-write_sectors b.sectors_per_cluster (fat16_cluster_to_sector b new) ended content
        (cluster-reach b v new i)).1

  IsContent-after :
      (d' : Disk) (next : ℕ)
      → ltb 0 (length content) ≡ true
      → IsKept b new after.0 d'
      → fat16_get_fat_entry b d' new ≡ next
      → IsContent b d' next after.1
      → IsContent b d' new content
  IsContent-after d' next pos kept link reading =
      let size = b.sectors_per_cluster in
      let start = fat16_cluster_to_sector b new in
      let within : ltb new 0xFFF8 ≡ true = ground (arith, i.below, v.few) in
      let here = copy-write_sectors size start ended content (cluster-reach b v new i) in
      copy_chain_step b d' new next content within pos
        (copy_sectors-same size start after.0 d' 0 (length content) (cluster-reach b v new i)
            (λ j lt. kept.bytes new j new-IsUsed lt)
          ∙ here.0)
        link v.filled (subst (IsContent b d' next) rest-after reading)

  abbrev pub next_first : ℕ → ℕ
  next_first first = if first == 0 then new else first

  pub next_first-nonzero : (first : ℕ) → next_first first ≢ 0
  next_first-nonzero first = ground (arith, i.above)

  pub IsWritten-after :
      (first : ℕ) (r : Option ℕ) (d' : Disk)
      → ltb 0 (length content) ≡ true
      → IsKept b new after.0 d'
      → IsWritten b (next_first first) new after.1 r d'
      → IsWritten b first prev content r d'
  IsWritten-after first r d' pos kept (no_room z used) = no_room z used
  IsWritten-after first r d' pos kept (written c e link reading) =
      written new (e ∙ ap some (ground (arith, next_first-nonzero first)))
        (λ ip. elim p [
          | inl z ↦ absurd (omega (arith, ip.above))
          | inr u ↦
              let at_prev = entry-after prev u.0 in
              let linked : fat16_get_fat_entry b after.0 prev ≡ new =
                at_prev ∙ ground (arith, not_new prev u) in
              kept.entries prev (u.0, rw linked (omega (arith, i.above))) (not_new prev u) ∙ linked
        ])
        (IsContent-after d' c pos kept (link i) reading)
