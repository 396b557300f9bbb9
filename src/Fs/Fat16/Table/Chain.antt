-- ===== src/Fs/Fat16/Table/Chain.antt =====
-- `fat16_free_cluster_chain` frees the clusters of a chain and no others.
use astra_os.Base.{
  ℕ, zero, suc, ◌<◌, ◌≡◌, ◌∙◌, refl, Bool, true, false, ◌&&◌, ◌||◌, inl, inr, ap, Bool-cases, ==→eq,
  arith, ◌==◌, leb, ltb, if◌then◌else◌, List, [], ◌∷◌, length, All, done,
}
use astra_os.Fs.Fat16.Layout.{Disk, Bpb}
use astra_os.Fs.Fat16.Table.{fat16_get_fat_entry, fat16_set_fat_entry, fat16_free_cluster_chain}
use astra_os.Fs.Fat16.Table.Entry.{InTable, get-set_fat_entry}

-- what the loops over chains test
abbrev pub in_chain : ℕ → Bool
in_chain c = leb 2 c && ltb c 0xFFF8

-- the clusters that the table `f` leads through from `c` on
pub data Chain (f : ℕ → ℕ) : ℕ → List ℕ → Type 0 where
  stop : {c : ℕ} → in_chain c ≡ false → Chain f c []
  link : {c : ℕ} {cs : List ℕ} → in_chain c ≡ true → Chain f (f c) cs → Chain f c (c ∷ cs)

abbrev pub has : ℕ → List ℕ → Bool
has k [] = false
has k (c ∷ cs) = (k == c) || has k cs

abbrev pub IsDistinct : List ℕ → Type 0
IsDistinct [] = Unit
IsDistinct (c ∷ cs) = (has c cs ≡ false) × IsDistinct cs

-- a change elsewhere leaves the chain
Chain-frame :
    {f : ℕ → ℕ} (g : ℕ → ℕ) {c : ℕ} {cs : List ℕ}
    → Chain f c cs
    → ((k : ℕ) → has k cs ≡ true → g k ≡ f k)
    → Chain g c cs
Chain-frame g (stop h) same = stop h
Chain-frame {f} g (link {c} {cs} h rest) same =
    let e : g c ≡ f c = same c (ground arith) in
    link h (rw e (Chain-frame g rest (λ k m. same k (ground arith))))

All-has : (P : ℕ → Type 0) (k : ℕ) (cs : List ℕ) → All P cs → has k cs ≡ true → P k
All-has P k [] all m = cc
All-has P k (c ∷ cs) (p, all) m = elim (Bool-cases (k == c)) [
  | inl same ↦ rw (==→eq k c same) p
  | inr other ↦ All-has P k cs all (ground arith)
]

-- every entry of the table after the clusters `cs` have been freed
abbrev pub IsFreed : Bpb → Disk → List ℕ → Disk → Type 0
IsFreed b d cs d' =
    (k : ℕ)
    → InTable b k
    → fat16_get_fat_entry b d' k ≡ (if has k cs then 0 else fat16_get_fat_entry b d k)

module _ (b : Bpb) where
  free_step :
      (fuel : ℕ) (d : Disk) (c : ℕ)
      → in_chain c ≡ true
      → fat16_free_cluster_chain (suc fuel) b d c
        ≡ fat16_free_cluster_chain fuel b (fat16_set_fat_entry b d c 0) (fat16_get_fat_entry b d c)
  unfolding fat16_free_cluster_chain
  free_step fuel d c h = rw h

  free_end :
      (fuel : ℕ) (d : Disk) (c : ℕ)
      → in_chain c ≡ false
      → fat16_free_cluster_chain (suc fuel) b d c ≡ done d
  unfolding fat16_free_cluster_chain
  free_end fuel d c h = rw h

  -- the entry of `c` is none of those of `cs`
  kept :
      (d : Disk) (c : ℕ) (cs : List ℕ)
      → InTable b c
      → All (InTable b) cs
      → has c cs ≡ false
      → (k : ℕ) → has k cs ≡ true
      → fat16_get_fat_entry b (fat16_set_fat_entry b d c 0) k ≡ fat16_get_fat_entry b d k
  kept d c cs t tables fresh k m = elim (Bool-cases (k == c)) [
    | inl same ↦ absurd (clash (==→eq k c same))
    | inr other ↦ get-set_fat_entry b d c 0 k t (All-has (InTable b) k cs tables m) ∙ rw other refl
  ]
    where
      clash : k ≡ c → ⊥
      clash e = cc (ap (λ (j : ℕ). has j cs) e)

  -- With more fuel than the chain is long, the function ends, and then exactly the entries of the
  -- chain's clusters are 0, while every other entry of the table is as before.
  pub free-Chain-IsFreed :
      (fuel : ℕ) (d : Disk) {c : ℕ} {cs : List ℕ}
      → Chain (fat16_get_fat_entry b d) c cs
      → IsDistinct cs
      → All (InTable b) cs
      → length cs < fuel
      → (d' : Disk) × (fat16_free_cluster_chain fuel b d c ≡ done d') × IsFreed b d cs d'
  free-Chain-IsFreed zero d chain distinct tables enough = absurd (omega arith)
  free-Chain-IsFreed (suc fuel) d (stop {c} h) distinct tables enough =
      (d, free_end fuel d c h, λ k t. refl)
  free-Chain-IsFreed (suc fuel) d (link {c} {cs} h rest) (fresh, distinct) (t, tables) enough =
      let d1 = fat16_set_fat_entry b d c 0 in
      let entry = λ (k : ℕ) (s : InTable b k). get-set_fat_entry b d c 0 k t s in
      let shorter : length cs < fuel = omega arith in
      let moved = Chain-frame (fat16_get_fat_entry b d1) rest (kept d c cs t tables fresh) in
      let (d', e, freed) = free-Chain-IsFreed fuel d1 moved distinct tables shorter in
      (d', free_step fuel d c h ∙ e, λ k s. ground (arith, freed k s, entry k s))
