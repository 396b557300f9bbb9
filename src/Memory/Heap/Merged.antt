-- ===== src/Memory/Heap/Merged.antt =====
-- `merge_free_blocks` merges free blocks that stand side by side.
use astra_os.Base.{
  ℕ, zero, suc, ◌+◌, ◌<◌, ◌≡◌, ◌^◌, ◌∙◌, refl, ap, arith, inl, inr, Bool, true, false, ◌&&◌, ◌==◌,
  if◌then◌else◌, [], ◌∷◌, length, u32, update, update_self, update_ne, done, Bool-cases,
}
use mathlib.Core.Path.{subst}
use astra_os.Memory.Heap.{Block, header_size, merge_free_blocks}
use astra_os.Memory.Heap.Blocks.{Pieces, first_of, header, Laid, Laid-le, Laid-frame}

-- a block of `n` bytes and what is behind it, with free neighbours merged from the left
abbrev pub merged_from : ℕ → Bool → Pieces → Pieces
merged_from n v [] = (n, v) ∷ []
merged_from n v ((k, w) ∷ bs) =
    if v && w then merged_from (n + (header_size + k)) v bs else (n, v) ∷ merged_from k w bs

abbrev pub merged : Pieces → Pieces
merged [] = []
merged ((n, v) ∷ bs) = merged_from n v bs

first_of-merged_from :
    (n : ℕ) (v : Bool) (bs : Pieces) (c : ℕ) → first_of (merged_from n v bs) c ≡ c
first_of-merged_from n v [] c = refl
first_of-merged_from n v ((k, w) ∷ bs) c =
    ground (arith, first_of-merged_from (n + (header_size + k)) v bs c)

-- a round that merges
merge_round :
    (fuel : ℕ) (block : ℕ → Block) (a behind n k next : ℕ) (v w : Bool)
    → block a ≡ header n v behind
    → block behind ≡ header k w next
    → (a == 0) ≡ false
    → (behind == 0) ≡ false
    → (v && w) ≡ true
    → n + (header_size + k) < 2 ^ 32
    → merge_free_blocks (suc fuel) block a
      ≡ merge_free_blocks fuel (update block a (header (n + (header_size + k)) v next)) a
unfolding merge_free_blocks
merge_round fuel block a behind n k next v w here there z y both small =
    let no_wrap : u32 (n + (header_size + k)) ≡ n + (header_size + k) = omega arith in
    rw (here, z, y, there, both, no_wrap) refl

-- The loop merges to the end. Fuel: each round takes a block from what is ahead.
merge_free_blocks-Laid :
    (fuel : ℕ) (e : ℕ) (bs : Pieces) (block : ℕ → Block) (n : ℕ) (v : Bool) (a : ℕ)
    → Laid block a ((n, v) ∷ bs) e
    → 0 < a
    → e < 2 ^ 32
    → length bs < fuel
    → (block' : ℕ → Block) × (merge_free_blocks fuel block a ≡ done block')
      × Laid block' a (merged_from n v bs) e
      × ((x : ℕ) → x < a → block' x ≡ block x)
unfolding merge_free_blocks
merge_free_blocks-Laid zero e bs block n v a laid pos small enough = absurd (omega arith)
merge_free_blocks-Laid (suc fuel) e [] block n v a (here, end) pos small enough =
    let z : (a == 0) ≡ false = ground arith in (block, rw (here, z) refl, (here, end), λ x lo. refl)
merge_free_blocks-Laid (suc fuel) e ((k, w) ∷ bs) block n v a (here, (there, rest)) pos small
      enough =
    let behind = a + (header_size + n) in
    let z : (a == 0) ≡ false = ground arith in
    let y : (behind == 0) ≡ false = ground arith in
    elim (Bool-cases (v && w))
      as (λ _.
        (block' : ℕ → Block) × (merge_free_blocks (suc fuel) block a ≡ done block')
        × Laid block' a (merged_from n v ((k, w) ∷ bs)) e
        × ((x : ℕ) → x < a → block' x ≡ block x)) [
          | inl both ↦
              let size = n + (header_size + k) in
              let le = Laid-le block e bs (behind + (header_size + k)) rest in
              let next = first_of bs (behind + (header_size + k)) in
              let joined = update block a (header size v next) in
              let far : behind + (header_size + k) ≡ a + (header_size + size) = omega arith in
              let laid : Laid joined a ((size, v) ∷ bs) e = (
                update_self block a _ ∙ ap (λ (c : ℕ). header size v (first_of bs c)) far,
                subst (λ c. Laid joined c bs e) far
                    (Laid-frame block e joined bs (behind + (header_size + k))
                      (λ x lo hi. update_ne block a _ x (omega arith)) rest),
              ) in
              let (block', run, after, same) =
                merge_free_blocks-Laid fuel e bs joined size v a laid pos small (omega arith) in
              (
                block',
                merge_round fuel block a behind n k next v w here there z y both (omega arith)
                    ∙ run,
                rw both after,
                λ x lo. same x lo ∙ update_ne block a _ x (omega arith),
              )
          | inr apart ↦
              let (block', run, after, same) =
                merge_free_blocks-Laid fuel e bs block k w behind (there, rest) (omega arith) small
                  (omega arith) in
              (
                block',
                rw (here, z, y, there, apart) run,
                rw apart
                    (rw (first_of-merged_from k w bs behind) (same a (omega arith) ∙ here), after),
                λ x lo. same x (omega arith),
              )
        ]

-- no two free blocks stand side by side
abbrev pub IsMerged : Pieces → Type 0
IsMerged [] = Unit
IsMerged ((n, v) ∷ []) = Unit
IsMerged ((n, v) ∷ (k, w) ∷ bs) = ((v && w) ≡ false) × IsMerged ((k, w) ∷ bs)

IsMerged-cons :
    (n m : ℕ) (v w : Bool) (bs : Pieces)
    → (v && w) ≡ false
    → IsMerged (merged_from m w bs)
    → IsMerged ((n, v) ∷ merged_from m w bs)
IsMerged-cons n m v w [] apart rest = (apart, tt)
IsMerged-cons n m v w ((k, u) ∷ bs) apart rest =
    elim (Bool-cases (w && u)) as (λ _. IsMerged ((n, v) ∷ merged_from m w ((k, u) ∷ bs))) [
      | inl both ↦ rw both (IsMerged-cons n (m + (header_size + k)) v w bs apart (rw both at rest))
      | inr split ↦ rw split (apart, rw split at rest)
    ]

merged_from-IsMerged : (n : ℕ) (v : Bool) (bs : Pieces) → IsMerged (merged_from n v bs)
merged_from-IsMerged n v [] = tt
merged_from-IsMerged n v ((k, w) ∷ bs) =
    elim (Bool-cases (v && w)) as (λ _. IsMerged (merged_from n v ((k, w) ∷ bs))) [
      | inl both ↦ rw both (merged_from-IsMerged (n + (header_size + k)) v bs)
      | inr apart ↦ rw apart (IsMerged-cons n k v w bs apart (merged_from-IsMerged k w bs))
    ]

pub merged-IsMerged : (bs : Pieces) → IsMerged (merged bs)
merged-IsMerged [] = tt
merged-IsMerged ((n, v) ∷ bs) = merged_from-IsMerged n v bs

pub first_of-merged : (bs : Pieces) (c : ℕ) → first_of (merged bs) c ≡ first_of bs c
first_of-merged [] c = refl
first_of-merged ((n, v) ∷ bs) c = first_of-merged_from n v bs c

pub merge-IsHeap :
    (fuel start e : ℕ) (bs : Pieces) (block : ℕ → Block)
    → Laid block start bs e
    → 0 < start
    → e < 2 ^ 32
    → length bs < fuel
    → (block' : ℕ → Block) × (merge_free_blocks fuel block (first_of bs start) ≡ done block')
      × Laid block' start (merged bs) e
unfolding merge_free_blocks
merge-IsHeap zero start e bs block laid pos small enough = absurd (omega arith)
merge-IsHeap (suc fuel) start e [] block laid pos small enough = (block, refl, laid)
merge-IsHeap (suc fuel) start e ((n, v) ∷ bs) block laid pos small enough =
    let (block', run, after, same) =
      merge_free_blocks-Laid (suc fuel) e bs block n v start laid pos small (omega arith) in
    (block', run, after)
