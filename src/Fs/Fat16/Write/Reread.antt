-- ===== src/Fs/Fat16/Write/Reread.antt =====
-- The sectors that a write fills, as a read finds them.
use astra_os.Base.{
  ◌⊎◌, ℕ, zero, suc, ◌+◌, ◌-◌, ◌*◌, ◌^◌, ◌≤◌, ◌<◌, ◌≡◌, ◌∙◌, refl, sym, ap, inl, arith, true, false,
  ◌==◌, if_ind, List, [], ◌∷◌, ◌++◌, length, take, drop, get_or, length-drop, length-take-drop,
  length-take-le, take-nil, drop-nil, take_split, drop_split, u32,
}
use mathlib.Core.Path.{subst}
use astra_os.Fs.Fat16.Layout.{Disk, Sector, ata_read_sector, ata_write_sector}
use astra_os.Fs.Fat16.Table.Entry.{read-write_self, read-write_ne}
use astra_os.Fs.Fat16.Read.{bytes_from, min_ℕ, copy_sectors}
use astra_os.Fs.Fat16.Write.{padded, write_sectors}

-- a buffer that holds a list from `i` on
bytes_from-list :
    (buf : Sector) (i : ℕ) (xs : List ℕ)
    → ((k : ℕ) → k < length xs → buf (i + k) ≡ get_or xs k 0)
    → bytes_from buf i (length xs) ≡ xs
unfolding bytes_from
bytes_from-list buf i [] h = refl
bytes_from-list buf i (x ∷ xs) h =
    ap (◌∷ bytes_from buf (i + 1) (length xs)) (ap buf (omega arith) ∙ h 0 (omega arith))
    ∙ ap (x ∷◌)
        (bytes_from-list buf (i + 1) xs (λ k lt. ap buf (omega arith) ∙ h (suc k) (omega arith)))

bytes_from-padded : (xs : List ℕ) → bytes_from (padded xs) 0 (length xs) ≡ xs
bytes_from-padded xs =
    bytes_from-list (padded xs) 0 xs (λ k lt. ap (λ i. get_or xs i 0) (omega arith))

-- all other sectors are kept
pub write_sectors-outside :
    (left lba l : ℕ) (d : Disk) (content : List ℕ)
    → (l < lba) ⊎ (lba + left ≤ l)
    → l < 2 ^ 28
    → lba + left ≤ 2 ^ 28
    → ata_read_sector (write_sectors left lba d content).0 l ≡ ata_read_sector d l
unfolding write_sectors
write_sectors-outside zero lba l d content out low small = refl
write_sectors-outside (suc left) lba l d content out low small =
    if_ind (λ b (w : Disk × List ℕ). ata_read_sector w.0 l ≡ ata_read_sector d l)
      (length (drop 512 content) == 0) (λ _. here)
      (λ _. rw next (
        write_sectors-outside left (lba + 1) l d' (drop 512 content) (ground arith) low
          (omega arith)
        ∙ here))
  where
    next : u32 (lba + 1) ≡ lba + 1
    next = omega arith

    d' : Disk
    d' = ata_write_sector d lba (padded (take 512 content))

    here : ata_read_sector d' l ≡ ata_read_sector d l
    here = read-write_ne d lba (padded (take 512 content)) l (ground arith)

copy_nothing : (left lba skip : ℕ) (d : Disk) → copy_sectors left lba d skip 0 ≡ ([], 0)
unfolding copy_sectors
copy_nothing zero lba skip d = refl
copy_nothing (suc left) lba skip d = refl

lesser : (n a t r : ℕ) → t + r ≡ a → t ≤ n → r ≡ a - n → min_ℕ n a ≡ t
lesser n a t r sum le rest = ground arith

-- a round of the copying loop whose sector holds the next 512 bytes
copy_round :
    (left lba : ℕ) (d : Disk) (content : List ℕ)
    → (length content == 0) ≡ false
    → lba < 2 ^ 28
    → ata_read_sector d lba ≡ padded (take 512 content)
    → let more = copy_sectors left (lba + 1) d 0 (length (drop 512 content)) in
      copy_sectors (suc left) lba d 0 (length content) ≡ (take 512 content ++ more.0, more.1)
unfolding copy_sectors
copy_round left lba d content some_bytes small holds =
    rw (some_bytes, next, holds, count, behind, bytes_from-padded (take 512 content)) refl
  where
    next : u32 (lba + 1) ≡ lba + 1
    next = omega arith

    count : min_ℕ 512 (length content) ≡ length (take 512 content)
    count =
        lesser 512 (length content) (length (take 512 content)) (length (drop 512 content))
          (length-take-drop 512 content) (length-take-le 512 content) (length-drop 512 content)

    behind : length content - length (take 512 content) ≡ length (drop 512 content)
    behind = omega (arith, length-take-drop 512 content)

-- the disk of `written` holds what fits of the content in `left` sectors, and the rest is the rest
abbrev IsReread : ℕ → ℕ → List ℕ → Disk × List ℕ → Type 0
IsReread left lba content written =
    (copy_sectors left lba written.0 0 (length content)
      ≡ (take (left * 512) content, length content - left * 512))
    × (written.1 ≡ drop (left * 512) content)

IsReread-suc :
    (left lba : ℕ) (content : List ℕ) (written : Disk × List ℕ)
    → (length content == 0) ≡ false
    → lba < 2 ^ 28
    → ata_read_sector written.0 lba ≡ padded (take 512 content)
    → IsReread left (lba + 1) (drop 512 content) written
    → IsReread (suc left) lba content written
IsReread-suc left lba content written some_bytes small holds (copied, kept) = (
  copy_round left lba written.0 content some_bytes small holds
      ∙ ap (λ more. (take 512 content ++ more.0, more.1)) copied
      ∙ ap (λ bytes. (bytes, length (drop 512 content) - left * 512))
          (sym (take_split 512 (left * 512) (suc left * 512) content (omega arith)))
      ∙ ap (λ n. (take (suc left * 512) content, n)) (omega (arith, length-drop 512 content)),
  kept ∙ sym (drop_split 512 (left * 512) (suc left * 512) content (omega arith)),
)

IsReread-nil : (left lba : ℕ) (d : Disk) → IsReread left lba [] (d, [])
IsReread-nil left lba d =
    let none_left : 0 - left * 512 ≡ 0 = omega arith in
    (rw (take-nil (left * 512), none_left) (copy_nothing left lba 0 d), sym (drop-nil (left * 512)))

empty : (xs : List ℕ) → (length xs == 0) ≡ true → xs ≡ []
empty [] h = refl
empty (x ∷ xs) h = absurd (ground arith)

write_sectors-IsReread :
    (left lba : ℕ) (d : Disk) (content : List ℕ)
    → lba + left ≤ 2 ^ 28
    → IsReread left lba content (write_sectors left lba d content)
unfolding write_sectors
write_sectors-IsReread zero lba d content small =
    (unfold copy_sectors in ap (λ n. ([], n)) (omega arith), refl)
write_sectors-IsReread (suc left) lba d [] small =
    IsReread-nil (suc left) lba (ata_write_sector d lba (padded []))
write_sectors-IsReread (suc left) lba d (x ∷ xs) small =
    if_ind (λ b (w : Disk × List ℕ). IsReread (suc left) lba (x ∷ xs) w)
      (length (drop 512 (x ∷ xs)) == 0)
      (λ last.
        round (d', []) here
          (subst (λ r. IsReread left (lba + 1) r (d', [])) (sym (empty (drop 512 (x ∷ xs)) last))
            (IsReread-nil left (lba + 1) d')))
      (λ _.
        subst (λ n. IsReread (suc left) lba (x ∷ xs) (write_sectors left n d' (drop 512 (x ∷ xs))))
          (sym next)
          (round (write_sectors left (lba + 1) d' (drop 512 (x ∷ xs)))
            (write_sectors-outside left (lba + 1) lba d' (drop 512 (x ∷ xs)) (inl (omega arith))
                (omega arith) (omega arith)
              ∙ here)
            (write_sectors-IsReread left (lba + 1) d' (drop 512 (x ∷ xs)) (omega arith))))
  where
    d' : Disk
    d' = ata_write_sector d lba (padded (take 512 (x ∷ xs)))

    here : ata_read_sector d' lba ≡ padded (take 512 (x ∷ xs))
    here = read-write_self d lba (padded (take 512 (x ∷ xs)))

    next : u32 (lba + 1) ≡ lba + 1
    next = omega arith

    round :
        (w : Disk × List ℕ)
        → ata_read_sector w.0 lba ≡ padded (take 512 (x ∷ xs))
        → IsReread left (lba + 1) (drop 512 (x ∷ xs)) w
        → IsReread (suc left) lba (x ∷ xs) w
    round w = IsReread-suc left lba (x ∷ xs) w (ground arith) (omega arith)

-- Of sectors within the 2^28 that the drive addresses, `copy_sectors` reads what `write_sectors` has
-- put there: the content from its start, as many bytes as the sectors hold, and as many are left to
-- read as did not fit. What is left to write is the content behind them.
pub copy-write_sectors :
    (left lba : ℕ) (d : Disk) (content : List ℕ)
    → lba + left ≤ 2 ^ 28
    → let written = write_sectors left lba d content in
      (copy_sectors left lba written.0 0 (length content)
        ≡ (take (left * 512) content, length content - left * 512))
      × (written.1 ≡ drop (left * 512) content)
copy-write_sectors = write_sectors-IsReread
