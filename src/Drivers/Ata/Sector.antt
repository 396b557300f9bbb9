-- ===== src/Drivers/Ata/Sector.antt =====
-- The address that reaches the drive, and the bytes of a sector as words.
use mathlib.Core.Path.{subst}
use mathlib.Core.List.{append_assoc}
use astra_os.Base.{
  ℕ, zero, suc, ◌+◌, ◌*◌, ◌/◌, ◌%◌, ◌^◌, ◌≤◌, ◌<◌, ◌≡◌, ◌⊎◌, inl, inr, ◌∙◌, refl, sym, arith, u8,
  update, update_self, update_ne, bit_and, bit_or, bit_or_beside, bit_or_step, bit_and-low, List,
  [], ◌∷◌, ◌++◌, ltb, ltb→lt, ltb→le, Bool-cases,
}
use astra_os.Drivers.Ata.{Drive, send_command, read_words, packed_word}

-- the address of 28 bits that the drive puts together from its registers
abbrev pub address_of : ℕ → ℕ → ℕ → ℕ → ℕ
address_of low mid high select = low + mid * 256 + high * 65536 + select % 16 * 16777216

-- the six writes of a command, as one list
abbrev pub command_of : ℕ → ℕ → ℕ → ℕ → ℕ → List (ℕ × ℕ)
command_of select low mid high command =
    (0x1F6, select)
    ∷ (0x1F2, 1)
    ∷ (0x1F3, low)
    ∷ (0x1F4, mid)
    ∷ (0x1F5, high)
    ∷ (0x1F7, command)
    ∷ []

parity : (k : ℕ) → (k ≡ k / 2 * 2) ⊎ (k ≡ k / 2 * 2 + 1)
parity k = ground arith

select_low : (n : ℕ) → bit_or 0xE0 (bit_and n 0x0F) % 16 ≡ n % 16
select_low n =
    let m = bit_and n 0x0F in
    omega (
      arith,
      bit_and-low 4 n,
      bit_or_step 0xE0 m,
      bit_or_step 0x70 (m / 2),
      bit_or_step 0x38 (m / 2 / 2),
      bit_or_step 0x1C (m / 2 / 2 / 2),
    )

packed_word-bytes :
    (buffer : ℕ → ℕ) (i : ℕ)
    → buffer (i * 2) < 256
    → buffer (i * 2 + 1) < 256
    → (u8 (packed_word buffer i) ≡ buffer (i * 2))
      × (u8 (packed_word buffer i / 256) ≡ buffer (i * 2 + 1))
unfolding packed_word
packed_word-bytes buffer i low high =
    let joined = bit_or_beside 8 (buffer (i * 2)) (buffer (i * 2 + 1)) low in
    (omega (arith, joined), omega (arith, joined))

module _ (words buffer : ℕ → ℕ) (i : ℕ) where
  abbrev low_read : ℕ → ℕ
  low_read = update buffer (i * 2) (u8 (words i))

  -- the buffer after round `i`
  abbrev word_read : ℕ → ℕ
  word_read = update (update buffer (i * 2) (u8 (words i))) (i * 2 + 1) (u8 (words i / 256))

read_words-other :
    (left i : ℕ) (words buffer : ℕ → ℕ) (k : ℕ)
    → (k < i * 2) ⊎ ((i + left) * 2 ≤ k)
    → read_words left i words buffer k ≡ buffer k
unfolding read_words
read_words-other zero i words buffer k out = refl
read_words-other (suc left) i words buffer k out =
    read_words-other left (i + 1) words (word_read words buffer i) k (omega arith)
    ∙ update_ne (low_read words buffer i) (i * 2 + 1) (u8 (words i / 256)) k (omega arith)
    ∙ update_ne buffer (i * 2) (u8 (words i)) k (omega arith)

read_words-at :
    (left i : ℕ) (words buffer : ℕ → ℕ) (j : ℕ)
    → i ≤ j
    → j < i + left
    → (read_words left i words buffer (j * 2) ≡ u8 (words j))
      × (read_words left i words buffer (j * 2 + 1) ≡ u8 (words j / 256))
unfolding read_words
read_words-at zero i words buffer j from to = absurd (omega arith)
read_words-at (suc left) i words buffer j from to = elim (Bool-cases (ltb i j)) [
  | inl h ↦
      let later = ltb→lt i j h in
      read_words-at left (i + 1) words (word_read words buffer i) j (omega arith) (omega arith)
  | inr h ↦
      let same : i ≡ j = omega (arith, ltb→le i j h) in
      subst
        (λ k.
          (read_words left (i + 1) words (word_read words buffer i) (k * 2) ≡ u8 (words k))
          × (read_words left (i + 1) words (word_read words buffer i) (k * 2 + 1)
              ≡ u8 (words k / 256)))
        same
        (
          read_words-other left (i + 1) words (word_read words buffer i) (i * 2) (inl (omega arith))
              ∙ update_ne (low_read words buffer i) (i * 2 + 1) (u8 (words i / 256)) (i * 2)
                  (omega arith)
              ∙ update_self buffer (i * 2) (u8 (words i)),
          read_words-other left (i + 1) words (word_read words buffer i) (i * 2 + 1)
                (inl (omega arith))
              ∙ update_self (low_read words buffer i) (i * 2 + 1) (u8 (words i / 256)),
        )
]

-- The words that a buffer of bytes is written as read back as the same 512 bytes, whatever the
-- buffer held that they are read into.
pub read_words-packed_word :
    (source buffer : ℕ → ℕ) (k : ℕ)
    → ((j : ℕ) → source j < 256)
    → k < 512
    → read_words 256 0 (packed_word source) buffer k ≡ source k
read_words-packed_word source buffer k bytes lt =
    let j = k / 2 in
    let (low, high) =
      read_words-at 256 0 (packed_word source) buffer j (omega arith) (omega arith) in
    let (low', high') = packed_word-bytes source j (bytes (j * 2)) (bytes (j * 2 + 1)) in
    elim (parity k) [
      | inl even ↦
          subst (λ i. read_words 256 0 (packed_word source) buffer i ≡ source i) (sym even)
            (low ∙ low')
      | inr odd ↦
          subst (λ i. read_words 256 0 (packed_word source) buffer i ≡ source i) (sym odd)
            (high ∙ high')
    ]

-- A command is six writes: the drive, a count of 1, the address and the command; and the address
-- that the drive puts together from its registers is the sector's number modulo 2^28.
pub send_command_lem :
    (lba command : ℕ) (d : Drive)
    → lba < 2 ^ 32
    → (select low mid high : ℕ) × ((send_command lba command d).written
        ≡ d.written ++ command_of select low mid high command)
      × (address_of low mid high select ≡ lba % 2 ^ 28)
unfolding send_command
send_command_lem lba command d small = (
  bit_or 0xE0 (bit_and (lba / 16777216) 0x0F),
  u8 lba,
  u8 (lba / 256),
  u8 (lba / 65536),
  simp append_assoc,
  omega (arith, select_low (lba / 16777216)),
)
