-- ===== src/Kernel/Bytes.antt =====
-- Memory by address, and the loops that write to it: the copies of the loader and `memset`.
use astra_os.Base.{
  ℕ, zero, suc, ◌+◌, ◌≤◌, ◌<◌, ◌≡◌, ◌⊎◌, ◌∙◌, refl, arith, List, [], ◌∷◌, length, get_or, u8,
  update, update_self, update_ne,
}

-- the bytes of the identity-mapped memory
abbrev pub Mem : Type 0
Mem = ℕ → ℕ

-- `for (j = 0; j < n; j++) ((uint8_t *)addr)[j] = bytes[j];`
unfoldable pub write_bytes : Mem → ℕ → List ℕ → Mem
write_bytes m addr [] = m
write_bytes m addr (c ∷ cs) = write_bytes (update m addr c) (addr + 1) cs

-- `memset` of string.c, with the rounds that are left
unfoldable pub memset : Mem → ℕ → ℕ → ℕ → Mem
memset m dest val zero = m
memset m dest val (suc len) = memset (update m dest (u8 val)) (dest + 1) val len

abbrev pub Outside : ℕ → ℕ → ℕ → Type 0
Outside lo hi a = (a < lo) ⊎ (hi ≤ a)

pub write_bytes-Outside :
    (m : Mem) (addr : ℕ) (cs : List ℕ) (a : ℕ)
    → Outside addr (addr + length cs) a
    → write_bytes m addr cs a ≡ m a
unfolding write_bytes
write_bytes-Outside m addr [] a out = refl
write_bytes-Outside m addr (c ∷ cs) a out =
    write_bytes-Outside (update m addr c) (addr + 1) cs a (omega arith)
    ∙ update_ne m addr c a (omega arith)

pub write_bytes_inside :
    (m : Mem) (addr : ℕ) (cs : List ℕ) (i : ℕ)
    → i < length cs
    → write_bytes m addr cs (addr + i) ≡ get_or cs i 0
unfolding write_bytes
write_bytes_inside m addr [] i h = absurd (omega arith)
write_bytes_inside m addr (c ∷ cs) zero h =
    let e : addr + 0 ≡ addr = omega arith in
    rw e (
      write_bytes-Outside (update m addr c) (addr + 1) cs addr (omega arith) ∙ update_self m addr c)
write_bytes_inside m addr (c ∷ cs) (suc i) h =
    let e : addr + suc i ≡ addr + 1 + i = omega arith in
    rw e (write_bytes_inside (update m addr c) (addr + 1) cs i (omega arith))

pub memset-Outside :
    (m : Mem) (dest val len : ℕ) (a : ℕ)
    → Outside dest (dest + len) a
    → memset m dest val len a ≡ m a
unfolding memset
memset-Outside m dest val zero a out = refl
memset-Outside m dest val (suc len) a out =
    memset-Outside (update m dest (u8 val)) (dest + 1) val len a (omega arith)
    ∙ update_ne m dest (u8 val) a (omega arith)

pub memset_inside :
    (m : Mem) (dest val len i : ℕ) → i < len → memset m dest val len (dest + i) ≡ u8 val
unfolding memset
memset_inside m dest val zero i h = absurd (omega arith)
memset_inside m dest val (suc len) zero h =
    let e : dest + 0 ≡ dest = omega arith in
    rw e (
      memset-Outside (update m dest (u8 val)) (dest + 1) val len dest (omega arith)
      ∙ update_self m dest (u8 val))
memset_inside m dest val (suc len) (suc i) h =
    let e : dest + suc i ≡ dest + 1 + i = omega arith in
    rw e (memset_inside (update m dest (u8 val)) (dest + 1) val len i (omega arith))
