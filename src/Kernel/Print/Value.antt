-- ===== src/Kernel/Print/Value.antt =====
-- What `print_uint` prints is the number.
use astra_os.Base.{
  ℕ, zero, suc, ◌+◌, ◌-◌, ◌*◌, ◌/◌, ◌%◌, ◌^◌, ◌≡◌, ◌≤◌, ◌<◌, ◌∙◌, refl, arith, inl, inr, Bool-cases,
  ==→eq, sym, false, true, ◌==◌, if_ind, ap, List, [], ◌∷◌, ◌++◌, length, length-append, All, Run,
  done, ◌>>=◌,
}
use native.Mathlib.Nat.{pow-suc}
use astra_os.Kernel.Print.{digit_loop, reversed, print_uint}

-- the number that decimal digits stand for, behind those that make up `n`
abbrev pub value_from : ℕ → List ℕ → ℕ
value_from n [] = n
value_from n (c ∷ text) = value_from (n * 10 + (c - b'0')) text

-- `text` is the number in decimal: digits that stand for it, and no 0 in front of others
pub record IsDecimal (num : ℕ) (text : List ℕ) : Type 0 where
  pub digits : All (λ c. (b'0' ≤ c) × (c ≤ b'9')) text
  pub value : value_from 0 text ≡ num
  pub some_digit : 0 < length text
  pub shortest : 1 < length text → 10 ^ length text ≤ num * 10

-- the same for the last digit first
abbrev low_first : List ℕ → ℕ
low_first [] = 0
low_first (c ∷ buf) = low_first buf * 10 + (c - b'0')

value_from-append :
    (n : ℕ) (text : List ℕ) (c : ℕ)
    → value_from n (text ++ c ∷ []) ≡ value_from n text * 10 + (c - b'0')
value_from-append n [] c = refl
value_from-append n (d ∷ text) c = value_from-append (n * 10 + (d - b'0')) text c

value_from-reversed : (buf : List ℕ) → value_from 0 (reversed buf) ≡ low_first buf
unfolding reversed
value_from-reversed [] = refl
value_from-reversed (c ∷ buf) =
    omega (arith, value_from-append 0 (reversed buf) c, value_from-reversed buf)

length-reversed : (buf : List ℕ) → length (reversed buf) ≡ length buf
unfolding reversed
length-reversed [] = refl
length-reversed (c ∷ buf) =
    omega (arith, length-append (reversed buf) (c ∷ []), length-reversed buf)

digits-append :
    (text : List ℕ) (c : ℕ)
    → All (λ c. (b'0' ≤ c) × (c ≤ b'9')) text
    → (b'0' ≤ c) × (c ≤ b'9')
    → All (λ c. (b'0' ≤ c) × (c ≤ b'9')) (text ++ c ∷ [])
digits-append [] c all h = (h, tt)
digits-append (d ∷ text) c (p, all) h = (p, digits-append text c all h)

digits-reversed :
    (buf : List ℕ)
    → All (λ c. (b'0' ≤ c) × (c ≤ b'9')) buf
    → All (λ c. (b'0' ≤ c) × (c ≤ b'9')) (reversed buf)
unfolding reversed
digits-reversed [] all = tt
digits-reversed (c ∷ buf) (p, all) = digits-append (reversed buf) c (digits-reversed buf all) p

-- what `buf` holds for `num`, in at most `fuel` digits
record IsBuf (fuel num : ℕ) (buf : List ℕ) : Type 0 where
  digits : All (λ c. (b'0' ≤ c) × (c ≤ b'9')) buf
  value : low_first buf ≡ num
  short : length buf ≤ fuel
  nothing : num ≡ 0 → length buf ≡ 0
  shortest : 0 < num → (0 < length buf) × (10 ^ length buf ≤ num * 10)

IsBuf-nil : (fuel num : ℕ) → num ≡ 0 → IsBuf fuel num []
IsBuf-nil fuel num z = record {
  digits = tt;
  value = sym z;
  short = omega arith;
  nothing = λ _. refl;
  shortest = λ pos. absurd (omega arith);
}

IsBuf-digit :
    (fuel num : ℕ) (buf : List ℕ)
    → 0 < num
    → IsBuf fuel (num / 10) buf
    → IsBuf (suc fuel) num ((b'0' + num % 10) ∷ buf)
IsBuf-digit fuel num buf pos h = record {
  digits = ((omega arith, omega arith), h.digits);
  value = omega (arith, h.value);
  short = omega (arith, h.short);
  nothing = λ z. absurd (omega arith);
  shortest = λ _. (omega arith, bound);
}
  where
    tenth : 10 ^ suc (length buf) ≡ 10 ^ length buf * 10
    tenth = pow-suc 10 (length buf)

    bound : 10 ^ suc (length buf) ≤ num * 10
    bound = elim (Bool-cases (num / 10 == 0)) [
      | inl z ↦
          let none_left = ap (λ n. 10 ^ n) (h.nothing (==→eq (num / 10) 0 z)) in
          omega (arith, tenth, none_left)
      | inr more ↦ let (some_left, le) = h.shortest (ground arith) in omega (arith, tenth, le)
    ]

digit_loop_lem :
    (fuel num bound : ℕ)
    → num < bound
    → bound ≤ 10 ^ fuel
    → (buf : List ℕ) × (digit_loop (suc fuel) num ≡ done buf) × IsBuf fuel num buf
unfolding digit_loop
digit_loop_lem zero num bound small le =
    let z : (num == 0) ≡ true = ground arith in ([], rw z refl, IsBuf-nil zero num (ground arith))
digit_loop_lem (suc fuel) num bound small le = elim (Bool-cases (num == 0)) [
  | inl nothing ↦ ([], rw nothing refl, IsBuf-nil (suc fuel) num (==→eq num 0 nothing))
  | inr some_digit ↦
      let tenth : 10 ^ suc fuel ≡ 10 ^ fuel * 10 = pow-suc 10 fuel in
      let (buf, run, h) = digit_loop_lem fuel (num / 10) (10 ^ fuel) (omega arith) (omega arith) in
      (
        (b'0' + num % 10) ∷ buf,
        rw (some_digit, run) refl,
        IsBuf-digit fuel num buf (ground arith) h,
      )
]

-- For every `uint32_t`, `print_uint` ends and prints the number in decimal: characters from 0 to 9 that
-- stand for it, at least one and no more than it needs. They are at most 10, so that they and a NUL
-- fit the 16 bytes of its buffer.
pub print_uint_lem :
    (num : ℕ)
    → num < 2 ^ 32
    → (text : List ℕ) × (print_uint num ≡ done text) × IsDecimal num text × (length text ≤ 10)
unfolding print_uint
print_uint_lem num small =
    let P = λ (r : Run (List ℕ)).
      (text : List ℕ) × (r ≡ done text) × IsDecimal num text × (length text ≤ 10) in
    if_ind (λ b. P) (num == 0) (λ nothing. (b'0' ∷ [], refl, zero-IsDecimal nothing, omega arith))
      (λ more.
        let (buf, run, h) = digit_loop_lem 10 num (2 ^ 32) small (omega arith) in
        (
          reversed buf,
          ap (λ (r : Run (List ℕ)). r >>= λ buf. done (reversed buf)) run,
          reversed-IsDecimal buf more h,
          omega (arith, length-reversed buf, h.short),
        ))
  where
    zero-IsDecimal : (num == 0) ≡ true → IsDecimal num (b'0' ∷ [])
    zero-IsDecimal nothing = record {
      digits = ((omega arith, omega arith), tt);
      value = ground arith;
      some_digit = omega arith;
      shortest = λ lt. absurd (omega arith);
    }

    reversed-IsDecimal :
        (buf : List ℕ) → (num == 0) ≡ false → IsBuf 10 num buf → IsDecimal num (reversed buf)
    reversed-IsDecimal buf more h =
        let (some_left, le) = h.shortest (ground arith) in
        let same : 10 ^ length (reversed buf) ≡ 10 ^ length buf =
          ap (λ n. 10 ^ n) (length-reversed buf) in
        record {
          digits = digits-reversed buf h.digits;
          value = value_from-reversed buf ∙ h.value;
          some_digit = omega (arith, length-reversed buf);
          shortest = λ _. omega (arith, same, le);
        }
